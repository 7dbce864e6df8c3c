-- ===== src/Command/Lifetime/Onward.antt =====
-- That the process comes to its end once there is a cause.
use distributed_donut.Prelude.{none, some, true, false, ◌≡◌, refl, inl, inr, Bool-cases}
use distributed_donut.Server.Http.{server_closed, other, listen_and_serve}
use distributed_donut.Command.Lifetime.{
  Process, started, after_serving, ProcessStep, by_signal, by_server, by_main, MainStep,
  after_server, request_in, request_out, signal, begin_shutdown, shutdown_returns, server_fails,
  server_closes, terminate, Lives, at_start, and_then,
}
use distributed_donut.Command.Lifetime.Ends.{HasCause}
use Prim.Native.String.{String}

-- Main has noticed the cause, or its goroutine has not yet looked at what the server returned.
record Notices (p : Process) : Type 0 where
  heard : p.signalled ≡ true → p.cancelled ≡ true
  failed : (text : String) → p.http ≡ some (other text) → p.served ≡ true → p.cancelled ≡ true
  unserved : p.http ≡ none → p.served ≡ false

ProcessStep-Notices : {p p' : Process} → Notices p → ProcessStep p p' → Notices p'
unfolding after_serving listen_and_serve
ProcessStep-Notices v (by_signal (signal e)) = record {
  heard = λ _. refl;
  failed = λ _ _ _. refl;
  unserved = v.unserved;
}
ProcessStep-Notices v (by_server (request_in idle)) = record {
  heard = v.heard;
  failed = v.failed;
  unserved = v.unserved;
}
ProcessStep-Notices v (by_server (request_out n e)) = record {
  heard = v.heard;
  failed = v.failed;
  unserved = v.unserved;
}
ProcessStep-Notices v (by_server (begin_shutdown c e)) = record {
  heard = v.heard;
  failed = v.failed;
  unserved = v.unserved;
}
ProcessStep-Notices v (by_server (shutdown_returns c e)) = record {
  heard = v.heard;
  failed = v.failed;
  unserved = v.unserved;
}
ProcessStep-Notices v (by_server (server_fails text idle)) = record {
  heard = v.heard;
  failed = λ _ _ d. let u = v.unserved idle in absurd cc;
  unserved = λ e. absurd cc;
}
ProcessStep-Notices v (by_server (server_closes idle c)) = record {
  heard = v.heard;
  failed = λ _ e _. absurd cc;
  unserved = λ e. absurd cc;
}
ProcessStep-Notices v (by_main (after_server server_closed e fresh)) = record {
  heard = v.heard;
  failed = λ _ f _. absurd cc;
  unserved = λ f. absurd cc;
}
ProcessStep-Notices v (by_main (after_server (other text) e fresh)) = record {
  heard = λ _. refl;
  failed = λ _ _ _. refl;
  unserved = λ f. absurd cc;
}
ProcessStep-Notices v (by_main (terminate c)) = record {
  heard = v.heard;
  failed = v.failed;
  unserved = v.unserved;
}

Lives-Notices : {p : Process} → Lives p → Notices p
unfolding started
Lives-Notices at_start = record {
  heard = λ e. absurd cc;
  failed = λ _ _ e. absurd cc;
  unserved = λ _. refl;
}
Lives-Notices (and_then l running s) = ProcessStep-Notices (Lives-Notices l) s

-- Steps of main alone, to its return.
pub data MainSteps : Process → Process → Type 0 where
  ended :
      {p : Process}
      → p.terminated ≡ false
      → p.cancelled ≡ true
      → MainSteps p (record p { terminated = true })
  noticed : {p q r : Process} → p.terminated ≡ false → MainStep p q → MainSteps q r → MainSteps p r

-- Once there is a cause and main runs, its own steps lead to the end, wherever the others are: nothing else has to
-- move, and the requests in flight and the shutdown are left as they are.
pub Lives-ends :
    {p : Process}
    → Lives p
    → HasCause p
    → p.terminated ≡ false
    → (q : Process) × MainSteps p q
      × (q.terminated ≡ true)
      × (q.in_flight ≡ p.in_flight)
      × (q.shut_down ≡ p.shut_down)
unfolding after_serving listen_and_serve
Lives-ends {p} l (inl heard) running = (
  record p { terminated = true },
  ended running ((Lives-Notices l).heard heard),
  refl,
  refl,
  refl,
)
Lives-ends {p} l (inr (text, e)) running = elim (Bool-cases p.served) [
  | inl d ↦ (
    record p { terminated = true },
    ended running ((Lives-Notices l).failed text e d),
    refl,
    refl,
    refl,
  )
  | inr d ↦ (
    record p { served = true; cancelled = true; terminated = true },
    noticed running (after_server (other text) e d) (ended running refl),
    refl,
    refl,
    refl,
  )
]
