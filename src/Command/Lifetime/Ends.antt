-- ===== src/Command/Lifetime/Ends.antt =====
-- Why and when the process ends.
use distributed_donut.Prelude.{
  ℕ, zero, suc, some, true, false, ◌≡◌, refl, subst, ◌⊎◌, inl, inr, arith,
}
use distributed_donut.Server.Http.{server_closed, other, listen_and_serve}
use distributed_donut.Command.Lifetime.{
  Process, started, after_serving, ProcessStep, by_signal, by_server, by_main, SignalStep,
  ServeStep, MainStep, after_server, request_in, request_out, signal, begin_shutdown,
  shutdown_returns, server_fails, server_closes, terminate, Lives, at_start, and_then,
}
use Prim.Native.String.{String}

-- A signal came or the HTTP server failed.
abbrev pub HasCause : Process → Type 0
HasCause p = (p.signalled ≡ true) ⊎ ((text : String) × (p.http ≡ some (other text)))

pub record Caused (p : Process) : Type 0 where
  pub cancelled : p.cancelled ≡ true → HasCause p
  pub shutting : p.shutting_down ≡ true → p.cancelled ≡ true
  pub closed : p.http ≡ some server_closed → p.shutting_down ≡ true
  pub shut : p.shut_down ≡ true → p.shutting_down ≡ true
  pub ended : p.terminated ≡ true → p.cancelled ≡ true

SignalStep-Caused : {p p' : Process} → Caused p → SignalStep p p' → Caused p'
SignalStep-Caused v (signal e) = record {
  cancelled = λ _. inl refl;
  shutting = λ _. refl;
  closed = v.closed;
  shut = v.shut;
  ended = λ _. refl;
}

ServeStep-Caused : {p p' : Process} → Caused p → ServeStep p p' → Caused p'
ServeStep-Caused v (request_in idle) = record {
  cancelled = v.cancelled;
  shutting = v.shutting;
  closed = v.closed;
  shut = v.shut;
  ended = v.ended;
}
ServeStep-Caused v (request_out n e) = record {
  cancelled = v.cancelled;
  shutting = v.shutting;
  closed = v.closed;
  shut = v.shut;
  ended = v.ended;
}
ServeStep-Caused v (begin_shutdown c e) = record {
  cancelled = v.cancelled;
  shutting = λ _. c;
  closed = λ _. refl;
  shut = λ _. refl;
  ended = v.ended;
}
ServeStep-Caused v (shutdown_returns c e) = record {
  cancelled = v.cancelled;
  shutting = v.shutting;
  closed = v.closed;
  shut = λ _. c;
  ended = v.ended;
}
ServeStep-Caused v (server_fails text idle) = record {
  cancelled = λ _. inr (text, refl);
  shutting = v.shutting;
  closed = λ e. absurd cc;
  shut = v.shut;
  ended = v.ended;
}
ServeStep-Caused v (server_closes idle c) = record {
  cancelled = λ h. elim (v.cancelled h) [ inl s ↦ inl s | inr (text, e) ↦ absurd cc ];
  shutting = v.shutting;
  closed = λ _. c;
  shut = v.shut;
  ended = v.ended;
}

MainStep-Caused : {p p' : Process} → Caused p → MainStep p p' → Caused p'
unfolding after_serving listen_and_serve
MainStep-Caused v (after_server server_closed e fresh) = record {
  cancelled = v.cancelled;
  shutting = v.shutting;
  closed = v.closed;
  shut = v.shut;
  ended = v.ended;
}
MainStep-Caused v (after_server (other text) e fresh) = record {
  cancelled = λ _. inr (text, e);
  shutting = λ _. refl;
  closed = v.closed;
  shut = v.shut;
  ended = λ _. refl;
}
MainStep-Caused v (terminate c) = record {
  cancelled = v.cancelled;
  shutting = v.shutting;
  closed = v.closed;
  shut = v.shut;
  ended = λ _. c;
}

ProcessStep-Caused : {p p' : Process} → Caused p → ProcessStep p p' → Caused p'
ProcessStep-Caused v (by_signal s) = SignalStep-Caused v s
ProcessStep-Caused v (by_server s) = ServeStep-Caused v s
ProcessStep-Caused v (by_main s) = MainStep-Caused v s

-- The process is cancelled or ends only after a signal or a failure of the HTTP server; the server is shut
-- down only then, and closed only by that.
pub Lives-Caused : {p : Process} → Lives p → Caused p
unfolding started
Lives-Caused at_start = record {
  cancelled = λ e. absurd cc;
  shutting = λ e. absurd cc;
  closed = λ e. absurd cc;
  shut = λ e. absurd cc;
  ended = λ e. absurd cc;
}
Lives-Caused (and_then l running s) = ProcessStep-Caused (Lives-Caused l) s

-- A server closed by the shutdown is no failure: in that case there was a signal.
pub Lives-closed : {p : Process} → Lives p → p.http ≡ some server_closed → p.signalled ≡ true
Lives-closed {p} l e =
    let v = Lives-Caused l in
    elim (v.cancelled (v.shutting (v.closed e))) [ inl s ↦ s | inr (text, f) ↦ absurd cc ]

busy : ℕ → Process
busy n = record started { in_flight = n }

Lives-busy : (n : ℕ) → Lives (busy n)
unfolding busy started
Lives-busy zero = at_start
Lives-busy (suc n) =
    subst (λ m. Lives (busy m)) (omega arith)
      (and_then (Lives-busy n) refl (by_server (request_in refl)))

-- However many requests are in flight when a signal comes, main may return while Shutdown still waits
-- for all of them.
pub Lives-undrained :
    (n : ℕ)
    → (p : Process) × Lives p
      × (p.terminated ≡ true)
      × (p.shutting_down ≡ true)
      × (p.shut_down ≡ false)
      × (p.in_flight ≡ n)
unfolding busy started
Lives-undrained n = (
  record (busy n) { signalled = true; cancelled = true; shutting_down = true; terminated = true },
  and_then
      (and_then (and_then (Lives-busy n) refl (by_signal (signal refl))) refl
        (by_server (begin_shutdown refl refl)))
      refl (by_main (terminate refl)),
  refl,
  refl,
  refl,
  refl,
)

-- The process ends only after a signal or a failure of the HTTP server, whatever the order in which its
-- goroutines, the requests and the shutdown move.
pub Lives-terminated : {p : Process} → Lives p → p.terminated ≡ true → HasCause p
Lives-terminated l e = let v = Lives-Caused l in v.cancelled (v.ended e)
