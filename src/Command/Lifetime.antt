-- ===== src/Command/Lifetime.antt =====
-- cmd/donut-server/main.go: the life of the process, from the call of `Run` on, with the shutdown that
-- ListenAndServe of internal/server/server.go starts. The goroutines are the one that waits for a signal, the
-- one that serves, the one that shuts the server down, and main's own wait; each moves in steps. What
-- net/http documents is in the steps of its server: its ListenAndServe returns ErrServerClosed only
-- after Shutdown was called, and then while Shutdown still waits for the requests in flight.
pub mod Ends
pub mod Onward
use distributed_donut.Prelude.{
  ℕ, suc, ◌+◌, Option, none, some, Bool, true, false, ◌≡◌, if◌then◌else◌, ◌*◌,
}
use distributed_donut.Server.Http.{HttpError, server_closed, other, listen_and_serve}
use Prim.Native.String.{String}

-- `cancelled` is the context's. `http` is what ListenAndServe of net/http returned, `none` as long as it
-- runs, and `served` whether the goroutine that called it went on from there. `shutting_down` and
-- `shut_down`: Shutdown was called, and it returned.
pub record Process : Type 0 where
  pub signalled : Bool
  pub cancelled : Bool
  pub shutting_down : Bool
  pub shut_down : Bool
  pub http : Option HttpError
  pub served : Bool
  pub in_flight : ℕ
  pub terminated : Bool

-- What main has started when it comes to its wait.
unfoldable pub started : Process
started = record {
  signalled = false;
  cancelled = false;
  shutting_down = false;
  shut_down = false;
  http = none;
  served = false;
  in_flight = 0;
  terminated = false;
}

-- How main goes on once it has looked for the static files: it exits with a code, or comes to its wait.
data Launch : Type 0 where
  exited : (code : ℕ) → Launch
  launched : (p : Process) → Launch

unfoldable launch : (static_found : Bool) → Launch
unfolding started
launch static_found = if static_found then launched started else exited 1

-- the goroutine that serves, after its server has returned: whether the context is cancelled then
unfoldable pub after_serving : HttpError → Bool → Bool
unfolding listen_and_serve
after_serving e cancelled = elim (listen_and_serve e) [ none ↦ cancelled | some _ ↦ true ]

-- the goroutine that waits for a signal: of several it takes the first
pub data SignalStep (p : Process) : Process → Type 0 where
  signal : p.signalled ≡ false → SignalStep p (record p { signalled = true; cancelled = true })

-- ListenAndServe, with its server's requests. Shutdown may return at any time: the requests are done or its
-- timeout has passed.
pub data ServeStep (p : Process) : Process → Type 0 where
  request_in : p.http ≡ none → ServeStep p (record p { in_flight = p.in_flight + 1 })
  request_out : (n : ℕ) → p.in_flight ≡ suc n → ServeStep p (record p { in_flight = n })
  begin_shutdown :
      p.cancelled ≡ true → p.shutting_down ≡ false → ServeStep p (record p { shutting_down = true })
  shutdown_returns :
      p.shutting_down ≡ true → p.shut_down ≡ false → ServeStep p (record p { shut_down = true })
  server_fails :
      (text : String) → p.http ≡ none → ServeStep p (record p { http = some (other text) })
  server_closes :
      p.http ≡ none → p.shutting_down ≡ true → ServeStep p (record p { http = some server_closed })

-- main: the goroutine that serves, and the wait for the context
pub data MainStep (p : Process) : Process → Type 0 where
  after_server :
      (e : HttpError)
      → p.http ≡ some e
      → p.served ≡ false
      → MainStep p (record p { served = true; cancelled = after_serving e p.cancelled })
  terminate : p.cancelled ≡ true → MainStep p (record p { terminated = true })

pub data ProcessStep (p p' : Process) : Type 0 where
  by_signal : SignalStep p p' → ProcessStep p p'
  by_server : ServeStep p p' → ProcessStep p p'
  by_main : MainStep p p' → ProcessStep p p'

-- What the process can come to. Once main has returned there is no further step.
pub data Lives : Process → Type 0 where
  at_start : Lives started
  and_then : {p p' : Process} → Lives p → p.terminated ≡ false → ProcessStep p p' → Lives p'
