-- ===== src/Command/Tests.antt =====
-- The theorems on the process around the orchestrator at a concrete log.
use distributed_donut.Prelude.{
  inr, ℕ, ◌≡◌, refl, if◌then◌else◌, List, [], ◌∷◌, Option, none, some, Error, ◌*◌, arith, true,
  false,
}
use distributed_donut.Command.Logging.{pos, leb_int, level_debug, Record, new_sampler, Sampler}
use distributed_donut.Command.Logging.Sampled.{Call, sampled, write_all, handle_all, magnitude}
use distributed_donut.Command.Logging.Derived.{
  Derivation, by_attrs, by_group, Entry, set_sampler, new_logger, log_all, reached,
  log_all-new_logger,
}
use distributed_donut.Command.Lifetime.{
  Process, started, Lives, at_start, and_then, by_signal, by_main, signal, terminate, by_server,
  server_fails,
}
use distributed_donut.Server.Http.{other}
use distributed_donut.Command.Lifetime.Onward.{MainSteps, Lives-ends}
use distributed_donut.Command.Lifetime.Ends.{HasCause, Lives-terminated, Lives-undrained}
use distributed_donut.Command.Logging.Spacing.{Spaced, handle_all-Spaced}
use distributed_donut.Command.Startup.{Flags, default_addr, settings, wire}
use distributed_donut.Command.Startup.Precedence.{IsWired, wire-settings-IsWired}
use distributed_donut.Orchestrator.{second}
use distributed_donut.Orchestrator.Pipeline.{idle_client}
use Prim.Native.String.{String}
use text.Mathlib.Text.{◌==◌}

abbrev appended : Record → List String → Option Error × List String
appended r out = (none, r.message ∷ out)

abbrev debug_at : String → ℕ → Call (List String)
debug_at msg now = record {
  base = appended;
  entry = record { level = level_debug; message = msg };
  now = now;
}

abbrev info_at : String → ℕ → Call (List String)
info_at msg now = record {
  base = appended;
  entry = record { level = pos 0; message = msg };
  now = now;
}

abbrev log : List (Call (List String))
log = debug_at "a" 0 ∷ debug_at "b" 1 ∷ debug_at "a" 1 ∷ info_at "a" 1 ∷ debug_at "a" 2 ∷ []

-- The second debug record of "a" comes too early.
log_run : handle_all log (new_sampler (pos 2)) [] ≡ "a" ∷ "a" ∷ "b" ∷ "a" ∷ []
unfolding handle_all new_sampler
log_run = refl

-- A base handler is the list of the groups it stands in, and enables everything.
abbrev in_groups : List String → Record → List String → Option Error × List String
in_groups groups r out = (none, r.message ∷ out)

abbrev entry_at : List (Derivation String) → String → ℕ → Entry String
entry_at derivations msg now = record {
  derivations = derivations;
  entry = record { level = level_debug; message = msg };
  now = now;
}

abbrev entries : List (Entry String)
entries =
    entry_at [] "a" 0
    ∷ entry_at (by_group "g" ∷ []) "a" 1
    ∷ entry_at (by_attrs ("k" ∷ []) ∷ []) "b" 1
    ∷ []

abbrev some_sampler : ℕ → Sampler
some_sampler a = record { interval = pos 0; last = λ _. none }

log_all-new_logger_example :
    log_all {Output = List String}
      (λ base level. true)
      in_groups
      (λ base list. base)
      (λ base name. name ∷ base)
      (record { base = []; sampler = 5 })
      entries
      (set_sampler some_sampler 5 (new_sampler (pos 2)))
      []
    ≡ write_all
        (if leb_int (pos 2) (pos 0)
          then reached
              (λ base level. true)
              in_groups
              (λ base list. base)
              (λ base name. name ∷ base)
              (record { base = []; sampler = 5 })
              entries
          else sampled (magnitude (pos 2)) [] (
              reached
                (λ base level. true)
                in_groups
                (λ base list. base)
                (λ base name. name ∷ base)
                (record { base = []; sampler = 5 })
                entries))
        []
unfolding new_logger
log_all-new_logger_example =
    log_all-new_logger (λ base level. true) in_groups (λ base list. base) (λ base name. name ∷ base)
      (λ level. []) level_debug (pos 2) 5 some_sampler entries []

-- A signal, and then the end.
interrupted : Process
interrupted = record started { signalled = true; cancelled = true; terminated = true }

Lives-interrupted : Lives interrupted
unfolding interrupted started
Lives-interrupted =
    and_then (and_then at_start refl (by_signal (signal refl))) refl (by_main (terminate refl))

interrupted_ended : interrupted.terminated ≡ true
unfolding interrupted started
interrupted_ended = refl

Lives-terminated_example : HasCause interrupted
Lives-terminated_example = Lives-terminated Lives-interrupted interrupted_ended

abbrev in_use : String
in_use = "address in use"

-- a server that could not listen
unheard : Process
unheard = record started { http = some (other in_use); in_flight = 0 }

Lives-unheard : Lives unheard
unfolding unheard started
Lives-unheard = and_then at_start refl (by_server (server_fails in_use refl))

unheard_cause : HasCause unheard
unfolding unheard started
unheard_cause = inr (in_use, refl)

unheard_running : unheard.terminated ≡ false
unfolding unheard started
unheard_running = refl

Lives-ends_example :
    (q : Process) × MainSteps unheard q
    × (q.terminated ≡ true)
    × (q.in_flight ≡ unheard.in_flight)
    × (q.shut_down ≡ unheard.shut_down)
Lives-ends_example = Lives-ends Lives-unheard unheard_cause unheard_running

Lives-undrained_example :
    (p : Process) × Lives p
    × (p.terminated ≡ true)
    × (p.shutting_down ≡ true)
    × (p.shut_down ≡ false)
    × (p.in_flight ≡ 2)
Lives-undrained_example = Lives-undrained 2

handle_all-Spaced_example :
    (handle_all log (new_sampler (pos 2)) [] ≡ write_all (sampled 2 [] log) [])
    × Spaced 2 (sampled 2 [] log)
handle_all-Spaced_example = handle_all-Spaced 2 log [] (omega arith)

abbrev environment : String → Option String
environment key =
    if key == "DONUT_TASK_TIMEOUT"
    then some "5s"
    else if key == "DONUT_MAX_CLIENTS"
    then some "many"
    else if key == "PORT"
    then some "80"
    else none

abbrev durations : String → Option ℕ
durations text = if text == "5s" then some (5 * second) else none

abbrev ints : String → Option ℕ
ints text = if text == "7" then some 7 else none

abbrev one_flag : Flags
one_flag = record {
  addr = none;
  task_timeout = none;
  broadcast_interval = none;
  first_broadcast_seconds = some 5;
  broadcast_seconds = none;
  client_count_interval = none;
  buffer_fullness_interval = none;
  shutdown_timeout = none;
  max_clients = none;
  log_level = none;
  log_sample_interval = none;
}

listens_on : default_addr environment ≡ ":80"
unfolding default_addr
listens_on = refl

wire-settings-IsWired_example :
    IsWired environment durations ints one_flag
      (wire idle_client (settings environment durations ints one_flag))
wire-settings-IsWired_example =
    wire-settings-IsWired environment durations ints idle_client one_flag
