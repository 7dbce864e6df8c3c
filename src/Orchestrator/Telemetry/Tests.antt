-- ===== src/Orchestrator/Telemetry/Tests.antt =====
-- A tick at a pool of clients.
use distributed_donut.Prelude.{ℕ, ◌≡◌, refl, List, [], ◌∷◌, some, if◌then◌else◌, ok, arith}
use distributed_donut.Buffer.{new_frame_buffer}
use distributed_donut.Client.{enqueue}
use distributed_donut.Client.Pool.{ClientPool, contains}
use distributed_donut.Client.Pool.Capacity.{IsValid}
use distributed_donut.Orchestrator.Pipeline.{idle_client}
use distributed_donut.Orchestrator.Telemetry.{client_count, tick_telemetry}
use distributed_donut.Orchestrator.Telemetry.Ticks.{
  message_type, decode, measure, tick_telemetry_lem,
}

abbrev pair : ClientPool
pair = record { store = idle_client; clients = 3 ∷ 5 ∷ []; max_clients = 10 }

pair-IsValid : IsValid pair
unfolding contains
pair-IsValid = record { once = (refl, (refl, tt)); capped = λ _. omega arith }

tick_telemetry_lem_example :
    (msg body : List ℕ) × (msg ≡ message_type client_count ∷ body)
    × (decode client_count body ≡ ok 2)
    × ((b : ℕ)
        → (tick_telemetry some new_frame_buffer client_count pair).store b
          ≡ (if contains pair.clients b then enqueue (idle_client b) msg else idle_client b))
    × ((tick_telemetry some new_frame_buffer client_count pair).clients ≡ pair.clients)
unfolding measure
tick_telemetry_lem_example =
    tick_telemetry_lem new_frame_buffer client_count pair pair-IsValid (omega arith)
