-- ===== src/Orchestrator.antt =====
-- internal/orchestrator/orchestrator.go: the configuration, and the loops that share the buffer, the
-- batch map and the clients (`Pipeline`). Durations are nanoseconds.
pub mod BatchMap
pub mod Pipeline
pub mod Telemetry
use distributed_donut.Prelude.{ℕ, ◌*◌, List, [], ◌∷◌}

pub record Config : Type 0 where
  pub first_seconds_to_broadcast : ℕ
  pub seconds_to_broadcast : ℕ
  pub broadcast_interval : ℕ
  pub task_timeout : ℕ
  pub client_count_interval : ℕ
  pub buffer_fullness_interval : ℕ

abbrev pub second : ℕ
second = 1_000_000_000

abbrev pub default_config : Config
default_config = record {
  first_seconds_to_broadcast = 6;
  seconds_to_broadcast = 4;
  broadcast_interval = 4 * second;
  task_timeout = 2 * second;
  client_count_interval = 2 * second;
  buffer_fullness_interval = 2 * second;
}

abbrev pub ConfigOption : Type 0
ConfigOption = Config → Config

unfoldable pub with_task_timeout : ℕ → ConfigOption
with_task_timeout d c = record c { task_timeout = d }

unfoldable pub with_broadcast_interval : ℕ → ConfigOption
with_broadcast_interval d c = record c { broadcast_interval = d }

unfoldable pub with_broadcast_thresholds : ℕ → ℕ → ConfigOption
with_broadcast_thresholds first subsequent c = record c {
  first_seconds_to_broadcast = first;
  seconds_to_broadcast = subsequent;
}

unfoldable pub with_client_count_interval : ℕ → ConfigOption
with_client_count_interval d c = record c { client_count_interval = d }

unfoldable pub with_buffer_fullness_interval : ℕ → ConfigOption
with_buffer_fullness_interval d c = record c { buffer_fullness_interval = d }

-- the loop over the options in `New`
unfoldable pub apply_options : List ConfigOption → ConfigOption
apply_options [] cfg = cfg
apply_options (opt ∷ opts) cfg = apply_options opts (opt cfg)

-- the configuration that `New` gives the orchestrator
unfoldable pub configure : List ConfigOption → Config
unfolding apply_options
configure opts = apply_options opts default_config
