-- ===== src/Command/Startup.antt =====
-- cmd/donut-server/main.go: the settings of the process. An int or a Duration is a 64-bit word.
-- `lookup_env` is os.LookupEnv, `parse_duration` and `parse_int` are time.ParseDuration and strconv.Atoi,
-- `none` where these return an error, and what the flag package read from the command line is a record with
-- `none` for a flag that is not given.
pub mod Precedence
use distributed_donut.Prelude.{
  ℕ, ◌*◌, ◌-◌, ◌^◌, List, [], ◌∷◌, Option, none, some, Bool, if◌then◌else◌, ltb,
}
use distributed_donut.Client.{Client}
use distributed_donut.Client.Pool.{ClientPool, new_client_pool, default_max_clients}
use distributed_donut.Orchestrator.{
  Config, second, default_config, ConfigOption, with_task_timeout, with_broadcast_interval,
  with_broadcast_thresholds, with_client_count_interval, with_buffer_fullness_interval, configure,
}
use distributed_donut.Command.Logging.{ℤ, pos, negsuc, Sampler, new_sampler}
use Prim.Native.String
use Prim.Native.String.{String}
use text.Mathlib.Text.{◌==◌}

pub record Flags : Type 0 where
  pub addr : Option String
  pub task_timeout : Option ℕ
  pub broadcast_interval : Option ℕ
  pub first_broadcast_seconds : Option ℕ
  pub broadcast_seconds : Option ℕ
  pub client_count_interval : Option ℕ
  pub buffer_fullness_interval : Option ℕ
  pub shutdown_timeout : Option ℕ
  pub max_clients : Option ℕ
  pub log_level : Option String
  pub log_sample_interval : Option ℕ

pub record Settings : Type 0 where
  pub addr : String
  pub task_timeout : ℕ
  pub broadcast_interval : ℕ
  pub first_broadcast_seconds : ℕ
  pub broadcast_seconds : ℕ
  pub client_count_interval : ℕ
  pub buffer_fullness_interval : ℕ
  pub shutdown_timeout : ℕ
  pub max_clients : ℕ
  pub log_level : String
  pub log_sample_interval : ℕ

-- the value of a flag, of what is given and its default
unfoldable pub flag_value {ℓ} : {A : Type ℓ} → Option A → A → A
flag_value none def = def
flag_value (some v) def = v

module _ (lookup_env : String → Option String) where
  -- `v, ok := os.LookupEnv(key); ok && v != ""`
  unfoldable pub non_empty_env : String → Option String
  non_empty_env key = elim (lookup_env key) [
    | none ↦ none
    | some v ↦ if v == "" then none else some v
  ]

  unfoldable pub default_addr : String
  unfolding non_empty_env
  default_addr = elim (non_empty_env "DONUT_ADDR") [
    | some addr ↦ addr
    | none ↦ elim (non_empty_env "PORT") [ some port ↦ String.◌++◌ ":" port | none ↦ ":8080" ]
  ]

  unfoldable env_string : String → String → String
  unfolding non_empty_env
  env_string key def = elim (non_empty_env key) [ none ↦ def | some v ↦ v ]

  -- what `envDuration` and `envInt` have in common: they differ in how they parse
  unfoldable pub env_value {ℓ} : {A : Type ℓ} → (String → Option A) → String → A → A
  unfolding non_empty_env
  env_value parse key def = elim (non_empty_env key) [
    | none ↦ def
    | some v ↦ elim (parse v) [ none ↦ def | some n ↦ n ]
  ]

  module _ (parse_duration parse_int : String → Option ℕ) where
    unfoldable env_duration : String → ℕ → ℕ
    unfolding env_value
    env_duration = env_value parse_duration

    unfoldable env_int : String → ℕ → ℕ
    unfolding env_value
    env_int = env_value parse_int

    unfoldable pub settings : Flags → Settings
    unfolding flag_value default_addr env_string env_duration env_int
    settings flags =
        let def = default_config in
        record {
          addr = flag_value flags.addr default_addr;
          task_timeout =
              flag_value flags.task_timeout (env_duration "DONUT_TASK_TIMEOUT" def.task_timeout);
          broadcast_interval =
              flag_value flags.broadcast_interval
                (env_duration "DONUT_BROADCAST_INTERVAL" def.broadcast_interval);
          first_broadcast_seconds =
              flag_value flags.first_broadcast_seconds
                (env_int "DONUT_FIRST_BROADCAST_SECONDS" def.first_seconds_to_broadcast);
          broadcast_seconds =
              flag_value flags.broadcast_seconds
                (env_int "DONUT_BROADCAST_SECONDS" def.seconds_to_broadcast);
          client_count_interval =
              flag_value flags.client_count_interval
                (env_duration "DONUT_CLIENT_COUNT_INTERVAL" def.client_count_interval);
          buffer_fullness_interval =
              flag_value flags.buffer_fullness_interval
                (env_duration "DONUT_BUFFER_FULLNESS_INTERVAL" def.buffer_fullness_interval);
          shutdown_timeout =
              flag_value flags.shutdown_timeout
                (env_duration "DONUT_SHUTDOWN_TIMEOUT" (10 * second));
          max_clients =
              flag_value flags.max_clients (env_int "DONUT_MAX_CLIENTS" default_max_clients);
          log_level = flag_value flags.log_level (env_string "DONUT_LOG_LEVEL" "info");
          log_sample_interval =
              flag_value flags.log_sample_interval
                (env_duration "DONUT_LOG_SAMPLE_INTERVAL" (2 * second));
        }

-- the options that the orchestrator is given
unfoldable pub orchestrator_options : Settings → List ConfigOption
unfolding with_task_timeout with_broadcast_interval with_broadcast_thresholds
    with_client_count_interval with_buffer_fullness_interval
orchestrator_options s =
    with_task_timeout s.task_timeout
    ∷ with_broadcast_interval s.broadcast_interval
    ∷ with_broadcast_thresholds s.first_broadcast_seconds s.broadcast_seconds
    ∷ with_client_count_interval s.client_count_interval
    ∷ with_buffer_fullness_interval s.buffer_fullness_interval
    ∷ []

-- the signed value of a word
unfoldable to_int : ℕ → ℤ
to_int w = if ltb w (2 ^ 63) then pos w else negsuc (2 ^ 64 - 1 - w)

-- What `main` builds from its settings: the orchestrator's configuration, the pool and the sampler.
pub record Wiring : Type 0 where
  pub config : Config
  pub pool : ClientPool
  pub sampler : Sampler

unfoldable pub wire : (ℕ → Client) → Settings → Wiring
unfolding configure orchestrator_options new_client_pool new_sampler to_int
wire store s = record {
  config = configure (orchestrator_options s);
  pool = new_client_pool store s.max_clients;
  sampler = new_sampler (to_int s.log_sample_interval);
}
