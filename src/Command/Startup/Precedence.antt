-- ===== src/Command/Startup/Precedence.antt =====
-- Flags go before the environment, and the environment before the defaults.
use distributed_donut.Prelude.{
  ℕ, Option, none, some, Option-cases, Bool-cases, ◌≡◌, refl, ◌≢◌, ◌⊎◌, inl, inr, true, false,
  arith, sym, ap, ◌∙◌,
}
use distributed_donut.Client.{Client}
use distributed_donut.Client.Pool.{new_client_pool, default_max_clients}
use distributed_donut.Orchestrator.{
  default_config, with_task_timeout, with_broadcast_interval, with_broadcast_thresholds,
  with_client_count_interval, with_buffer_fullness_interval, apply_options, configure,
}
use distributed_donut.Command.Startup.{
  Flags, flag_value, non_empty_env, env_value, settings, orchestrator_options, Wiring, wire,
}
use Prim.Native.String.{String}
use text.Mathlib.Text.{◌==◌}
use text.Mathlib.TextEquality.{eq_iff}

-- `v` is the flag's value if it is given, or else what the variable's text parses to, or, if the variable is
-- unset, empty or malformed, the default.
unfoldable IsResolved :
    (lookup_env : String → Option String) (parse : String → Option ℕ)
    → Option ℕ
    → String
    → (default v : ℕ) → Type 0
IsResolved lookup_env parse flag key default v =
    (flag ≡ some v)
    ⊎ ((flag ≡ none)
        × (((text : String) × (lookup_env key ≡ some text) × (text ≢ "") × (parse text ≡ some v))
            ⊎ ((v ≡ default)
                × ((text : String) → lookup_env key ≡ some text → text ≢ "" → parse text ≡ none))))

module _ (lookup_env : String → Option String) (parse : String → Option ℕ) where
  env_value-unset :
      (key : String) (default : ℕ)
      → lookup_env key ≡ none
      → env_value lookup_env parse key default ≡ default
  unfolding env_value non_empty_env
  env_value-unset key default e = rw (env_value, non_empty_env, e)

  env_value-empty :
      (key text : String) (default : ℕ)
      → lookup_env key ≡ some text
      → (text == "") ≡ true
      → env_value lookup_env parse key default ≡ default
  unfolding env_value non_empty_env
  env_value-empty key text default e h = rw (env_value, non_empty_env, e, h)

  env_value-text :
      (key text : String) (default : ℕ) (parsed : Option ℕ)
      → lookup_env key ≡ some text
      → (text == "") ≡ false
      → parse text ≡ parsed
      → env_value lookup_env parse key default ≡ flag_value parsed default
  unfolding env_value non_empty_env flag_value
  env_value-text key text default none e h p = rw (env_value, non_empty_env, e, h, p)
  env_value-text key text default (some v) e h p = rw (env_value, non_empty_env, e, h, p)

  flag_value-IsResolved :
      (flag : Option ℕ) (key : String) (default : ℕ)
      → IsResolved lookup_env parse flag key default
          (flag_value flag (env_value lookup_env parse key default))
  unfolding IsResolved flag_value env_value non_empty_env
  flag_value-IsResolved (some v) key default = inl refl
  flag_value-IsResolved none key default = inr (
    refl,
    elim (Option-cases (lookup_env key)) [
      | inl unset ↦
          inr (env_value-unset key default unset, λ text e. absurd (ground (arith, e, unset)))
      | inr (text, e) ↦ elim (Bool-cases (text == "")) [
        | inl empty ↦ inr (
          env_value-empty key text default e empty,
          λ t f n. absurd (ground (arith, e, f, n, empty, eq_iff text "")),
        )
        | inr h ↦ elim (Option-cases (parse text)) [
          | inl bad ↦
              inr
                (env_value-text key text default none e h bad, λ t f n. ap parse (cc (e, f)) ∙ bad)
          | inr (v, good) ↦ inl (
            text,
            e,
            (λ same. absurd (ground (arith, h, same, eq_iff text ""))),
            good ∙ ap some (sym (env_value-text key text default (some v) e h good)),
          )
        ]
      ]
    ],
  )

module _ (lookup_env : String → Option String) (parse_duration parse_int : String → Option ℕ) where
  -- Where the numbers that the orchestrator and the pool are made from come from.
  unfoldable pub IsWired : Flags → Wiring → Type 0
  unfolding IsResolved
  IsWired flags w =
      let duration = IsResolved lookup_env parse_duration in
      let int = IsResolved lookup_env parse_int in
      let def = default_config in
      duration flags.task_timeout "DONUT_TASK_TIMEOUT" def.task_timeout w.config.task_timeout
      × duration flags.broadcast_interval "DONUT_BROADCAST_INTERVAL" def.broadcast_interval
          w.config.broadcast_interval
      × int flags.first_broadcast_seconds "DONUT_FIRST_BROADCAST_SECONDS"
          def.first_seconds_to_broadcast w.config.first_seconds_to_broadcast
      × int flags.broadcast_seconds "DONUT_BROADCAST_SECONDS" def.seconds_to_broadcast
          w.config.seconds_to_broadcast
      × duration flags.client_count_interval "DONUT_CLIENT_COUNT_INTERVAL" def.client_count_interval
          w.config.client_count_interval
      × duration flags.buffer_fullness_interval "DONUT_BUFFER_FULLNESS_INTERVAL"
          def.buffer_fullness_interval w.config.buffer_fullness_interval
      × int flags.max_clients "DONUT_MAX_CLIENTS" default_max_clients w.pool.max_clients

  -- Each number that `main` hands on, to the orchestrator and to the pool, is its flag's if it is given, or
  -- else what its variable parses to, or, if that is unset, empty or malformed, the orchestrator's and the
  -- pool's own default.
  pub wire-settings-IsWired :
      (store : ℕ → Client) (flags : Flags)
      → IsWired flags (wire store (settings lookup_env parse_duration parse_int flags))
  unfolding IsWired settings wire configure apply_options orchestrator_options with_task_timeout
      with_broadcast_interval with_broadcast_thresholds with_client_count_interval
      with_buffer_fullness_interval new_client_pool
  wire-settings-IsWired store flags = (
    flag_value-IsResolved lookup_env parse_duration flags.task_timeout _ _,
    flag_value-IsResolved lookup_env parse_duration flags.broadcast_interval _ _,
    flag_value-IsResolved lookup_env parse_int flags.first_broadcast_seconds _ _,
    flag_value-IsResolved lookup_env parse_int flags.broadcast_seconds _ _,
    flag_value-IsResolved lookup_env parse_duration flags.client_count_interval _ _,
    flag_value-IsResolved lookup_env parse_duration flags.buffer_fullness_interval _ _,
    flag_value-IsResolved lookup_env parse_int flags.max_clients _ _,
  )
