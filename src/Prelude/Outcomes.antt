-- ===== src/Prelude/Outcomes.antt =====
-- What a Go call ends in: a result, an error value, or a panic.
use Prim.Native.Nat.{ℕ}

-- the errors of the packages, by their messages
pub data Error : Type 0 where
  client_count_too_short : Error
  buffer_fullness_too_short : Error
  render_task_too_short : Error
  render_result_too_short : Error
  invalid_frame_batch_size : Error
  start_after_end : Error
  empty_message : Error
  too_few_frames : (have want : ℕ) → Error
  wrong_watermark : (frame got : ℕ) → Error
  timed_out_waiting : (want have : ℕ) → Error
  connection_closed : (have want : ℕ) → Error
  body_corrupted : (frame byte : ℕ) → Error

pub data Panic : Type 0 where
  out_of_range : Panic
  remove_too_many : Panic
  same_client : Panic
  close_of_closed : Panic
  close_of_nil : Panic

pub data Outcome {ℓ} (A : Type ℓ) : Type ℓ where
  ok : A → Outcome A
  err : Error → Outcome A
  panic : Panic → Outcome A

infixl 5 ◌>>=◌ ◌>>◌
abbrev pub ◌>>=◌ {ℓ κ} : {A : Type ℓ} {B : Type κ} → Outcome A → (A → Outcome B) → Outcome B
ok a >>= f = f a
err e >>= f = err e
panic p >>= f = panic p

abbrev pub ◌>>◌ {ℓ} : {B : Type ℓ} → Outcome (Unit {0}) → Outcome B → Outcome B
m >> k = m >>= λ _. k
