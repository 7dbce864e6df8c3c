-- ===== src/Buffer/Floats.antt =====
-- float64 as `timeToSleep` uses it: the operations are a parameter of the model. `IsMonotone` says what
-- IEEE 754 rounding and the library's functions are documented to keep, the order of their arguments.
use distributed_donut.Prelude.{ℕ, ◌≤◌}

pub record Float64 : Type 1 where
  pub F : Type 0
  pub of_uint64 : ℕ → F
  pub sub : F → F → F
  pub mul : F → F → F
  pub div : F → F → F
  -- math.Exp
  pub exp : F → F
  -- time.Duration.Seconds, and the conversion of nanoseconds back to a Duration
  pub seconds : ℕ → F
  pub to_duration : F → ℕ

pub record IsMonotone (fl : Float64) : Type 1 where
  pub Le : fl.F → fl.F → Type 0
  pub Positive : fl.F → Type 0
  pub of_uint64_mono : (a b : ℕ) → a ≤ b → Le (fl.of_uint64 a) (fl.of_uint64 b)
  pub sub_mono : (a b c : fl.F) → Le a b → Le (fl.sub a c) (fl.sub b c)
  pub sub_anti : (a b c : fl.F) → Le a b → Le (fl.sub c b) (fl.sub c a)
  pub mul_mono : (a b c : fl.F) → Positive c → Le a b → Le (fl.mul c a) (fl.mul c b)
  pub div_mono : (a b c : fl.F) → Positive c → Le a b → Le (fl.div a c) (fl.div b c)
  pub exp_mono : (a b : fl.F) → Le a b → Le (fl.exp a) (fl.exp b)
  pub to_duration_mono : (a b : fl.F) → Le a b → fl.to_duration a ≤ fl.to_duration b
  pub of_uint64_pos : (n : ℕ) → 1 ≤ n → Positive (fl.of_uint64 n)
  pub seconds_pos : (n : ℕ) → 1 ≤ n → Positive (fl.seconds n)
  pub exp_two_pos : Positive (fl.sub (fl.exp (fl.of_uint64 2)) (fl.of_uint64 1))
