-- ===== src/Command/Logging.antt =====
-- cmd/donut-server/logging.go: the handler that samples debug records. A time is the monotonic clock's
-- reading in nanoseconds, and any two are less than 2^63 apart, so `Sub` does not saturate. The map of the
-- last times is a function. slog's own handlers are given: a base handler writes a record to an output.
pub mod Derived
pub mod Level
pub mod Sampled
pub mod Spacing
use distributed_donut.Prelude.{
  ℕ, ◌-◌, Option, none, some, Bool, true, false, if◌then◌else◌, ltb, leb, not, Error,
}
use Prim.Native.String.{String}
use text.Mathlib.Text.{◌==◌}

pub data ℤ : Type 0 where
  pos : (n : ℕ) → ℤ
  negsuc : (n : ℕ) → ℤ

-- Go's <= on int
unfoldable pub leb_int : ℤ → ℤ → Bool
leb_int (pos a) (pos b) = leb a b
leb_int (pos a) (negsuc b) = false
leb_int (negsuc a) (pos b) = true
leb_int (negsuc a) (negsuc b) = leb b a

-- `now.Sub(t)`
unfoldable pub since : ℕ → ℕ → ℤ
since now t = if leb t now then pos (now - t) else negsuc (t - now - 1)

-- slog.LevelDebug
abbrev pub level_debug : ℤ
level_debug = negsuc 3

pub record Record : Type 0 where
  pub level : ℤ
  pub message : String

pub record Sampler : Type 0 where
  pub interval : ℤ
  pub last : String → Option ℕ

-- the test under the lock, of the time that the map has for the message: it is less than an interval ago
unfoldable pub lately : ℤ → ℕ → Option ℕ → Bool
unfolding leb_int since
lately interval now none = false
lately interval now (some t) = not (leb_int interval (since now t))

-- `allow` at the time `now`
unfoldable pub allow : Sampler → String → ℕ → Bool × Sampler
unfolding lately leb_int
allow s msg now =
    if leb_int s.interval (pos 0)
    then (true, s)
    else if lately s.interval now (s.last msg)
    then (false, s)
    else (true, record s { last = λ m. if m == msg then some now else s.last m })

module _ {ℓ} {Output : Type ℓ} where
  -- `Handle` of the handler that stands on `base`
  unfoldable pub handle :
      (base : Record → Output → Option Error × Output)
      → Record
      → ℕ
      → Sampler
      → Output
      → Option Error × Sampler × Output
  unfolding leb_int allow
  handle base r now s out =
      if leb_int r.level level_debug
      then (let (allowed, s') = allow s r.message now in
          if allowed then (let (e, out') = base r out in (e, s', out')) else (none, s', out))
      else (let (e, out') = base r out in (e, s, out'))

-- the sampler that `newLogger` makes
unfoldable pub new_sampler : ℤ → Sampler
new_sampler interval = record { interval = interval; last = λ _. none }
