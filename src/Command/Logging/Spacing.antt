-- ===== src/Command/Logging/Spacing.antt =====
-- The debug records that the sampling handler writes are an interval apart.
use distributed_donut.Prelude.{
  ℕ, zero, suc, ◌+◌, ◌≤◌, ◌<◌, List, [], ◌∷◌, true, ◌≡◌, arith, Bool-cases, inl, inr, subst,
}
use distributed_donut.Command.Logging.{pos, leb_int, level_debug, new_sampler}
use distributed_donut.Command.Logging.Sampled.{
  Call, fresh, sampled, write_all, handle_all, handle_all-enabled,
}
use Prim.Native.String.{String}
use text.Mathlib.TextPositions.{eq_refl}

fresh_before :
    (d : ℕ) (seen : List (String × ℕ)) (m n : String) (t now : ℕ)
    → fresh d ((n, t) ∷ seen) m now ≡ true
    → fresh d seen m now ≡ true
unfolding fresh
fresh_before d seen m n t now h = ground arith

fresh_now :
    (d : ℕ) (seen : List (String × ℕ)) (m : String) (t now : ℕ)
    → fresh d ((m, t) ∷ seen) m now ≡ true
    → t + d ≤ now
unfolding fresh
fresh_now d seen m t now h = ground (arith, eq_refl m)

module _ {ℓ} {Output : Type ℓ} where
  -- No debug record of the message `m` among these is less than `d` after `t`.
  unfoldable pub Apart : ℕ → String → ℕ → List (Call Output) → Type 0
  Apart d m t [] = Unit
  Apart d m t (c ∷ calls) =
      (leb_int c.entry.level level_debug ≡ true → c.entry.message ≡ m → t + d ≤ c.now)
      × Apart d m t calls

  -- Any two debug records of the same message are at least `d` apart.
  unfoldable pub Spaced : ℕ → List (Call Output) → Type 0
  unfolding Apart
  Spaced d [] = Unit
  Spaced d (c ∷ calls) =
      (leb_int c.entry.level level_debug ≡ true → Apart d c.entry.message c.now calls)
      × Spaced d calls

  sampled-Apart :
      (d : ℕ) (m : String) (t : ℕ) (calls : List (Call Output)) (seen : List (String × ℕ))
      → ((now : ℕ) → fresh d seen m now ≡ true → t + d ≤ now)
      → Apart d m t (sampled d seen calls)
  unfolding sampled Apart
  sampled-Apart d m t [] seen h = tt
  sampled-Apart d m t (c ∷ calls) seen h = elim (Bool-cases (leb_int c.entry.level level_debug)) [
    | inl debug ↦ elim (Bool-cases (fresh d seen c.entry.message c.now)) [
      | inl f ↦
          rw (debug, f)
            (
              (λ _ same. h c.now (subst (λ n. fresh d seen n c.now ≡ true) same f)),
              sampled-Apart d m t calls ((c.entry.message, c.now) ∷ seen)
                  (λ now g. h now (fresh_before d seen m c.entry.message c.now now g)),
            )
      | inr f ↦ rw (debug, f) (sampled-Apart d m t calls seen h)
    ]
    | inr above ↦
        rw above
          ((λ debug. absurd (ground (arith, above, debug))), sampled-Apart d m t calls seen h)
  ]

  sampled-Spaced :
      (d : ℕ) (calls : List (Call Output)) (seen : List (String × ℕ))
      → Spaced d (sampled d seen calls)
  unfolding sampled Spaced
  sampled-Spaced d [] seen = tt
  sampled-Spaced d (c ∷ calls) seen = elim (Bool-cases (leb_int c.entry.level level_debug)) [
    | inl debug ↦ elim (Bool-cases (fresh d seen c.entry.message c.now)) [
      | inl f ↦
          rw (debug, f)
            (
              (λ _.
                  sampled-Apart d c.entry.message c.now calls ((c.entry.message, c.now) ∷ seen)
                    (λ now. fresh_now d seen c.entry.message c.now now)),
              sampled-Spaced d calls ((c.entry.message, c.now) ∷ seen),
            )
      | inr f ↦ rw (debug, f) (sampled-Spaced d calls seen)
    ]
    | inr above ↦
        rw above ((λ debug. absurd (ground (arith, above, debug))), sampled-Spaced d calls seen)
  ]

  -- With a positive interval, the records that the handlers write are those of the calls that are sampled,
  -- and any two of these, if both are debug records of the same message, are at least an interval apart.
  pub handle_all-Spaced :
      (d : ℕ) (calls : List (Call Output)) (out : Output)
      → 0 < d
      → (handle_all calls (new_sampler (pos d)) out ≡ write_all (sampled d [] calls) out)
        × Spaced d (sampled d [] calls)
  handle_all-Spaced zero calls out h = absurd (omega arith)
  handle_all-Spaced (suc d) calls out h =
      (handle_all-enabled d calls out, sampled-Spaced (suc d) calls [])
