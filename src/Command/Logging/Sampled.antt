-- ===== src/Command/Logging/Sampled.antt =====
-- Which records the sampling handler lets through, described by what it let through before. The handlers
-- that WithAttrs and WithGroup derive have each a base of their own and share the sampler.
use distributed_donut.Prelude.{
  ℕ, zero, suc, ◌+◌, ◌≤◌, List, [], ◌∷◌, Option, none, some, Bool, true, false, not, ◌&&◌, ◌||◌,
  if◌then◌else◌, leb, leb-false, ◌≡◌, refl, arith, Error, Bool-cases, inl, inr, sym, subst,
}
use distributed_donut.Command.Logging.{
  ℤ, pos, negsuc, leb_int, since, level_debug, Record, Sampler, lately, allow, handle, new_sampler,
}
use Prim.Native.String.{String}
use text.Mathlib.Text.{◌==◌}
use text.Mathlib.TextEquality.{eq_iff}

-- One record on its way to the handler that stands on `base`.
pub record Call {ℓ} (Output : Type ℓ) : Type ℓ where
  pub base : Record → Output → Option Error × Output
  pub entry : Record
  pub now : ℕ

unfoldable pub magnitude : ℤ → ℕ
magnitude (pos d) = d
magnitude (negsuc d) = 0

-- Nothing among what was let through, with its times, is this message less than `d` before `now`.
unfoldable pub fresh : ℕ → List (String × ℕ) → String → ℕ → Bool
fresh d [] msg now = true
fresh d ((m, t) ∷ seen) msg now = (not (msg == m) || leb (t + d) now) && fresh d seen msg now

module _ {ℓ} {Output : Type ℓ} where
  -- The calls that are let through after `seen` was.
  unfoldable pub sampled : ℕ → List (String × ℕ) → List (Call Output) → List (Call Output)
  sampled d seen [] = []
  sampled d seen (c ∷ calls) =
      if leb_int c.entry.level level_debug
      then (if fresh d seen c.entry.message c.now
          then c ∷ sampled d ((c.entry.message, c.now) ∷ seen) calls
          else sampled d seen calls)
      else c ∷ sampled d seen calls

  -- The base handlers write these calls' records.
  unfoldable pub write_all : List (Call Output) → Output → Output
  write_all [] out = out
  write_all (c ∷ calls) out = write_all calls (c.base c.entry out).1

  -- The handlers take these calls, one after the other.
  unfoldable pub handle_all : List (Call Output) → Sampler → Output → Output
  unfolding handle
  handle_all [] s out = out
  handle_all (c ∷ calls) s out =
      let (e, s', out') = handle c.base c.entry c.now s out in handle_all calls s' out'

fresh_mono :
    (d : ℕ) (seen : List (String × ℕ)) (msg : String) {t now : ℕ}
    → t ≤ now
    → fresh d seen msg t ≡ true
    → fresh d seen msg now ≡ true
unfolding fresh
fresh_mono d [] msg h e = refl
fresh_mono d ((m, u) ∷ seen) msg {t} {now} h e = ground (arith, fresh_mono d seen msg h)

-- An interval has passed since `t`, in the code's arithmetic on signed durations.
not_less : (d t now : ℕ) → leb_int (pos (suc d)) (since now t) ≡ leb (t + (suc d)) now
unfolding leb_int since
not_less d t now = elim (Bool-cases (leb t now)) [
  | inl h ↦ ground (arith, h)
  | inr h ↦ ground (arith, h)
]

-- One message more is remembered: `b` tells whether it is the one that is asked for.
lately-insert :
    (d now u : ℕ) (last : Option ℕ) (b f : Bool)
    → lately (pos (suc d)) u last ≡ not f
    → (b ≡ true → leb (now + (suc d)) u ≡ true → f ≡ true)
    → lately (pos (suc d)) u (if b then some now else last)
      ≡ not ((not b || leb (now + (suc d)) u) && f)
unfolding lately
lately-insert d now u last true f h h' = ground (arith, h', not_less d now u)
lately-insert d now u last false f h h' = h

-- What the sampler remembers is what was let through.
Remembers : ℕ → List (String × ℕ) → Sampler → Type 0
Remembers d seen s =
    (s.interval ≡ pos (suc d))
    × ((msg : String) (now : ℕ)
        → lately s.interval now (s.last msg) ≡ not (fresh (suc d) seen msg now))

new_sampler-Remembers : (d : ℕ) → Remembers d [] (new_sampler (pos (suc d)))
unfolding Remembers fresh new_sampler lately
new_sampler-Remembers d = (refl, λ msg now. refl)

remembered :
    (d : ℕ) (seen : List (String × ℕ)) (s : Sampler) (msg : String) (now : ℕ)
    → Remembers d seen s
    → fresh (suc d) seen msg now ≡ true
    → Remembers d
        ((msg, now) ∷ seen)
        (record s { last = λ m. if m == msg then some now else s.last m })
unfolding Remembers fresh
remembered d seen s msg now (e, r) h = (
  e,
  λ m u.
      let last = s.last m in
      subst
        (λ i.
          lately i u (if m == msg then some now else last)
          ≡ not ((not (m == msg) || leb (now + (suc d)) u) && fresh (suc d) seen m u))
        (sym e)
        (lately-insert d now u last (m == msg) (fresh (suc d) seen m u)
          (subst (λ i. lately i u last ≡ not (fresh (suc d) seen m u)) e (r m u))
          (λ same later.
            fresh_mono (suc d) seen m (ground (arith, later))
              (subst (λ n. fresh (suc d) seen n now ≡ true) (sym ((eq_iff m msg).0 same)) h))),
)

interval_pos : (d : ℕ) (i : ℤ) → i ≡ pos (suc d) → leb_int i (pos 0) ≡ false
unfolding leb_int
interval_pos d i e = rw e (ground arith)

if_not : {A : Type 0} (x y : A) (b : Bool) → (if not b then x else y) ≡ (if b then y else x)
if_not x y true = refl
if_not x y false = refl

-- `allow` lets a message through exactly when it is fresh, and then remembers it.
allow-Remembers :
    (d : ℕ) (seen : List (String × ℕ)) (s : Sampler) (msg : String) (now : ℕ)
    → Remembers d seen s
    → allow s msg now ≡ (
        if fresh (suc d) seen msg now
        then (true, record s { last = λ m. if m == msg then some now else s.last m })
        else (false, s))
unfolding allow Remembers
allow-Remembers d seen s msg now (e, r) =
    rw (interval_pos d s.interval e, r msg now) (if_not _ _ (fresh (suc d) seen msg now))

module _ {ℓ} {Output : Type ℓ} where
  handle_eq :
      (base : Record → Output → Option Error × Output) (r : Record) (now : ℕ) (s : Sampler)
      (out : Output)
      → handle base r now s out ≡ (
          if leb_int r.level level_debug
          then (if (allow s r.message now).0
              then ((base r out).0, (allow s r.message now).1, (base r out).1)
              else (none, (allow s r.message now).1, out))
          else ((base r out).0, s, (base r out).1))
  unfolding handle
  handle_eq base r now s out = refl

  handle_all-Remembers :
      (d : ℕ) (calls : List (Call Output)) (seen : List (String × ℕ)) (s : Sampler) (out : Output)
      → Remembers d seen s
      → handle_all calls s out ≡ write_all (sampled (suc d) seen calls) out
  unfolding handle_all handle allow sampled write_all
  handle_all-Remembers d [] seen s out r = refl
  handle_all-Remembers d (c ∷ calls) seen s out r =
      elim (Bool-cases (leb_int c.entry.level level_debug)) [
        | inl debug ↦ elim (Bool-cases (fresh (suc d) seen c.entry.message c.now)) [
          | inl h ↦
              rw
                (
                  handle_eq c.base c.entry c.now s out,
                  debug,
                  allow-Remembers d seen s c.entry.message c.now r,
                  h,
                )
                (handle_all-Remembers d calls _ _ _ (remembered d seen s c.entry.message c.now r h))
          | inr h ↦
              rw
                (
                  handle_eq c.base c.entry c.now s out,
                  debug,
                  allow-Remembers d seen s c.entry.message c.now r,
                  h,
                )
                (handle_all-Remembers d calls seen s out r)
        ]
        | inr above ↦
            rw (handle_eq c.base c.entry c.now s out, above)
              (handle_all-Remembers d calls seen s _ r)
      ]

  handle_all-disabled :
      (calls : List (Call Output)) (s : Sampler) (out : Output)
      → leb_int s.interval (pos 0) ≡ true
      → handle_all calls s out ≡ write_all calls out
  unfolding handle_all handle allow write_all
  handle_all-disabled [] s out h = refl
  handle_all-disabled (c ∷ calls) s out h = elim (Bool-cases (leb_int c.entry.level level_debug)) [
    | inl debug ↦
        rw (handle_eq c.base c.entry c.now s out, debug, allow, h) (handle_all-disabled calls s _ h)
    | inr above ↦ rw (handle_eq c.base c.entry c.now s out, above) (handle_all-disabled calls s _ h)
  ]

  pub handle_all-enabled :
      (d : ℕ) (calls : List (Call Output)) (out : Output)
      → handle_all calls (new_sampler (pos (suc d))) out ≡ write_all (sampled (suc d) [] calls) out
  handle_all-enabled d calls out = handle_all-Remembers d calls [] _ out (new_sampler-Remembers d)

  -- With a positive interval the handlers write every record above the level debug, and of the debug
  -- records those whose message was not written less than an interval before; with an interval of at most
  -- nothing they write all. That is so for any bases, any times and any order of the calls.
  pub handle_all-new_sampler :
      (interval : ℤ) (calls : List (Call Output)) (out : Output)
      → handle_all calls (new_sampler interval) out
        ≡ write_all
            (if leb_int interval (pos 0) then calls else sampled (magnitude interval) [] calls)
            out
  unfolding leb_int magnitude new_sampler
  handle_all-new_sampler (pos zero) calls out = handle_all-disabled calls _ out refl
  handle_all-new_sampler (pos (suc d)) calls out =
      rw (leb-false (suc d) 0 (omega arith)) (handle_all-enabled d calls out)
  handle_all-new_sampler (negsuc n) calls out = handle_all-disabled calls _ out refl
