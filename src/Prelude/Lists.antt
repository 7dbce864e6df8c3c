-- ===== src/Prelude/Lists.antt =====
-- Lists measured and indexed by native numbers, under the library's names, and Go's slice operations.
use Prim.Native.Nat.{ℕ, zero, suc, ◌+◌, ◌-◌, ◌≤◌, ◌<◌, min}
use mathlib.Core.Path.{◌≡◌, refl, ap, ◌∙◌}
use mathlib.Core.List.{List, [], ◌∷◌, ◌++◌}
use native.Mathlib.Omega.{arith}

module _ {ℓ} {A : Type ℓ} where
  abbrev pub length : List A → ℕ
  length [] = 0
  length (x ∷ xs) = suc (length xs)

  unfoldable pub get_or : List A → ℕ → A → A
  get_or [] i d = d
  get_or (x ∷ xs) zero d = x
  get_or (x ∷ xs) (suc i) d = get_or xs i d

  unfoldable pub take : ℕ → List A → List A
  take zero xs = []
  take (suc n) [] = []
  take (suc n) (x ∷ xs) = x ∷ take n xs

  unfoldable pub drop : ℕ → List A → List A
  drop zero xs = xs
  drop (suc n) [] = []
  drop (suc n) (x ∷ xs) = drop n xs

  unfoldable pub replicate : ℕ → A → List A
  replicate zero a = []
  replicate (suc n) a = a ∷ replicate n a

  -- `copy(dst, src)`: the first min(len(dst), len(src)) entries of dst become those of src.
  unfoldable pub copy : List A → List A → List A
  copy dst [] = dst
  copy [] (s ∷ ss) = []
  copy (d ∷ ds) (s ∷ ss) = s ∷ copy ds ss

  -- `copy(dst[i:], src)`, for i up to len(dst)
  unfoldable pub copy_at : ℕ → List A → List A → List A
  unfolding copy
  copy_at zero dst src = copy dst src
  copy_at (suc i) [] src = []
  copy_at (suc i) (d ∷ ds) src = d ∷ copy_at i ds src

  pub length-append : (xs ys : List A) → length (xs ++ ys) ≡ length xs + length ys
  length-append [] ys = omega arith
  length-append (x ∷ xs) ys = omega (arith, length-append xs ys)

  pub length-replicate : (n : ℕ) (a : A) → length (replicate n a) ≡ n
  unfolding replicate
  length-replicate zero a = refl
  length-replicate (suc n) a = ap suc (length-replicate n a)

  pub length-take : (n : ℕ) (xs : List A) → length (take n xs) ≡ min n (length xs)
  unfolding take
  length-take zero xs = omega arith
  length-take (suc n) [] = omega arith
  length-take (suc n) (x ∷ xs) = omega (arith, length-take n xs)

  pub length-drop : (n : ℕ) (xs : List A) → length (drop n xs) ≡ length xs - n
  unfolding drop
  length-drop zero xs = omega arith
  length-drop (suc n) [] = omega arith
  length-drop (suc n) (x ∷ xs) = omega (arith, length-drop n xs)

  pub length-copy : (dst src : List A) → length (copy dst src) ≡ length dst
  unfolding copy
  length-copy dst [] = refl
  length-copy [] (s ∷ ss) = refl
  length-copy (d ∷ ds) (s ∷ ss) = ap suc (length-copy ds ss)

  -- A copy into fresh space of the same size is the source.
  pub copy-replicate : (xs : List A) (a : A) → copy (replicate (length xs) a) xs ≡ xs
  unfolding copy replicate
  copy-replicate [] a = refl
  copy-replicate (x ∷ xs) a = ap (◌∷◌ x) (copy-replicate xs a)

  pub take-append : (xs ys : List A) → take (length xs) (xs ++ ys) ≡ xs
  unfolding take
  take-append [] ys = refl
  take-append (x ∷ xs) ys = ap (◌∷◌ x) (take-append xs ys)

  pub drop-append : (xs ys : List A) → drop (length xs) (xs ++ ys) ≡ ys
  unfolding drop
  drop-append [] ys = refl
  drop-append (x ∷ xs) ys = drop-append xs ys

  pub take_of_length-le : (xs : List A) (k : ℕ) → length xs ≤ k → take k xs ≡ xs
  unfolding take
  take_of_length-le [] zero _ = refl
  take_of_length-le [] (suc k) _ = refl
  take_of_length-le (x ∷ xs) zero h = absurd (omega arith)
  take_of_length-le (x ∷ xs) (suc k) h =
      let rest = take_of_length-le xs k (omega arith) in λ i. x ∷ rest i

  pub take-append-drop : (n : ℕ) (xs : List A) → take n xs ++ drop n xs ≡ xs
  unfolding take drop
  take-append-drop zero xs = refl
  take-append-drop (suc n) [] = refl
  take-append-drop (suc n) (x ∷ xs) = ap (◌∷◌ x) (take-append-drop n xs)

  pub get_or-append_left :
      (xs ys : List A) (i : ℕ) (d : A) → i < length xs → get_or (xs ++ ys) i d ≡ get_or xs i d
  unfolding get_or
  get_or-append_left [] ys i d h = absurd (omega arith)
  get_or-append_left (x ∷ xs) ys zero d h = refl
  get_or-append_left (x ∷ xs) ys (suc i) d h = get_or-append_left xs ys i d (omega arith)

  pub get_or-append_right :
      (xs ys : List A) (i : ℕ) (d : A) → get_or (xs ++ ys) (length xs + i) d ≡ get_or ys i d
  unfolding get_or
  get_or-append_right [] ys i d = ap (λ k. get_or ys k d) (omega arith)
  get_or-append_right (x ∷ xs) ys i d =
      let e : suc (length xs) + i ≡ suc (length xs + i) = omega arith in
      ap (λ k. get_or (x ∷ (xs ++ ys)) k d) e ∙ get_or-append_right xs ys i d
