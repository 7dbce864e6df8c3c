-- ===== src/Buffer/Ring/Window.antt =====
-- Laws of `window`: its length, its parts, and how it depends on the memory.
use distributed_donut.Prelude.{
  ℕ, zero, suc, ◌+◌, ◌-◌, ◌*◌, ◌%◌, ◌≤◌, ◌<◌, ◌≡◌, refl, ap, ap₂, List, [], ◌∷◌, ◌++◌, length,
  get_or, arith, take, drop,
}
use distributed_donut.Buffer.{buffer_size, read}
use distributed_donut.Buffer.Ring.Defs.{window}

module _ (mem : ℕ → ℕ) where
  pub window-zero : (p : ℕ) → window mem p 0 ≡ []
  unfolding window
  window-zero p = refl

  pub length-window : (p n : ℕ) → length (window mem p n) ≡ n
  unfolding window
  length-window p zero = refl
  length-window p (suc n) = ap suc (length-window (p + 1) n)

  pub window-add : (p m n : ℕ) → window mem p (m + n) ≡ window mem p m ++ window mem (p + m) n
  unfolding window
  window-add p zero n =
      let e : 0 + n ≡ n = omega arith in let f : p + 0 ≡ p = omega arith in rw (e, f)
  window-add p (suc m) n =
      let e : suc m + n ≡ suc (m + n) = omega arith in
      let f : p + suc m ≡ p + 1 + m = omega arith in
      rw (e, f) (ap (λ (t : List ℕ). mem (p % buffer_size) ∷ t) (window-add (p + 1) m n))

  -- Inside one turn of the ring a window is a plain slice of the array.
  pub read-eq-window :
      (q lo p n : ℕ)
      → p ≡ q * buffer_size + lo
      → lo + n ≤ buffer_size
      → read mem lo n ≡ window mem p n
  unfolding read window
  read-eq-window q lo p zero e h = refl
  read-eq-window q lo p (suc n) e h =
      ap₂ ◌∷◌ (ap mem (omega arith))
        (read-eq-window q (lo + 1) (p + 1) n (omega arith) (omega arith))

  pub take-window : (p m n : ℕ) → m ≤ n → take m (window mem p n) ≡ window mem p m
  unfolding window take
  take-window p zero n h = refl
  take-window p (suc m) zero h = absurd (omega arith)
  take-window p (suc m) (suc n) h =
      ap (λ (t : List ℕ). mem (p % buffer_size) ∷ t) (take-window (p + 1) m n (omega arith))

  pub drop-window : (p m n : ℕ) → m ≤ n → drop m (window mem p n) ≡ window mem (p + m) (n - m)
  unfolding window drop
  drop-window p zero n h =
      let e : p + 0 ≡ p = omega arith in let f : n - 0 ≡ n = omega arith in rw (e, f)
  drop-window p (suc m) zero h = absurd (omega arith)
  drop-window p (suc m) (suc n) h =
      let e : p + suc m ≡ p + 1 + m = omega arith in
      let f : suc n - suc m ≡ n - m = omega arith in
      rw (e, f) (drop-window (p + 1) m n (omega arith))

  pub window_eq_list :
      (xs : List ℕ) (p : ℕ)
      → ((k : ℕ) → k < length xs → mem ((p + k) % buffer_size) ≡ get_or xs k 0)
      → window mem p (length xs) ≡ xs
  unfolding window get_or
  window_eq_list [] p h = refl
  window_eq_list (x ∷ xs) p h =
      let here : p + 0 ≡ p = omega arith in
      ap₂ ◌∷◌ (rw here at (h 0 (omega arith))) (
        window_eq_list xs (p + 1)
          λ k lt. let e : p + 1 + k ≡ p + suc k = omega arith in rw e (h (suc k) (omega arith)))

pub window-ext :
    (mem mem' : ℕ → ℕ) (p n : ℕ)
    → ((k : ℕ) → k < n → mem ((p + k) % buffer_size) ≡ mem' ((p + k) % buffer_size))
    → window mem p n ≡ window mem' p n
unfolding window
window-ext mem mem' p zero h = refl
window-ext mem mem' p (suc n) h =
    let here : p + 0 ≡ p = omega arith in
    ap₂ ◌∷◌ (rw here at (h 0 (omega arith))) (
      window-ext mem mem' (p + 1) n
        λ k lt. let e : p + 1 + k ≡ p + suc k = omega arith in rw e (h (suc k) (omega arith)))
