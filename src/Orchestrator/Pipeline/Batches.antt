-- ===== src/Orchestrator/Pipeline/Batches.antt =====
-- A run of bytes as consecutive batches, each what a worker returned for its place in the animation.
use distributed_donut.Prelude.{
  ℕ, zero, suc, ◌+◌, ◌*◌, ◌<◌, ◌≡◌, List, [], ◌++◌, append_assoc, length, arith,
}
use distributed_donut.Protocol.{batch_size}
use distributed_donut.Buffer.Ring.{window}
use distributed_donut.Buffer.Ring.Window.{window-zero, window-add, length-window}
use distributed_donut.Buffer.Ring.Write.{frame_at}

module _ (worker : ℕ → List ℕ → Type 0) where
  -- `xs` is `k` batches of the animation, the first of them for byte position `p`.
  abbrev pub Batches : ℕ → ℕ → List ℕ → Type 0
  Batches p zero xs = xs ≡ []
  Batches p (suc k) xs =
      (ys : List ℕ) × (zs : List ℕ) × (xs ≡ ys ++ zs)
      × (length ys ≡ batch_size)
      × worker (frame_at p) ys
      × Batches (p + batch_size) k zs

  pub Batches-append :
      (p q k m : ℕ) (xs ys : List ℕ)
      → q ≡ p + k * batch_size
      → Batches p k xs
      → Batches q m ys
      → Batches p (k + m) (xs ++ ys)
  Batches-append p q zero m xs ys e b c =
      let here : q ≡ p = omega arith in
      let none_before : 0 + m ≡ m = omega arith in rw (b, none_before, ← here) c
  Batches-append p q (suc k) m xs ys e (first, rest, split, whole, made, more) c =
      let count : suc k + m ≡ suc (k + m) = omega arith in
      rw count (
        first,
        rest ++ ys,
        rw (split, append_assoc),
        whole,
        made,
        Batches-append (p + batch_size) q k m rest ys (omega arith) more c,
      )

  -- what stands in the ring at the batch at `p` was made for it
  abbrev pub Filled : (ℕ → ℕ) → ℕ → Type 0
  Filled mem p = worker (frame_at p) (window mem p batch_size)

  pub Batches-window :
      (mem : ℕ → ℕ) (p k : ℕ)
      → ((j : ℕ) → j < k → Filled mem (p + j * batch_size))
      → Batches p k (window mem p (k * batch_size))
  Batches-window mem p zero filled = window-zero mem p
  Batches-window mem p (suc k) filled =
      let count : suc k * batch_size ≡ batch_size + k * batch_size = omega arith in
      let here : p + 0 * batch_size ≡ p = omega arith in
      (
        window mem p batch_size,
        window mem (p + batch_size) (k * batch_size),
        rw count (window-add mem p batch_size (k * batch_size)),
        length-window mem p batch_size,
        rw here at (filled 0 (omega arith)),
        Batches-window mem (p + batch_size) k λ j lt.
            let there : p + batch_size + j * batch_size ≡ p + suc j * batch_size = omega arith in
            rw there (filled (suc j) (omega arith)),
      )
