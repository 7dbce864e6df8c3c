-- ===== src/Harness/Integrity.antt =====
-- The integrity check of the harness against the loops of the orchestrator: what workers with a
-- SyntheticRenderer make the server broadcast.
use distributed_donut.Prelude.{
  ℕ, zero, suc, ◌+◌, ◌-◌, ◌*◌, ◌/◌, ◌≤◌, ◌<◌, ◌^◌, ◌≡◌, refl, sym, ap, ap₂, ◌∙◌, subst, List, [],
  ◌∷◌, ◌++◌, length, replicate, append_assoc, arith, Outcome, ok, inl, inr, Option,
}
use distributed_donut.Protocol.{frame_size, frames_per_batch, batch_size}
use distributed_donut.Protocol.Errors.{Bytes}
use distributed_donut.Buffer.{max_frames, max_batches}
use distributed_donut.Buffer.Floats.{Float64}
use distributed_donut.Buffer.Ring.Write.{frame_at}
use distributed_donut.Orchestrator.{Config}
use distributed_donut.Orchestrator.Pipeline.{Pipeline}
use distributed_donut.Orchestrator.Pipeline.Batches.{Batches}
use distributed_donut.Orchestrator.Pipeline.Steps.{Reach}
use distributed_donut.Orchestrator.Pipeline.Stream.{Reach-Batches}
use distributed_donut.Harness.Renderer.{render, verify_contiguous_frames}
use distributed_donut.Harness.Renderer.Frames.{stamped, frames_from, render-frames_from}
use distributed_donut.Harness.Renderer.Verify.{verify_contiguous_frames_iff}

-- a worker that returns what its SyntheticRenderer makes of the task's frames
abbrev pub Synthetic : ℕ → List ℕ → Type 0
Synthetic frame frames = render frame (frame + (frames_per_batch - 1)) ≡ ok frames

Bytes-both : (xs ys : List ℕ) → Bytes xs → Bytes ys → Bytes (xs ++ ys)
Bytes-both [] ys h k = k
Bytes-both (x ∷ xs) ys h k = (h.0, Bytes-both xs ys h.1 k)

Bytes-replicate : (n b : ℕ) → b < 256 → Bytes (replicate n b)
unfolding replicate
Bytes-replicate zero b h = tt
Bytes-replicate (suc n) b h = (h, Bytes-replicate n b h)

Bytes-stamped : (n : ℕ) → Bytes (stamped n)
unfolding stamped
Bytes-stamped n =
    (omega arith, (omega arith, (omega arith, (omega arith, Bytes-replicate _ _ (omega arith)))))

pub Bytes-frames_from : (j n : ℕ) → Bytes (frames_from j n)
unfolding frames_from
Bytes-frames_from j zero = tt
Bytes-frames_from j (suc n) =
    Bytes-both (stamped j) (frames_from (j + 1) n) (Bytes-stamped j) (Bytes-frames_from (j + 1) n)

frames_from-zero : (j : ℕ) → frames_from j 0 ≡ []
unfolding frames_from
frames_from-zero j = refl

frames_from-add : (j m n : ℕ) → frames_from j (m + n) ≡ frames_from j m ++ frames_from (j + m) n
unfolding frames_from
frames_from-add j zero n =
    let e : 0 + n ≡ n = omega arith in let f : j + 0 ≡ j = omega arith in rw (e, f)
frames_from-add j (suc m) n =
    let e : suc m + n ≡ suc (m + n) = omega arith in
    let f : j + suc m ≡ j + 1 + m = omega arith in
    rw (e, f)
      (ap (λ (t : List ℕ). stamped j ++ t) (frames_from-add (j + 1) m n)
        ∙ sym (append_assoc (stamped j) (frames_from (j + 1) m) (frames_from (j + 1 + m) n)))

-- the batch of a synthetic worker
made_frames :
    (p : ℕ) (ys : List ℕ)
    → Synthetic (frame_at p) ys
    → ys ≡ frames_from (frame_at p) frames_per_batch
made_frames p ys made =
    let all = render-frames_from (frame_at p) (frame_at p + 59) (omega arith) (omega arith) in
    let count : frame_at p + 59 - frame_at p + 1 ≡ frames_per_batch = omega arith in
    let made' : ◌≡◌ {A = Outcome (List ℕ)} (ok ys)
        (ok (frames_from (frame_at p) frames_per_batch)) =
      sym made ∙ all ∙ ap (λ k. ok (frames_from (frame_at p) k)) count in
    cc made'

pub Bytes-Batches : (p k : ℕ) (xs : List ℕ) → Batches Synthetic p k xs → Bytes xs
Bytes-Batches p zero xs b = subst Bytes (sym b) tt
Bytes-Batches p (suc k) xs (ys, zs, split, _, made, more) = subst Bytes (sym split) (
    Bytes-both ys zs
      (subst Bytes (sym (made_frames p ys made)) (Bytes-frames_from (frame_at p) frames_per_batch))
      (Bytes-Batches (p + batch_size) k zs more))

Batches-frames_from :
    (i k m : ℕ) (xs : List ℕ)
    → m ≤ k
    → i + m ≤ max_batches
    → Batches Synthetic (i * batch_size) k xs
    → (rest : List ℕ) × (xs ≡ frames_from (i * frames_per_batch) (m * frames_per_batch) ++ rest)
Batches-frames_from i k zero xs le fits b =
    (xs, ap (λ (t : List ℕ). t ++ xs) (sym (frames_from-zero (i * frames_per_batch))))
Batches-frames_from i zero (suc m) xs le fits b = absurd (omega arith)
Batches-frames_from i (suc k) (suc m) xs le fits (ys, zs, split, _, made, more) =
    let next : i * batch_size + batch_size ≡ (i + 1) * batch_size = omega arith in
    let (rest, same) =
      Batches-frames_from (i + 1) k m zs (omega arith) (omega arith) (rw next at more) in
    let here : frame_at (i * batch_size) ≡ i * frames_per_batch = omega arith in
    let head : ys ≡ frames_from (i * frames_per_batch) frames_per_batch =
      made_frames (i * batch_size) ys made ∙ ap (λ f. frames_from f frames_per_batch) here in
    let count : suc m * frames_per_batch ≡ frames_per_batch + m * frames_per_batch = omega arith in
    let start : i * frames_per_batch + frames_per_batch ≡ (i + 1) * frames_per_batch =
      omega arith in
    let batch = frames_from (i * frames_per_batch) frames_per_batch in
    let others = frames_from ((i + 1) * frames_per_batch) (m * frames_per_batch) in
    let parts : frames_from (i * frames_per_batch) (suc m * frames_per_batch) ≡ batch ++ others =
      ap (frames_from (i * frames_per_batch)) count
      ∙ frames_from-add (i * frames_per_batch) frames_per_batch (m * frames_per_batch)
      ∙ ap (λ k. batch ++ frames_from k (m * frames_per_batch)) start in
    (
      rest,
      split
          ∙ ap₂ (λ (a b : List ℕ). a ++ b) head same
          ∙ sym (append_assoc batch others rest)
          ∙ ap (λ (t : List ℕ). t ++ rest) (sym parts),
    )

module _ (fl : Float64) (prepare : List ℕ → Option (List ℕ)) (cfg : Config)
    (first_small : cfg.first_seconds_to_broadcast < 2 ^ 32)
    (small : cfg.seconds_to_broadcast < 2 ^ 32) where
  -- With workers that return what their SyntheticRenderer makes, the check of the harness passes on what
  -- has been broadcast, at every moment and for every order of the steps of the loops: for any number
  -- of frames up to those broadcast and up to `MaxFrames`, after which the frame numbers begin again.
  -- The seconds to broadcast are below 2 ^ 32; the steps give a client fewer than 2 ^ 32 tasks and keep
  -- the head below 2 ^ 63.
  pub Reach-verify_contiguous_frames :
      (s : Pipeline) (n : ℕ)
      → Reach fl prepare cfg Synthetic s
      → n * frame_size ≤ length s.stream
      → n ≤ max_frames
      → verify_contiguous_frames s.stream n ≡ ok tt
  Reach-verify_contiguous_frames s n reached long fits =
      let (k, count, batches) =
        Reach-Batches fl prepare cfg Synthetic first_small small s reached in
      let m = (n + 59) / 60 in
      let (rest, same) = Batches-frames_from 0 k m s.stream (omega arith) (omega arith) batches in
      let size : m * frames_per_batch ≡ n + (m * frames_per_batch - n) = omega arith in
      let more = frames_from (0 + n) (m * frames_per_batch - n) in
      let parts : s.stream ≡ frames_from 0 n ++ (more ++ rest) =
        same
        ∙ ap (λ (t : List ℕ). t ++ rest)
            (ap (frames_from 0) size ∙ frames_from-add 0 n (m * frames_per_batch - n))
        ∙ append_assoc (frames_from 0 n) more rest in
      elim (verify_contiguous_frames_iff s.stream n (Bytes-Batches 0 k s.stream batches)) [
        | inl (_, _, e) ↦ e
        | inr (_, _, differs) ↦ absurd (differs (more ++ rest) parts)
      ]
