-- ===== src/Harness/Renderer/Frames.antt =====
-- What `Render` produces: one stamped frame for each number of the range.
use distributed_donut.Prelude.{
  ℕ, zero, suc, ◌+◌, ◌-◌, ◌*◌, ◌≤◌, ◌<◌, ◌^◌, ◌≡◌, leb, ◌&&◌, true, refl, sym, ap, ◌∙◌, List, [],
  ◌∷◌, ◌++◌, length, take, copy, copy_at, replicate, length-replicate, length-append, take-append,
  drop-append, append_assoc, arith, ok, u8, u32,
}
use distributed_donut.Protocol.{frame_size, big_endian, slice}
use distributed_donut.Harness.Renderer.{fill_from, write_frame, render_from, render}

-- the bytes of frame `n`: its number in four bytes, and a body filled from it
unfoldable pub stamped : ℕ → List ℕ
stamped n = big_endian n ++ replicate (frame_size - 4) (u8 n)

unfoldable pub frames_from : ℕ → ℕ → List ℕ
frames_from j zero = []
frames_from j (suc n) = stamped j ++ frames_from (j + 1) n

pub length-stamped : (n : ℕ) → length (stamped n) ≡ frame_size
unfolding stamped
length-stamped n = omega (arith, length-replicate (frame_size - 4) (u8 n))

pub length-frames_from : (j n : ℕ) → length (frames_from j n) ≡ n * frame_size
unfolding frames_from
length-frames_from j zero = refl
length-frames_from j (suc n) = omega (
  arith,
  length-append (stamped j) (frames_from (j + 1) n),
  length-stamped j,
  length-frames_from (j + 1) n,
)

copy_at-append :
    (pre post src : List ℕ) (k : ℕ)
    → k ≡ length pre
    → copy_at k (pre ++ post) src ≡ pre ++ copy post src
unfolding copy_at
copy_at-append [] post src k e = let z : k ≡ 0 = e in rw z
copy_at-append (x ∷ pre) post src k e =
    let s : k ≡ suc (length pre) = e in
    rw s (ap (◌∷◌ x) (copy_at-append pre post src (length pre) refl))

copy-append : (xs post src : List ℕ) → length xs ≡ length src → copy (xs ++ post) src ≡ src ++ post
unfolding copy
copy-append [] post [] e = refl
copy-append (x ∷ xs) post [] e = absurd (omega arith)
copy-append [] post (s ∷ src) e = absurd (omega arith)
copy-append (x ∷ xs) post (s ∷ src) e = ap (◌∷◌ s) (copy-append xs post src (omega arith))

fill_zero : (xs : List ℕ) (v : ℕ) → fill_from 0 xs v ≡ replicate (length xs) v
unfolding fill_from replicate
fill_zero [] v = refl
fill_zero (x ∷ xs) v = ap (◌∷◌ v) (fill_zero xs v)

replicate-add : (m n a : ℕ) → replicate (m + n) a ≡ replicate m a ++ replicate n a
unfolding replicate
replicate-add zero n a = ap (λ k. replicate k a) (omega arith)
replicate-add (suc m) n a =
    let e : suc m + n ≡ suc (m + n) = omega arith in rw e (ap (◌∷◌ a) (replicate-add m n a))

write_frame-stamped :
    (frame : List ℕ) (n : ℕ) → length frame ≡ frame_size → write_frame frame n ≡ stamped n
unfolding write_frame stamped copy_at copy fill_from
write_frame-stamped [] n e = absurd (omega arith)
write_frame-stamped (a ∷ []) n e = absurd (omega arith)
write_frame-stamped (a ∷ b ∷ []) n e = absurd (omega arith)
write_frame-stamped (a ∷ b ∷ c ∷ []) n e = absurd (omega arith)
write_frame-stamped (a ∷ b ∷ c ∷ d ∷ rest) n e =
    let l : length rest ≡ frame_size - 4 = omega arith in
    ap (λ (t : List ℕ). big_endian n ++ t) (fill_zero rest (u8 n) ∙ ap (λ k. replicate k (u8 n)) l)

pub slice_inside :
    (pre mid post : List ℕ) (i j : ℕ)
    → i ≡ length pre
    → j ≡ length pre + length mid
    → slice (pre ++ (mid ++ post)) i j ≡ ok mid
unfolding slice
slice_inside pre mid post i j a b =
    let inside : (leb i j && leb j (length (pre ++ (mid ++ post)))) ≡ true =
      ground (arith, length-append pre (mid ++ post), length-append mid post) in
    let amount : j - i ≡ length mid = omega arith in
    rw (inside, amount, a)
      (ap (λ (t : List ℕ). ok (take (length mid) t)) (drop-append pre (mid ++ post))
        ∙ ap ok (take-append mid post))

render_from-frames_from :
    (start rounds i : ℕ) (pre : List ℕ)
    → length pre ≡ i * frame_size
    → start + i + rounds ≤ 2 ^ 32
    → render_from start rounds i (pre ++ replicate (rounds * frame_size) 0)
      ≡ ok (pre ++ frames_from (start + i) rounds)
unfolding render_from frames_from
render_from-frames_from start zero i pre e h =
    let none_left : 0 * frame_size ≡ 0 = omega arith in rw none_left (unfold replicate in refl)
render_from-frames_from start (suc rounds) i pre e h =
    let more : suc rounds * frame_size ≡ frame_size + rounds * frame_size = omega arith in
    let left : List ℕ = replicate (rounds * frame_size) 0 in
    let blank : List ℕ = replicate frame_size 0 in
    let n : u32 (start + i) ≡ start + i = omega arith in
    let zeros : replicate (suc rounds * frame_size) 0 ≡ blank ++ left =
      ap (λ k. replicate k 0) more ∙ replicate-add frame_size (rounds * frame_size) 0 in
    let part : slice (pre ++ (blank ++ left)) (i * frame_size) ((i + 1) * frame_size) ≡ ok blank =
      slice_inside pre blank left (i * frame_size) ((i + 1) * frame_size) (sym e)
        (omega (arith, length-replicate {A = ℕ} frame_size 0)) in
    let frame : write_frame blank (start + i) ≡ stamped (start + i) =
      write_frame-stamped blank (start + i) (length-replicate {A = ℕ} frame_size 0) in
    let stored : copy_at (i * frame_size) (pre ++ (blank ++ left)) (stamped (start + i))
        ≡ (pre ++ stamped (start + i)) ++ left =
      copy_at-append pre (blank ++ left) (stamped (start + i)) (i * frame_size) (sym e)
      ∙ ap (λ (t : List ℕ). pre ++ t)
          (copy-append blank left (stamped (start + i))
            (length-replicate {A = ℕ} frame_size 0 ∙ sym (length-stamped (start + i))))
      ∙ sym (append_assoc pre (stamped (start + i)) left) in
    let next : start + (i + 1) ≡ start + i + 1 = omega arith in
    rw (zeros, part, n, frame, stored)
      (render_from-frames_from start rounds (i + 1) (pre ++ stamped (start + i))
          (omega (arith, length-append pre (stamped (start + i)), length-stamped (start + i)))
          (omega arith)
        ∙ ap ok (
            append_assoc pre (stamped (start + i)) (frames_from (start + (i + 1)) rounds)
            ∙ ap (λ k. pre ++ (stamped (start + i) ++ frames_from k rounds)) next))

-- `Render` of a range of frame numbers makes one stamped frame for each, in order: it indexes nothing
-- out of range, and its length is the number of frames times `FrameSize`.
pub render-frames_from :
    (start_frame end_frame : ℕ)
    → start_frame ≤ end_frame
    → end_frame < 2 ^ 32
    → render start_frame end_frame ≡ ok (frames_from start_frame (end_frame - start_frame + 1))
unfolding render
render-frames_from start_frame end_frame le small =
    let n : u32 (end_frame + 2 ^ 32 - start_frame) + 1 ≡ end_frame - start_frame + 1 =
      omega arith in
    let first : start_frame + 0 ≡ start_frame = omega arith in
    rw (n) (
      render_from-frames_from start_frame (end_frame - start_frame + 1) 0 [] refl (omega arith)
      ∙ ap (λ k. ok (frames_from k (end_frame - start_frame + 1))) first)
