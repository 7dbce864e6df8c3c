-- ===== src/Harness/Renderer.antt =====
-- internal/harness/renderer.go: frames that carry their number, and the check of a stream of them. A
-- slice of the output is written in place, which is `copy_at`. A count of frames is a number, since the
-- callers pass none below zero.
pub mod Frames
pub mod Verify
use distributed_donut.Prelude.{
  ℕ, zero, suc, ◌+◌, ◌-◌, ◌*◌, ◌/◌, ◌%◌, ◌^◌, List, [], ◌∷◌, length, drop, replicate, copy_at,
  Outcome, ok, err, too_few_frames, wrong_watermark, body_corrupted, ◌>>=◌, ◌>>◌, ltb, ◌==◌, not,
  if◌then◌else◌, u8, u32,
}
use distributed_donut.Protocol.{frame_size, put_uint32, uint32, slice}

-- `for i := 4; i < len(frame); i++ { frame[i] = fill }`, from any index
unfoldable pub fill_from : ℕ → List ℕ → ℕ → List ℕ
fill_from i [] fill = []
fill_from zero (x ∷ xs) fill = fill ∷ fill_from zero xs fill
fill_from (suc i) (x ∷ xs) fill = x ∷ fill_from i xs fill

unfoldable pub write_frame : List ℕ → ℕ → List ℕ
unfolding fill_from copy_at
write_frame frame n = fill_from 4 (put_uint32 frame 0 n) (u8 n)

-- the loop of `Render` from frame `i` on, with `rounds` frames to go
unfoldable pub render_from : ℕ → ℕ → ℕ → List ℕ → Outcome (List ℕ)
render_from start_frame zero i out = ok out
render_from start_frame (suc rounds) i out = do
  let frame = u32 (start_frame + i)
  part ← slice out (i * frame_size) ((i + 1) * frame_size)
  render_from start_frame rounds (i + 1) (copy_at (i * frame_size) out (write_frame part frame))

-- `SyntheticRenderer.Render`
unfoldable pub render : ℕ → ℕ → Outcome (List ℕ)
unfolding render_from replicate
render start_frame end_frame =
    let n = u32 (end_frame + 2 ^ 32 - start_frame) + 1 in
    render_from start_frame n 0 (replicate (n * frame_size) 0)

unfoldable pub frame_watermark : List ℕ → Outcome ℕ
frame_watermark frame = do b ← slice frame 0 4; uint32 b

-- the loop over the body of frame `j`, from byte `k` on
unfoldable pub check_body : ℕ → ℕ → List ℕ → Outcome (Unit {0})
check_body j k [] = ok tt
check_body j k (x ∷ xs) =
    let rest = check_body j (k + 1) xs in if not (x == u8 j) then err (body_corrupted j k) else rest

-- the loop over the frames from frame `j` on
unfoldable pub verify_from : List ℕ → ℕ → ℕ → Outcome (Unit {0})
unfolding frame_watermark check_body
verify_from stream zero j = ok tt
verify_from stream (suc rounds) j = do
  frame ← slice stream (j * frame_size) ((j + 1) * frame_size)
  got ← frame_watermark frame
  if not (got == u32 j) then err (wrong_watermark j got) else check_body j 4 (drop 4 frame)
  verify_from stream rounds (j + 1)

unfoldable pub verify_contiguous_frames : List ℕ → ℕ → Outcome (Unit {0})
unfolding verify_from
verify_contiguous_frames stream n =
    let have = length stream / frame_size in
    if ltb have n then err (too_few_frames have n) else verify_from stream n 0
