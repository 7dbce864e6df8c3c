-- ===== src/Buffer/Ring/Write.antt =====
-- The writing side of internal/buffer: what `AddFramesToBuffer` writes and leaves alone, and what
-- `AdvanceHead` then makes of it.
use distributed_donut.Prelude.{
  ℕ, ◌+◌, ◌-◌, ◌*◌, ◌/◌, ◌%◌, ◌^◌, ◌≤◌, ◌<◌, ◌≡◌, refl, ap, ◌∙◌, ◌⊎◌, List, ◌++◌, arith, get_or, ok,
  length, ap₂, subst, u32,
}
use distributed_donut.Protocol.{batch_size, frame_size, frames_per_batch}
use distributed_donut.Buffer.{
  FrameBuffer, buffer_size, max_frames, copy_slice, add_frames_to_buffer, get_next_frame_number,
  advance_head,
}
use distributed_donut.Buffer.Ring.Defs.{IsValid, window, contents}
use distributed_donut.Buffer.Ring.Window.{window-add, window_eq_list, window-ext}

-- the frame number of the slot at byte position `p`
abbrev pub frame_at : ℕ → ℕ
frame_at p = p / frame_size % max_frames

-- the array after the batch at byte position `p` is written
abbrev pub written : (ℕ → ℕ) → ℕ → List ℕ → ℕ → ℕ
written mem p frames = copy_slice mem (p % buffer_size) (p % buffer_size + batch_size) frames

-- Positions of the ring that do not meet the batch at `p`.
abbrev pub Apart : ℕ → ℕ → ℕ → Type 0
Apart p q n =
    ((q + n ≤ p) × (p + batch_size ≤ q + buffer_size))
    ⊎ ((p + batch_size ≤ q) × (q + n ≤ p + buffer_size))

module _ (mem : ℕ → ℕ) (p : ℕ) (frames : List ℕ) (aligned : p % batch_size ≡ 0)
    (whole : length frames ≡ batch_size) where
  written_here :
      (k : ℕ) → k < length frames → written mem p frames ((p + k) % buffer_size) ≡ get_or frames k 0
  unfolding copy_slice
  written_here k lt =
      let e : (p + k) % buffer_size ≡ p % buffer_size + k = omega arith in
      let f : p % buffer_size + k - p % buffer_size ≡ k = omega arith in rw (e, f) (ground arith)

  pub window-written : window (written mem p frames) p batch_size ≡ frames
  window-written =
      subst (λ n. window (written mem p frames) p n ≡ frames) whole
        (window_eq_list (written mem p frames) frames p written_here)

  -- Writing a batch changes no window of the ring that is apart from it, before it or after it, across
  -- the wrap or not.
  pub window-written-Apart :
      (q n : ℕ) → Apart p q n → window (written mem p frames) q n ≡ window mem q n
  unfolding copy_slice
  window-written-Apart q n apart = window-ext _ _ q n λ k lt. ground arith

  -- The single `copy` of `AddFramesToBuffer` writes the batch at `p`.
  pub add_frames_to_buffer-eq :
      (fb : FrameBuffer)
      → fb.buffer ≡ mem
      → add_frames_to_buffer fb (frame_at p) (frame_at p + 59) frames
        ≡ ok (record fb { buffer = written mem p frames })
  unfolding add_frames_to_buffer
  add_frames_to_buffer-eq fb e =
      let start : u32 (frame_at p * frame_size) % buffer_size ≡ p % buffer_size = omega arith in
      let end : u32 (p % buffer_size + batch_size) ≡ p % buffer_size + batch_size = omega arith in
      rw (start, end, e) (ground arith)

-- The slot `j` batches past the head has the frame number `j` batches past `GetNextFrameNumber`.
pub frame_at-next :
    (fb : FrameBuffer) (j : ℕ)
    → frame_at (fb.head + j * batch_size)
      ≡ (get_next_frame_number fb + j * frames_per_batch) % max_frames
unfolding get_next_frame_number
frame_at-next fb j = omega arith

pub advance_head_eq :
    (fb : FrameBuffer) (n : ℕ)
    → fb.head + n * batch_size < 2 ^ 63
    → advance_head fb n ≡ record fb { head = fb.head + n * batch_size }
unfolding advance_head
advance_head_eq fb n h = ground arith

-- `AdvanceHead` appends to the queue what stands in the ring after the head; nothing before it moves,
-- and the buffer stays valid as long as the batches fit.
pub contents-advance_head :
    (fb : FrameBuffer) (n : ℕ)
    → IsValid fb
    → fb.head + n * batch_size ≤ fb.tail + buffer_size
    → fb.head + n * batch_size < 2 ^ 63
    → (contents (advance_head fb n) ≡ contents fb ++ window fb.buffer fb.head (n * batch_size))
      × IsValid (advance_head fb n)
unfolding contents
contents-advance_head fb n v fits small = rw (advance_head_eq fb n small) (appended, omega arith)
  where
    mem : ℕ → ℕ
    mem = fb.buffer

    appended :
        window mem fb.tail (fb.head + n * batch_size - fb.tail)
        ≡ window mem fb.tail (fb.head - fb.tail) ++ window mem fb.head (n * batch_size)
    appended =
        let e : fb.head + n * batch_size - fb.tail ≡ fb.head - fb.tail + n * batch_size =
          omega arith in
        let f : fb.tail + (fb.head - fb.tail) ≡ fb.head = omega arith in
        ap (window mem fb.tail) e
        ∙ window-add mem fb.tail (fb.head - fb.tail) (n * batch_size)
        ∙ ap (λ k. window mem fb.tail (fb.head - fb.tail) ++ window mem k (n * batch_size)) f

-- Writing one batch at the head and advancing over it puts the batch at the end of the queue.
pub add_frames_to_buffer-advance_head :
    (fb : FrameBuffer) (frames : List ℕ)
    → IsValid fb
    → length frames ≡ batch_size
    → fb.head + batch_size ≤ fb.tail + buffer_size
    → fb.head + batch_size < 2 ^ 63
    → let next = get_next_frame_number fb in
      (fb' : FrameBuffer) × (add_frames_to_buffer fb next (next + 59) frames ≡ ok fb')
      × (contents (advance_head fb' 1) ≡ contents fb ++ frames)
      × IsValid (advance_head fb' 1)
unfolding contents get_next_frame_number
add_frames_to_buffer-advance_head fb frames v whole fits small = (
  fb',
  add_frames_to_buffer-eq fb.buffer fb.head frames v.head_aligned whole fb refl,
  queue,
  advanced.1,
)
  where
    fb' : FrameBuffer
    fb' = record fb { buffer = written fb.buffer fb.head frames }

    advanced :
        (contents (advance_head fb' 1)
          ≡ contents fb' ++ window fb'.buffer fb'.head (1 * batch_size))
        × IsValid (advance_head fb' 1)
    advanced = contents-advance_head fb' 1 (omega arith) (omega arith) (omega arith)

    queue : contents (advance_head fb' 1) ≡ contents fb ++ frames
    queue =
        advanced.0
        ∙ ap₂ ◌++◌
            (window-written-Apart fb.buffer fb.head frames v.head_aligned whole fb.tail
              (fb.head - fb.tail) (omega arith))
            (window-written fb.buffer fb.head frames v.head_aligned whole)
