-- ===== src/Buffer/Ring/Defs.antt =====
-- The invariant of the frame buffer, and the queue of bytes that it stands for.
use distributed_donut.Prelude.{ℕ, zero, suc, ◌+◌, ◌-◌, ◌%◌, ◌^◌, ◌≤◌, ◌<◌, ◌≡◌, List, [], ◌∷◌}
use distributed_donut.Protocol.{batch_size}
use distributed_donut.Buffer.{FrameBuffer, buffer_size}

-- the `n` bytes of the ring from position `p` on
unfoldable pub window : (ℕ → ℕ) → ℕ → ℕ → List ℕ
window mem p zero = []
window mem p (suc n) = mem (p % buffer_size) ∷ window mem (p + 1) n

-- The tail never passes the head, the head is never more than the ring ahead of it, both stand on
-- batch boundaries, and the head is far from the end of uint64.
pub record IsValid (fb : FrameBuffer) : Type 0 where
  pub ordered : fb.tail ≤ fb.head
  pub fits : fb.head ≤ fb.tail + buffer_size
  pub head_aligned : fb.head % batch_size ≡ 0
  pub tail_aligned : fb.tail % batch_size ≡ 0
  pub no_wrap : fb.head < 2 ^ 63

unfoldable pub contents : FrameBuffer → List ℕ
unfolding window
contents fb = window fb.buffer fb.tail (fb.head - fb.tail)
