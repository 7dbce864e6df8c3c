-- ===== src/Buffer/Ring/Read.antt =====
-- The reading side of internal/buffer: what `GetFramesToBroadcast` returns and what
-- `RemoveSentFramesFromBuffer` leaves, in terms of the queue.
use distributed_donut.Prelude.{
  ℕ, ◌+◌, ◌-◌, ◌*◌, ◌/◌, ◌%◌, ◌^◌, ◌≤◌, ◌<◌, ◌≡◌, refl, sym, ap, ◌⊎◌, inl, inr, ◌++◌, arith, take,
  drop, ok, panic, some, none, remove_too_many, dec_lt,
}
use distributed_donut.Protocol.{batch_size}
use distributed_donut.Buffer.{
  FrameBuffer, buffer_size, read, get_frames_to_broadcast, remove_sent_frames_from_buffer,
}
use distributed_donut.Buffer.Ring.Defs.{IsValid, window, contents}
use distributed_donut.Buffer.Ring.Window.{read-eq-window, window-add, take-window, drop-window}

-- Two reads, split at the end of the array, make one window.
read_wrapped :
    (mem : ℕ → ℕ) (p n m : ℕ)
    → n + p % buffer_size ≡ buffer_size
    → m ≤ buffer_size
    → read mem (p % buffer_size) n ++ read mem 0 m ≡ window mem p (n + m)
read_wrapped mem p n m e h =
    let first =
      read-eq-window mem (p / buffer_size) (p % buffer_size) p n (omega arith) (omega arith) in
    let second = read-eq-window mem (p / buffer_size + 1) 0 (p + n) m (omega arith) (omega arith) in
    rw (first, second) (sym (window-add mem p n m))

-- Of a valid buffer, `GetFramesToBroadcast` returns nil if fewer than `seconds` batches are in it, and
-- otherwise exactly the first `seconds` batches of the queue, whether or not they go round the end of
-- the ring.
pub get_frames_to_broadcast_lem :
    (fb : FrameBuffer) (seconds : ℕ)
    → IsValid fb
    → seconds < 2 ^ 32
    → ((fb.head - fb.tail < seconds * batch_size) × (get_frames_to_broadcast fb seconds ≡ ok none))
      ⊎ ((seconds * batch_size ≤ fb.head - fb.tail)
          × (get_frames_to_broadcast fb seconds
              ≡ ok (some (take (seconds * batch_size) (contents fb)))))
unfolding get_frames_to_broadcast contents
get_frames_to_broadcast_lem fb seconds v h =
    elim (dec_lt (fb.head - fb.tail) (seconds * batch_size)) [
      | yes short ↦ inl (short, ground arith)
      | no enough ↦ inr (
        omega arith,
        rw (take-window mem fb.tail delta (fb.head - fb.tail) (omega arith)) (result (omega arith)),
      )
    ]
  where
    mem : ℕ → ℕ
    mem = fb.buffer

    delta : ℕ
    delta = seconds * batch_size

    room : ℕ
    room = buffer_size - fb.tail % buffer_size

    result :
        delta ≤ fb.head - fb.tail
        → get_frames_to_broadcast fb seconds ≡ ok (some (window mem fb.tail delta))
    result enough = elim (dec_lt room delta) [
      | yes p ↦ ground (arith, read_wrapped mem fb.tail room (delta - room))
      | no p ↦
          ground (
            arith,
            read-eq-window mem (fb.tail / buffer_size) (fb.tail % buffer_size) fb.tail delta,
          )
    ]

-- Of a valid buffer, `RemoveSentFramesFromBuffer` panics if fewer than `seconds` batches are in it, and
-- otherwise drops exactly the first `seconds` batches of the queue: the head and the bytes stay, and
-- the buffer stays valid.
pub remove_sent_frames_from_buffer_lem :
    (fb : FrameBuffer) (seconds : ℕ)
    → IsValid fb
    → seconds < 2 ^ 32
    → ((fb.head - fb.tail < seconds * batch_size)
        × (remove_sent_frames_from_buffer fb seconds ≡ panic remove_too_many))
      ⊎ ((fb' : FrameBuffer) × (remove_sent_frames_from_buffer fb seconds ≡ ok fb')
          × (contents fb' ≡ drop (seconds * batch_size) (contents fb))
          × (fb'.head ≡ fb.head)
          × (fb'.buffer ≡ fb.buffer)
          × IsValid fb')
unfolding remove_sent_frames_from_buffer contents
remove_sent_frames_from_buffer_lem fb seconds v h =
    elim (dec_lt (fb.head - fb.tail) (seconds * batch_size)) [
      | yes short ↦ inl (short, ground arith)
      | no enough ↦ inr (removed, ground arith, dropped (omega arith), refl, refl, omega arith)
    ]
  where
    removed : FrameBuffer
    removed = record fb { tail = fb.tail + seconds * batch_size }

    dropped :
        seconds * batch_size ≤ fb.head - fb.tail
        → contents removed ≡ drop (seconds * batch_size) (contents fb)
    dropped enough =
        rw (drop-window fb.buffer fb.tail (seconds * batch_size) (fb.head - fb.tail) enough)
          (ap (λ k. window fb.buffer (fb.tail + seconds * batch_size) k) (omega arith))
