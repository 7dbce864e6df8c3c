-- ===== src/Buffer.antt =====
-- internal/buffer/frame_buffer.go: the ring of rendered frames. The array is a function from positions to
-- bytes, and a slice expression out of its bounds is a panic. Every method holds the buffer's mutex
-- from end to end, so a method is one function on the state. `head` and `tail` are uint64 byte
-- positions; `seconds` and `batches` are Go ints, carried as 64-bit words. A wait on the condition
-- variable is the test of its loop: `none` while the caller is parked.
pub mod Floats
pub mod Ring
pub mod Waits
mod Tests
use distributed_donut.Prelude.{
  ℕ, zero, suc, ◌+◌, ◌-◌, ◌*◌, ◌/◌, ◌%◌, ◌^◌, min, List, [], ◌∷◌, ◌++◌, length, get_or, Outcome, ok,
  err, panic, out_of_range, remove_too_many, start_after_end, Option, none, some, Bool, true, false,
  not, ◌&&◌, ltb, leb, ◌==◌, if◌then◌else◌, u8, u32, u64, sub64,
}
use Floats.{Float64}
use distributed_donut.Protocol.{frame_size, frames_per_batch, batch_size}

abbrev pub max_batches : ℕ
max_batches = 30 * 60

abbrev pub max_frames : ℕ
max_frames = max_batches * frames_per_batch

abbrev pub buffer_size : ℕ
buffer_size = max_frames * frame_size

pub record FrameBuffer : Type 0 where
  pub buffer : ℕ → ℕ
  pub head : ℕ
  pub tail : ℕ

unfoldable pub new_frame_buffer : FrameBuffer
new_frame_buffer = record { buffer = λ _. 0; head = 0; tail = 0 }

-- `copy(mem[lo:hi], src)`
unfoldable pub copy_slice : (ℕ → ℕ) → ℕ → ℕ → List ℕ → ℕ → ℕ
copy_slice mem lo hi src i =
    if leb lo i && ltb i hi && ltb (i - lo) (length src) then get_or src (i - lo) 0 else mem i

-- the bytes of `mem[lo:lo+n]`
unfoldable pub read : (ℕ → ℕ) → ℕ → ℕ → List ℕ
read mem lo zero = []
read mem lo (suc n) = mem lo ∷ read mem (lo + 1) n

unfoldable pub add_frames_to_buffer : FrameBuffer → ℕ → ℕ → List ℕ → Outcome FrameBuffer
add_frames_to_buffer fb start_frame end_frame frames =
    if ltb end_frame start_frame
    then err start_after_end
    else (let batch_start_index = u32 (start_frame * frame_size) % buffer_size in
        let batch_end_index = u32 (batch_start_index + batch_size) in
        if leb batch_start_index batch_end_index && leb batch_end_index buffer_size
        then ok
            (record fb { buffer = copy_slice fb.buffer batch_start_index batch_end_index frames })
        else panic out_of_range)

unfoldable pub get_length_in_frames : FrameBuffer → ℕ
get_length_in_frames fb = sub64 fb.head fb.tail / frame_size

unfoldable pub is_buffer_size_enough_for_broadcast : FrameBuffer → ℕ → Bool
unfolding get_length_in_frames
is_buffer_size_enough_for_broadcast fb seconds =
    leb (u64 (seconds * frames_per_batch)) (get_length_in_frames fb)

-- `nil` is `none`.
unfoldable pub get_frames_to_broadcast : FrameBuffer → ℕ → Outcome (Option (List ℕ))
unfolding is_buffer_size_enough_for_broadcast
get_frames_to_broadcast fb seconds =
    if not (is_buffer_size_enough_for_broadcast fb seconds)
    then ok none
    else (let delta = u64 (seconds * frames_per_batch * frame_size) in
        let tail_idx = fb.tail % buffer_size in
        let n = min delta (buffer_size - tail_idx) in
        let first = read fb.buffer tail_idx n in
        if not (ltb n delta)
        then ok (some first)
        else if leb (delta - n) buffer_size
        then ok (some (first ++ read fb.buffer 0 (delta - n)))
        else panic out_of_range)

unfoldable pub remove_sent_frames_from_buffer : FrameBuffer → ℕ → Outcome FrameBuffer
unfolding get_length_in_frames
remove_sent_frames_from_buffer fb seconds =
    let frames_to_remove = u64 (seconds * frames_per_batch) in
    if ltb (get_length_in_frames fb) frames_to_remove
    then panic remove_too_many
    else ok (record fb { tail = u64 (fb.tail + frames_to_remove * frame_size) })

unfoldable pub fullness_percent : FrameBuffer → ℕ
fullness_percent fb =
    let length = sub64 fb.head fb.tail / frame_size in
    let percent = min (u64 (length * 100) / max_frames) 100 in u8 percent

unfoldable pub get_next_frame_number : FrameBuffer → ℕ
get_next_frame_number fb = fb.head / frame_size % max_frames

unfoldable pub is_buffer_full : FrameBuffer → Bool
unfolding get_length_in_frames
is_buffer_full fb = get_length_in_frames fb == max_frames

unfoldable pub frame_batches_remaining_to_full_buffer : FrameBuffer → ℕ
unfolding is_buffer_full
frame_batches_remaining_to_full_buffer fb =
    if is_buffer_full fb then 0 else sub64 max_frames (get_length_in_frames fb) / frames_per_batch

-- `some` once the caller may go on.
unfoldable pub wait_until_buffer_size_enough_for_broadcast : FrameBuffer → ℕ → Option (Unit {0})
unfolding is_buffer_size_enough_for_broadcast
wait_until_buffer_size_enough_for_broadcast fb seconds =
    if not (is_buffer_size_enough_for_broadcast fb seconds) then none else some tt

unfoldable pub advance_head : FrameBuffer → ℕ → FrameBuffer
advance_head fb batches = record fb { head = u64 (fb.head + u64 (batches * batch_size)) }

-- `maxSleep` is a Duration in nanoseconds, and so is the result.
unfoldable pub time_to_sleep : (fl : Float64) → ℕ → ℕ → ℕ
time_to_sleep fl remaining max_sleep =
    if leb max_batches remaining
    then 0
    else (let fullness = sub (of_uint64 1) (div (of_uint64 remaining) (of_uint64 max_batches)) in
        let k = of_uint64 2 in
        let max_sleep_seconds = fl.seconds max_sleep in
        let seconds =
          div (mul max_sleep_seconds (sub (exp (mul k fullness)) (of_uint64 1)))
            (sub (exp k) (of_uint64 1)) in
        to_duration (mul (of_uint64 1_000_000_000) seconds))
  where
    open fl use {of_uint64, sub, mul, div, exp, to_duration}

unfoldable pub wait_for_room : (fl : Float64) → FrameBuffer → ℕ → ℕ → Option ℕ
unfolding frame_batches_remaining_to_full_buffer time_to_sleep
wait_for_room fl fb batches max_sleep =
    let remaining = frame_batches_remaining_to_full_buffer fb in
    if ltb remaining batches then none else some (time_to_sleep fl remaining max_sleep)
