-- ===== src/Buffer/Tests.antt =====
-- internal/buffer on concrete states: the empty ring, one with a batch in it, and one that goes round.
use distributed_donut.Prelude.{
  ℕ, ◌+◌, ◌-◌, ◌*◌, ◌/◌, ◌≤◌, ◌<◌, ◌≡◌, ◌⊎◌, refl, List, ◌++◌, length-replicate, replicate, drop,
  take, ok, panic, none, some, remove_too_many, err, start_after_end, arith,
}
use distributed_donut.Protocol.{batch_size}
use distributed_donut.Buffer.{
  FrameBuffer, new_frame_buffer, add_frames_to_buffer, get_frames_to_broadcast,
  remove_sent_frames_from_buffer, fullness_percent, get_next_frame_number, advance_head,
  buffer_size, wait_for_room, wait_until_buffer_size_enough_for_broadcast,
}
use distributed_donut.Buffer.Floats.{Float64, IsMonotone}
use distributed_donut.Buffer.Ring.{IsValid, contents}
use distributed_donut.Buffer.Ring.Read.{
  get_frames_to_broadcast_lem, remove_sent_frames_from_buffer_lem,
}
use distributed_donut.Buffer.Ring.Write.{add_frames_to_buffer-advance_head}
use distributed_donut.Buffer.Waits.{fullness_percent_lem, no_deadlock}

abbrev one_batch : List ℕ
one_batch = replicate batch_size 7

abbrev empty : FrameBuffer
empty = record { buffer = λ _. 0; head = 0; tail = 0 }

-- Four batches, the last two of them past the end of the array.
abbrev round_the_end : FrameBuffer
round_the_end = record {
  buffer = λ i. i;
  head = buffer_size + 2 * batch_size;
  tail = buffer_size - 2 * batch_size;
}

half_full : fullness_percent (record empty { head = 900 * batch_size }) ≡ 50
unfolding fullness_percent
half_full = refl

rejects_start_after_end : add_frames_to_buffer empty 100 50 one_batch ≡ err start_after_end
unfolding add_frames_to_buffer
rejects_start_after_end = refl

remove_from_empty : remove_sent_frames_from_buffer new_frame_buffer 1 ≡ panic remove_too_many
unfolding remove_sent_frames_from_buffer new_frame_buffer
remove_from_empty = refl

empty-IsValid : IsValid empty
empty-IsValid = omega arith

round_the_end-IsValid : IsValid round_the_end
round_the_end-IsValid = omega arith

add_frames_to_buffer-advance_head_example :
    let next = get_next_frame_number round_the_end in
    (fb : FrameBuffer) × (add_frames_to_buffer round_the_end next (next + 59) one_batch ≡ ok fb)
    × (contents (advance_head fb 1) ≡ contents round_the_end ++ one_batch)
    × IsValid (advance_head fb 1)
add_frames_to_buffer-advance_head_example =
    add_frames_to_buffer-advance_head round_the_end one_batch round_the_end-IsValid
      (length-replicate batch_size 7) (omega arith) (omega arith)

get_frames_to_broadcast_lem_example :
    ((round_the_end.head - round_the_end.tail < 3 * batch_size)
      × (get_frames_to_broadcast round_the_end 3 ≡ ok none))
    ⊎ ((3 * batch_size ≤ round_the_end.head - round_the_end.tail)
        × (get_frames_to_broadcast round_the_end 3
            ≡ ok (some (take (3 * batch_size) (contents round_the_end)))))
get_frames_to_broadcast_lem_example =
    get_frames_to_broadcast_lem round_the_end 3 round_the_end-IsValid (omega arith)

remove_sent_frames_from_buffer_lem_example :
    ((round_the_end.head - round_the_end.tail < 3 * batch_size)
      × (remove_sent_frames_from_buffer round_the_end 3 ≡ panic remove_too_many))
    ⊎ ((fb : FrameBuffer) × (remove_sent_frames_from_buffer round_the_end 3 ≡ ok fb)
        × (contents fb ≡ drop (3 * batch_size) (contents round_the_end))
        × (fb.head ≡ round_the_end.head)
        × (fb.buffer ≡ round_the_end.buffer)
        × IsValid fb)
remove_sent_frames_from_buffer_lem_example =
    remove_sent_frames_from_buffer_lem round_the_end 3 round_the_end-IsValid (omega arith)

fullness_percent_lem_example :
    (fullness_percent round_the_end * buffer_size ≤ 4 * batch_size * 100)
    × (4 * batch_size * 100 < (fullness_percent round_the_end + 1) * buffer_size)
    × (fullness_percent round_the_end ≤ 100)
fullness_percent_lem_example = fullness_percent_lem round_the_end round_the_end-IsValid

-- Numbers in place of floats, with x + 1 in place of the exponential.
abbrev whole_numbers : Float64
whole_numbers = record {
  F = ℕ;
  of_uint64 = λ n. n;
  sub = λ a b. a - b;
  mul = λ a b. a * b;
  div = λ a b. a / b;
  exp = λ a. a + 1;
  seconds = λ n. n;
  to_duration = λ a. a;
}

div_mono : (a b c : ℕ) → 1 ≤ c → a ≤ b → a / c ≤ b / c
div_mono a b c pos le = grind arith

whole_numbers-IsMonotone : IsMonotone whole_numbers
whole_numbers-IsMonotone = record {
  Le = λ a b. a ≤ b;
  Positive = λ a. 1 ≤ a;
  of_uint64_mono = λ a b h. h;
  sub_mono = λ a b c h. omega arith;
  sub_anti = λ a b c h. omega arith;
  mul_mono = λ a b c p h. grind arith;
  div_mono = div_mono;
  exp_mono = λ a b h. omega arith;
  to_duration_mono = λ a b h. h;
  of_uint64_pos = λ n h. h;
  seconds_pos = λ n h. h;
  exp_two_pos = omega arith;
}

no_deadlock_example : ¬ (
    (wait_for_room whole_numbers round_the_end 4 4 ≡ none)
    × (wait_until_buffer_size_enough_for_broadcast round_the_end 6 ≡ none))
no_deadlock_example =
    no_deadlock whole_numbers round_the_end 4 6 4 round_the_end-IsValid (omega arith)
