-- ===== src/Buffer/Waits.antt =====
-- When the two loops that share the buffer may go on, how full it says it is, and how long it makes the
-- dispatcher sleep.
use distributed_donut.Prelude.{ℕ, ◌+◌, ◌-◌, ◌*◌, ◌^◌, ◌≤◌, ◌<◌, ◌≡◌, ◌↔◌, arith, none}
use distributed_donut.Protocol.{batch_size}
use distributed_donut.Buffer.Floats.{Float64, IsMonotone}
use distributed_donut.Buffer.{
  FrameBuffer, buffer_size, max_batches, fullness_percent, frame_batches_remaining_to_full_buffer,
  wait_for_room, wait_until_buffer_size_enough_for_broadcast, time_to_sleep,
}
use distributed_donut.Buffer.Ring.{IsValid}

-- In a valid buffer the batches in it and the batches there is room for make up the ring.
pub remaining_lem :
    (fb : FrameBuffer)
    → IsValid fb
    → frame_batches_remaining_to_full_buffer fb * batch_size + (fb.head - fb.tail) ≡ buffer_size
unfolding frame_batches_remaining_to_full_buffer
remaining_lem fb v = ground arith

-- The percentage never exceeds 100, for any head and tail.
pub fullness_percent-le : (fb : FrameBuffer) → fullness_percent fb ≤ 100
unfolding fullness_percent
fullness_percent-le fb = omega arith

-- Of a valid buffer `FullnessPercent` is the share of the ring in use, rounded down: 100 only when the ring is full.
pub fullness_percent_lem :
    (fb : FrameBuffer)
    → IsValid fb
    → (fullness_percent fb * buffer_size ≤ (fb.head - fb.tail) * 100)
      × ((fb.head - fb.tail) * 100 < (fullness_percent fb + 1) * buffer_size)
      × (fullness_percent fb ≤ 100)
unfolding fullness_percent
fullness_percent_lem fb v = omega arith

-- The dispatcher is let through exactly when the batches that it asks for fit behind the tail.
pub wait_for_room_iff :
    (fl : Float64) (fb : FrameBuffer) (batches max_sleep : ℕ)
    → IsValid fb
    → ((wait_for_room fl fb batches max_sleep ≡ none)
        ↔ (fb.tail + buffer_size < fb.head + batches * batch_size))
unfolding wait_for_room
wait_for_room_iff fl fb batches max_sleep v = (λ e. ground arith, λ e. ground arith)

-- The broadcaster is let through exactly when the batches that it asks for are in the queue.
pub wait_until_iff :
    (fb : FrameBuffer) (seconds : ℕ)
    → IsValid fb
    → seconds < 2 ^ 32
    → ((wait_until_buffer_size_enough_for_broadcast fb seconds ≡ none)
        ↔ (fb.head - fb.tail < seconds * batch_size))
unfolding wait_until_buffer_size_enough_for_broadcast
wait_until_iff fb seconds v h = (λ e. ground arith, λ e. ground arith)

-- Dispatcher and broadcaster never wait for each other: in a valid buffer, if what one asks for and what
-- the other asks for make up at most the ring, one of them is let through.
pub no_deadlock :
    (fl : Float64) (fb : FrameBuffer) (batches seconds max_sleep : ℕ)
    → IsValid fb
    → batches + seconds ≤ max_batches
    → ¬ (
        (wait_for_room fl fb batches max_sleep ≡ none)
        × (wait_until_buffer_size_enough_for_broadcast fb seconds ≡ none))
no_deadlock fl fb batches seconds max_sleep v h (p, q) = omega (
  arith,
  (wait_for_room_iff fl fb batches max_sleep v).0 p,
  (wait_until_iff fb seconds v (omega arith)).0 q,
)

-- Each operation of the formula keeps or turns the order.
formula_anti :
    (fl : Float64) (max_sleep r s : ℕ)
    → IsMonotone fl
    → 1 ≤ max_sleep
    → r ≤ s
    → let open' = λ (n : ℕ). fl.to_duration (
        fl.mul (fl.of_uint64 1_000_000_000) (
          fl.div
            (fl.mul (fl.seconds max_sleep) (
              fl.sub
                (fl.exp (
                  fl.mul
                    (fl.of_uint64 2)
                    (fl.sub (fl.of_uint64 1) (fl.div (fl.of_uint64 n) (fl.of_uint64 max_batches)))))
                (fl.of_uint64 1)))
            (fl.sub (fl.exp (fl.of_uint64 2)) (fl.of_uint64 1)))) in
      open' s ≤ open' r
formula_anti fl max_sleep r s m pos le = to_duration_mono _ _ (
    mul_mono _ _ _ (of_uint64_pos _ (omega arith)) (
      div_mono _ _ _ exp_two_pos (
        mul_mono _ _ _ (seconds_pos _ pos) (
          sub_mono _ _ _ (
            exp_mono _ _ (
              mul_mono _ _ _ (of_uint64_pos _ (omega arith)) (
                sub_anti _ _ _
                  (div_mono _ _ _ (of_uint64_pos _ (omega arith)) (of_uint64_mono r s le)))))))))
  where
    open m use {
      to_duration_mono, mul_mono, of_uint64_pos, div_mono, exp_two_pos, seconds_pos, sub_mono,
      exp_mono, sub_anti, of_uint64_mono,
    }

-- The more room the buffer has, the shorter the pause.
pub time_to_sleep-anti :
    (fl : Float64) (max_sleep r s : ℕ)
    → IsMonotone fl
    → 1 ≤ max_sleep
    → r ≤ s
    → time_to_sleep fl s max_sleep ≤ time_to_sleep fl r max_sleep
unfolding time_to_sleep
time_to_sleep-anti fl max_sleep r s m pos le =
    ground (arith, formula_anti fl max_sleep r s m pos le)
