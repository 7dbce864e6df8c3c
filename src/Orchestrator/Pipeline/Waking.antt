-- ===== src/Orchestrator/Pipeline/Waking.antt =====
-- When the two waits for the buffer let the loops of internal/orchestrator go on.
use distributed_donut.Prelude.{ℕ, ◌+◌, ◌*◌, ◌≤◌, ◌<◌, ◌≡◌, ◌^◌, some, inl, inr, arith, Option-cases}
use distributed_donut.Protocol.{batch_size}
use distributed_donut.Buffer.{
  FrameBuffer, max_batches, wait_for_room, wait_until_buffer_size_enough_for_broadcast,
}
use distributed_donut.Buffer.Floats.{Float64}
use distributed_donut.Buffer.Waits.{wait_for_room_iff, wait_until_iff}
use distributed_donut.Buffer.Ring
use distributed_donut.Buffer.Ring.{contents}

pub let_in :
    (fl : Float64) (fb : FrameBuffer) (k max_sleep : ℕ)
    → Ring.IsValid fb
    → fb.head + k * batch_size ≤ fb.tail + max_batches * batch_size
    → (sleep : ℕ) × (wait_for_room fl fb k max_sleep ≡ some sleep)
let_in fl fb k max_sleep v fits = elim (Option-cases (wait_for_room fl fb k max_sleep)) [
  | inl stuck ↦ absurd (omega (arith, (wait_for_room_iff fl fb k max_sleep v).0 stuck))
  | inr some_sleep ↦ some_sleep
]

pub woken :
    (fb : FrameBuffer) (k : ℕ)
    → Ring.IsValid fb
    → k < 2 ^ 32
    → fb.tail + k * batch_size ≤ fb.head
    → wait_until_buffer_size_enough_for_broadcast fb k ≡ some tt
woken fb k v small enough = elim (Option-cases (wait_until_buffer_size_enough_for_broadcast fb k)) [
  | inl stuck ↦ absurd (omega (arith, (wait_until_iff fb k v small).0 stuck))
  | inr (tt, e) ↦ e
]
