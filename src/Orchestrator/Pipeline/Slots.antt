-- ===== src/Orchestrator/Pipeline/Slots.antt =====
-- The frame numbers that the slots of a round have, and the keys under which its tasks stand.
use distributed_donut.Prelude.{
  ℕ, zero, suc, ◌+◌, ◌*◌, ◌≤◌, ◌<◌, ◌≡◌, ◌^◌, List, Option, false, inl, inr, ◌⊎◌, arith, ◌==◌, ◌&&◌,
  ℕ_discrete,
}
use distributed_donut.Protocol.{batch_size, frames_per_batch, new_render_task}
use distributed_donut.Buffer.{FrameBuffer, buffer_size}
use distributed_donut.Buffer.Ring
use distributed_donut.Buffer.Ring.Write.{frame_at}
use distributed_donut.Client.{Client, request_work, enqueue}
use distributed_donut.Orchestrator.BatchMap.Save.{IsBatch}
use distributed_donut.Orchestrator.Pipeline.{start_frame_of, end_frame_of, current_frame_after}

current_frame_after_eq :
    (current j : ℕ)
    → current + j * frames_per_batch < 2 ^ 32
    → current_frame_after current j ≡ current + j * frames_per_batch
unfolding current_frame_after
current_frame_after_eq current zero h = omega arith
current_frame_after_eq current (suc j) h =
    rw (current_frame_after_eq current j (omega arith)) (omega arith)

module _ (fb : FrameBuffer) (v : Ring.IsValid fb) (current j : ℕ)
    (starts : current ≡ frame_at fb.head)
    (fits : fb.head + j * batch_size < fb.tail + buffer_size) where
  pub start_frame_eq : start_frame_of current j ≡ frame_at (fb.head + j * batch_size)
  unfolding start_frame_of
  start_frame_eq =
      rw (current_frame_after_eq current j (omega (arith, v.ordered)))
        (omega (arith, v.head_aligned))

  end_frame_eq : end_frame_of current j ≡ frame_at (fb.head + j * batch_size) + 59
  unfolding end_frame_of
  end_frame_eq =
      rw (current_frame_after_eq current j (omega (arith, v.ordered)))
        (omega (arith, v.head_aligned))

  pub frame-IsBatch :
      (id : ℕ) → IsBatch (new_render_task id (start_frame_of current j) (end_frame_of current j))
  unfolding new_render_task
  frame-IsBatch id = rw (start_frame_eq, end_frame_eq) (omega (arith, v.head_aligned))

pub frame_at_inj :
    (fb : FrameBuffer) (n i j : ℕ)
    → Ring.IsValid fb
    → fb.head + n * batch_size ≤ fb.tail + buffer_size
    → i < n
    → j < n
    → frame_at (fb.head + i * batch_size) ≡ frame_at (fb.head + j * batch_size)
    → i ≡ j
frame_at_inj fb n i j v fits a b e = omega (arith, v.ordered, v.head_aligned)

pub request_work-id :
    (prepare : List ℕ → Option (List ℕ)) (c : Client) (id first last : ℕ)
    → ((request_work prepare c id first last).id ≡ c.id)
      × ((request_work prepare c id first last).num_render_tasks ≡ c.num_render_tasks)
unfolding request_work enqueue
request_work-id prepare c id first last = ground arith

pub key-cases : (c t c' t' : ℕ) → ((c ≡ c') × (t ≡ t')) ⊎ ((c == c' && t == t') ≡ false)
key-cases c t c' t' = elim (ℕ_discrete c c') [
  | no ne ↦ inr (ground arith)
  | yes a ↦ elim (ℕ_discrete t t') [ yes b ↦ inl (a, b) | no ne ↦ inr (ground arith) ]
]
