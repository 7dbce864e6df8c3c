-- ===== src/Orchestrator/Pipeline/Progress.antt =====
-- From any state of a round the loops can go on to its end: no task is ever stuck.
mod Finishes
mod Tasks
pub use Finishes.*
use distributed_donut.Prelude.{
  ℕ, zero, suc, ◌+◌, ◌*◌, ◌≤◌, ◌<◌, ◌≡◌, ◌≢◌, ◌^◌, refl, sym, ap, subst, ◌∙◌, List, length, Option,
  some, true, inl, inr, arith, u32, Bool-cases, ℕ_discrete,
}
use distributed_donut.Protocol.{RenderResult, batch_size}
use distributed_donut.Buffer.{FrameBuffer, max_frames}
use distributed_donut.Buffer.Floats.{Float64}
use distributed_donut.Buffer.Ring.Write.{advance_head_eq}
use distributed_donut.Client.{generate_new_render_task_id}
use distributed_donut.Client.Pool.{contains}
use distributed_donut.Orchestrator.{Config}
use distributed_donut.Orchestrator.BatchMap.{delete_render_task, add_frame_batch}
use distributed_donut.Orchestrator.BatchMap.View.{find, switch_moves}
use distributed_donut.Orchestrator.BatchMap.Save.{save_render_result_lem, saved}
use distributed_donut.Orchestrator.Pipeline.{
  Pipeline, Task, spawned, picked, numbered, waiting, timed_out, finished, running, parked, update,
  start_frame_of, end_frame_of,
}
use distributed_donut.Orchestrator.Pipeline.Steps.{
  TaskStep, Step, pick, number, assign, done, task, advance, result,
}
use distributed_donut.Orchestrator.Pipeline.Invariant.{Inv, Round, TaskOk, Pending}
use distributed_donut.Orchestrator.Pipeline.Framing.{update_same, update_other}
use distributed_donut.Orchestrator.Pipeline.Slots.{request_work-id}
use distributed_donut.Orchestrator.Pipeline.Stream.{Step-Inv}
use distributed_donut.Orchestrator.Pipeline.Progress.Tasks.{task-Finishes}

module _ (fl : Float64) (prepare : List ℕ → Option (List ℕ)) (cfg : Config)
    (worker : ℕ → List ℕ → Type 0) (a : ℕ) where
  module _ (first_small : cfg.first_seconds_to_broadcast < 2 ^ 32)
      (small : cfg.seconds_to_broadcast < 2 ^ 32) where
    pub Steps-Inv :
        {s t : Pipeline} → Inv worker s → Steps fl prepare cfg worker a s t → Inv worker t
    Steps-Inv v stay = v
    Steps-Inv v (go rest step only) =
        Step-Inv fl prepare cfg worker first_small small (Steps-Inv v rest) step

    first_tasks :
        (m n current : ℕ) (s : Pipeline) (tasks : ℕ → Task)
        → Answers fl prepare cfg worker a
        → m ≤ n
        → Inv worker s
        → s.dispatcher ≡ running n current tasks
        → IsIn fl prepare cfg worker a s
        → ((i : ℕ) → (s.clients i).num_render_tasks + 2 * m < 2 ^ 32)
        → (t : Pipeline) × (after : ℕ → Task) × Steps fl prepare cfg worker a s t
          × (t.dispatcher ≡ running n current after)
          × ((i : ℕ) → i < m → after i ≡ finished)
          × Kept s t
          × ((i : ℕ) → (t.clients i).num_render_tasks ≤ (s.clients i).num_render_tasks + 2 * m)
    first_tasks zero n current s tasks answers le v ran member room = (
      s,
      tasks,
      stay,
      ran,
      λ i below. absurd (omega arith),
      keeps refl refl refl refl refl refl,
      λ i. omega arith,
    )
    first_tasks (suc m) n current s tasks answers le v ran member room =
        let (t, mid, steps, shape, over, kept, counted) =
          first_tasks m n current s tasks answers (omega arith) v ran member
            (λ i. omega (arith, room i)) in
        let f =
          task-Finishes fl prepare cfg worker a first_small small answers n current m (omega arith)
            t mid (mid m) (Steps-Inv v steps) shape refl
            (ap (λ (x : List ℕ). contains x a) kept.pool ∙ member)
            (λ i. omega (arith, room i, counted i)) in
        (
          f.last,
          f.after,
          Steps-trans fl prepare cfg worker a steps f.steps,
          f.shape,
          λ i below. elim (ℕ_discrete i m) [
            | yes same ↦ ap f.after same ∙ f.over
            | no ne ↦ f.others i ne ∙ over i (omega arith)
          ],
          Kept-trans s t f.last kept f.kept,
          λ i. omega (arith, counted i, f.counted i),
        )

    -- The end of a round, with what its tasks cost the clients.
    pub Round-ends :
        (s : Pipeline) (n current : ℕ) (tasks : ℕ → Task)
        → Inv worker s
        → s.dispatcher ≡ running n current tasks
        → Answers fl prepare cfg worker a
        → IsIn fl prepare cfg worker a s
        → ((i : ℕ) → (s.clients i).num_render_tasks + 2 * n < 2 ^ 32)
        → s.batch_map.buffer.head + n * batch_size < 2 ^ 63
        → (t : Pipeline) × Steps fl prepare cfg worker a s t
          × (t.dispatcher ≡ parked)
          × (t.batch_map.buffer.head ≡ s.batch_map.buffer.head + n * batch_size)
          × (t.batch_map.buffer.tail ≡ s.batch_map.buffer.tail)
          × (t.broadcaster ≡ s.broadcaster)
          × (t.is_first_broadcast ≡ s.is_first_broadcast)
          × (t.stream ≡ s.stream)
          × (t.pool ≡ s.pool)
          × ((i : ℕ) → (t.clients i).num_render_tasks ≤ (s.clients i).num_render_tasks + 2 * n)
    Round-ends s n current tasks v ran answers member room far =
        let (t, after, steps, shape, over, kept, counted) =
          first_tasks n n current s tasks answers (omega arith) v ran member room in
        let head : t.batch_map.buffer.head + n * batch_size
            ≡ s.batch_map.buffer.head + n * batch_size =
          omega (arith, kept.head) in
        let far' : t.batch_map.buffer.head + n * batch_size < 2 ^ 63 = omega arith in
        (
          _,
          go steps (advance shape over far') tt,
          refl,
          ap FrameBuffer.head (advance_head_eq t.batch_map.buffer n far') ∙ head,
          ap FrameBuffer.tail (advance_head_eq t.batch_map.buffer n far') ∙ kept.tail,
          kept.broadcaster,
          kept.is_first_broadcast,
          kept.stream,
          kept.pool,
          counted,
        )

    -- A round never gets stuck. From every state of a round that satisfies the invariant, wherever each
    -- of its tasks is, the loops can go on to its end if one client is in the pool that answers, alone:
    -- the head is then past all batches of the round, the dispatcher parks again, and the tail, the
    -- broadcaster and what was broadcast are as they were. No client is near 2 ^ 32 tasks and the head is
    -- not near 2 ^ 63, and the seconds to broadcast are below 2 ^ 32.
    pub Round-finishes :
        (s : Pipeline) (n current : ℕ) (tasks : ℕ → Task)
        → Inv worker s
        → s.dispatcher ≡ running n current tasks
        → Answers fl prepare cfg worker a
        → IsIn fl prepare cfg worker a s
        → ((i : ℕ) → (s.clients i).num_render_tasks + 2 * n < 2 ^ 32)
        → s.batch_map.buffer.head + n * batch_size < 2 ^ 63
        → (t : Pipeline) × Steps fl prepare cfg worker a s t
          × (t.dispatcher ≡ parked)
          × (t.batch_map.buffer.head ≡ s.batch_map.buffer.head + n * batch_size)
          × (t.batch_map.buffer.tail ≡ s.batch_map.buffer.tail)
          × (t.broadcaster ≡ s.broadcaster)
          × (t.is_first_broadcast ≡ s.is_first_broadcast)
          × (t.stream ≡ s.stream)
    Round-finishes s n current tasks v ran answers member room far =
        let (t, steps, shape, head, tail, rest, first, stream, _, _) =
          Round-ends s n current tasks v ran answers member room far in
        (t, steps, shape, head, tail, rest, first, stream)
