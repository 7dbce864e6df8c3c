-- ===== src/Orchestrator/Pipeline/Progress/Tasks.antt =====
-- From any state of a task of a round the loops can bring it to its end.
use distributed_donut.Prelude.{
  ℕ, ◌+◌, ◌*◌, ◌<◌, ◌≤◌, ◌∙◌, ◌==◌, false, ◌≡◌, ◌^◌, refl, sym, ap, subst, List, Option, some, true,
  inl, inr, arith, u32, Bool-cases, ℕ_discrete,
}
use distributed_donut.Protocol.{RenderResult, batch_size}
use distributed_donut.Buffer.{FrameBuffer}
use distributed_donut.Buffer.Floats.{Float64}
use distributed_donut.Client.{Client, generate_new_render_task_id}
use distributed_donut.Orchestrator.{Config}
use distributed_donut.Orchestrator.BatchMap.{delete_render_task, add_frame_batch}
use distributed_donut.Orchestrator.BatchMap.View.{find, switch_moves}
use distributed_donut.Orchestrator.BatchMap.Save.{save_render_result_lem, saved}
use distributed_donut.Orchestrator.Pipeline.{
  Pipeline, reassign, Task, spawned, picked, numbered, waiting, timed_out, finished, running,
  update, start_frame_of, end_frame_of,
}
use distributed_donut.Orchestrator.Pipeline.Steps.{
  pick, number, assign, done, time_out, assign_again, result,
}
use distributed_donut.Orchestrator.Pipeline.Invariant.{Inv, Round, TaskOk, Pending}
use distributed_donut.Orchestrator.Pipeline.Framing.{update_same, update_other}
use distributed_donut.Orchestrator.Pipeline.Slots.{request_work-id}
use distributed_donut.Orchestrator.Pipeline.Stream.{Step-Inv}
use distributed_donut.Orchestrator.Pipeline.Progress.Finishes.{
  IsIn, IsIn-Picks, keeps, moved, stay, go, Finishes, after-Step, loosen, task_step, Answers,
}

module _ (fl : Float64) (prepare : List ℕ → Option (List ℕ)) (cfg : Config)
    (worker : ℕ → List ℕ → Type 0) (a : ℕ) where
  module _ (first_small : cfg.first_seconds_to_broadcast < 2 ^ 32)
      (small : cfg.seconds_to_broadcast < 2 ^ 32) (answers : Answers fl prepare cfg worker a)
      (n current j : ℕ) (lt : j < n) where
    closed-Finishes :
        (s : Pipeline) (tasks : ℕ → Task) (w id ch : ℕ)
        → s.dispatcher ≡ running n current tasks
        → tasks j ≡ waiting w id ch
        → s.batch_map.closed ch ≡ true
        → Finishes fl prepare cfg worker a s n current j tasks 0
    unfolding delete_render_task
    closed-Finishes s tasks w id ch ran e closed = record {
      last =
          moved (record s { batch_map = delete_render_task s.batch_map (s.clients w).id id }) n
            current tasks j finished;
      steps =
          go stay
            (task_step fl prepare cfg worker a s _ n current j tasks (waiting w id ch) finished ran
              lt e (done closed))
            tt;
      after = update tasks j finished;
      shape = refl;
      over = update_same tasks j finished;
      others = λ i ne. update_other tasks j finished i ne;
      kept = keeps refl refl refl refl refl refl;
      counted = λ i. omega arith;
    }

    -- The client answers for a task of its own.
    own-Finishes :
        (s : Pipeline) (tasks : ℕ → Task) (id ch : ℕ)
        → Inv worker s
        → s.dispatcher ≡ running n current tasks
        → tasks j ≡ waiting a id ch
        → Finishes fl prepare cfg worker a s n current j tasks 0
    own-Finishes s tasks id ch v ran e =
        let r : Round worker s.batch_map s.clients n current tasks = rw ran at v.dispatching in
        let (meta, there, d, first, filled) : Pending worker s.batch_map s.clients
            (s.batch_map.buffer.head + j * batch_size) a id ch =
          subst (TaskOk worker s.batch_map s.clients (s.batch_map.buffer.head + j * batch_size)) e
            (r.agree j lt) in
        let flag : s.batch_map.closed ch ≡ meta.completed =
          v.common.discipline.flagged a id ch meta there d in
        elim (Bool-cases (s.batch_map.closed ch)) [
          | inl closed ↦ closed-Finishes s tasks a id ch ran e closed
          | inr opened ↦
              let (frames, whole, made) =
                answers meta.render_task.start_frame
                  (v.common.discipline.batch a id meta there).in_ring in
              let answer : RenderResult = record { id = id; frames = frames } in
              elim (save_render_result_lem s.batch_map a answer v.common.discipline whole) [
                | inl (nothing, _) ↦ absurd (ground arith)
                | inr (inl (meta', there', completed, _)) ↦
                    absurd (cc (flag, opened, there, there', completed))
                | inr (inr (meta', ch', there', _, d', _, saves, _)) ↦
                    let t = record s { batch_map = saved s.batch_map a answer meta' ch' } in
                    let one : meta' ≡ meta = cc (there, there') in
                    let same : ch' ≡ ch = cc (one, d, d') in
                    after-Step fl prepare cfg worker a s t n current j tasks tasks 0 0
                      (result a answer whole
                        (λ meta'' there''.
                          let again : meta ≡ meta'' = cc (there, there'') in
                          subst (λ m. worker m.render_task.start_frame frames) again made)
                        saves)
                      refl (keeps refl refl refl refl refl refl) (λ i. omega arith) (λ i ne. refl)
                      (closed-Finishes t tasks a id ch ran e (ground arith))
              ]
        ]

    -- After a timeout the task is assigned again, to the client that was picked.
    again-Finishes :
        (s : Pipeline) (tasks : ℕ → Task) (w id ch next k : ℕ)
        → Inv worker s
        → s.dispatcher ≡ running n current tasks
        → tasks j ≡ timed_out w id ch next
        → IsIn fl prepare cfg worker a s
        → (s.clients next).num_render_tasks + 1 < 2 ^ 32
        → ((t : Pipeline) (tasks' : ℕ → Task) (id' : ℕ)
            → Inv worker t
            → t.dispatcher ≡ running n current tasks'
            → tasks' j ≡ waiting next id' ch
            → IsIn fl prepare cfg worker a t
            → ((i : ℕ) → (t.clients i).num_render_tasks ≤ (s.clients i).num_render_tasks + 1)
            → Finishes fl prepare cfg worker a t n current j tasks' k)
        → Finishes fl prepare cfg worker a s n current j tasks (1 + k)
    unfolding reassign
    again-Finishes s tasks w id ch next k v ran e member room then_ =
        elim (ℕ_discrete (s.clients next).id (s.clients w).id) [
          | yes same ↦
              let stays : ((s.clients next).id == (s.clients w).id) ≡ true = ground arith in
              let one : w ≡ next = sym (v.common.ids w) ∙ sym same ∙ v.common.ids next in
              let step =
                task_step fl prepare cfg worker a s _ n current j tasks (timed_out w id ch next) _
                  ran lt e
                  (assign_again {w' = w} {id' = id} {map' = s.batch_map} {c' = s.clients w}
                    (λ ne. room) (rw stays refl)) in
              let (_, count) =
                request_work-id prepare (s.clients w) id (start_frame_of current j)
                  (end_frame_of current j) in
              after-Step fl prepare cfg worker a s _ n current j tasks
                (update tasks j (waiting w id ch)) 1 k step tt (keeps refl refl refl refl refl refl)
                (λ i. ground arith) (update_other tasks j (waiting w id ch))
                (then_ _ (update tasks j (waiting w id ch)) id
                  (Step-Inv fl prepare cfg worker first_small small v step) refl
                  (update_same tasks j (waiting w id ch) ∙ ap (λ x. waiting x id ch) one) member
                  (λ i. ground arith))
          | no ne ↦
              let moves : ((s.clients next).id == (s.clients w).id) ≡ false = ground arith in
              let r : Round worker s.batch_map s.clients n current tasks =
                rw ran at v.dispatching in
              let (meta, there, _, _, _) : Pending worker s.batch_map s.clients
                  (s.batch_map.buffer.head + j * batch_size) w id ch =
                subst
                  (TaskOk worker s.batch_map s.clients (s.batch_map.buffer.head + j * batch_size)) e
                  (r.agree j lt) in
              let there' : find s.batch_map.frame_batches (s.clients w).id id ≡ some meta =
                subst (λ x. find s.batch_map.frame_batches x id ≡ some meta) (sym (v.common.ids w))
                  there in
              let (map', eq, _, buffer, _, _) =
                switch_moves s.batch_map id (s.clients w).id (s.clients next) meta (λ x. ne (sym x))
                  there' in
              let id' = (s.clients next).num_render_tasks in
              let c' : Client = record (s.clients next) { num_render_tasks = u32 (id' + 1) } in
              let step =
                task_step fl prepare cfg worker a s _ n current j tasks (timed_out w id ch next) _
                  ran lt e
                  (assign_again {w' = next} {id' = id'} {map' = map'} {c' = c'} (λ _. room)
                    (rw (moves, eq) refl)) in
              let (_, count) =
                request_work-id prepare c' id' (start_frame_of current j)
                  (end_frame_of current j) in
              after-Step fl prepare cfg worker a s _ n current j tasks
                (update tasks j (waiting next id' ch)) 1 k step tt
                (keeps (ap FrameBuffer.head buffer) (ap FrameBuffer.tail buffer) refl refl refl
                  refl)
                (λ i. ground arith) (update_other tasks j (waiting next id' ch))
                (then_ _ (update tasks j (waiting next id' ch)) id'
                  (Step-Inv fl prepare cfg worker first_small small v step) refl
                  (update_same tasks j (waiting next id' ch)) member (λ i. ground arith))
        ]

    -- A task of any client is answered by it or, after a timeout, by the client `a`.
    waiting-Finishes :
        (s : Pipeline) (tasks : ℕ → Task) (w id ch : ℕ)
        → Inv worker s
        → s.dispatcher ≡ running n current tasks
        → tasks j ≡ waiting w id ch
        → IsIn fl prepare cfg worker a s
        → ((i : ℕ) → (s.clients i).num_render_tasks + 1 < 2 ^ 32)
        → Finishes fl prepare cfg worker a s n current j tasks 1
    waiting-Finishes s tasks w id ch v ran e member room = elim (ℕ_discrete w a) [
      | yes own ↦
          loosen fl prepare cfg worker a s tasks 0 1 (omega arith)
            (own-Finishes s tasks id ch v ran (e ∙ ap (λ x. waiting x id ch) own))
      | no _ ↦
          let step =
            task_step fl prepare cfg worker a s s n current j tasks (waiting w id ch) _ ran lt e
              (time_out (IsIn-Picks fl prepare cfg worker a s member)) in
          let tasks' = update tasks j (timed_out w id ch a) in
          after-Step fl prepare cfg worker a s _ n current j tasks tasks' 0 1 step tt
            (keeps refl refl refl refl refl refl) (λ i. omega arith)
            (update_other tasks j (timed_out w id ch a))
            (again-Finishes _ tasks' w id ch a 0
              (Step-Inv fl prepare cfg worker first_small small v step) refl
              (update_same tasks j (timed_out w id ch a)) member (room a)
              (λ t after id' v' ran' e' _ _. own-Finishes t after id' ch v' ran' e'))
    ]

    numbered-Finishes :
        (s : Pipeline) (tasks : ℕ → Task) (w id : ℕ)
        → Inv worker s
        → s.dispatcher ≡ running n current tasks
        → tasks j ≡ numbered w id
        → IsIn fl prepare cfg worker a s
        → ((i : ℕ) → (s.clients i).num_render_tasks + 1 < 2 ^ 32)
        → Finishes fl prepare cfg worker a s n current j tasks 1
    unfolding add_frame_batch
    numbered-Finishes s tasks w id v ran e member room =
        let step =
          task_step fl prepare cfg worker a s _ n current j tasks (numbered w id) _ ran lt e
            (assign refl refl) in
        let (_, count) =
          request_work-id prepare (s.clients w) id (start_frame_of current j)
            (end_frame_of current j) in
        after-Step fl prepare cfg worker a s _ n current j tasks
          (update tasks j (waiting w id s.next_channel)) 0 1 step tt
          (keeps refl refl refl refl refl refl) (λ i. ground arith)
          (update_other tasks j (waiting w id s.next_channel))
          (waiting-Finishes _ (update tasks j (waiting w id s.next_channel)) w id s.next_channel
            (Step-Inv fl prepare cfg worker first_small small v step) refl
            (update_same tasks j (waiting w id s.next_channel)) member
            (λ i. ground (arith, room i)))

    picked-Finishes :
        (s : Pipeline) (tasks : ℕ → Task) (w : ℕ)
        → Inv worker s
        → s.dispatcher ≡ running n current tasks
        → tasks j ≡ picked w
        → IsIn fl prepare cfg worker a s
        → ((i : ℕ) → (s.clients i).num_render_tasks + 2 < 2 ^ 32)
        → Finishes fl prepare cfg worker a s n current j tasks 2
    unfolding generate_new_render_task_id
    picked-Finishes s tasks w v ran e member room =
        let id = (s.clients w).num_render_tasks in
        let step =
          task_step fl prepare cfg worker a s _ n current j tasks (picked w) _ ran lt e
            (number (omega (arith, room w)) refl) in
        after-Step fl prepare cfg worker a s _ n current j tasks (update tasks j (numbered w id)) 1
          1 step tt (keeps refl refl refl refl refl refl) (λ i. ground arith)
          (update_other tasks j (numbered w id))
          (numbered-Finishes _ (update tasks j (numbered w id)) w id
            (Step-Inv fl prepare cfg worker first_small small v step) refl
            (update_same tasks j (numbered w id)) member (λ i. ground (arith, room i)))

    pub task-Finishes :
        (s : Pipeline) (tasks : ℕ → Task) (state : Task)
        → Inv worker s
        → s.dispatcher ≡ running n current tasks
        → tasks j ≡ state
        → IsIn fl prepare cfg worker a s
        → ((i : ℕ) → (s.clients i).num_render_tasks + 2 < 2 ^ 32)
        → Finishes fl prepare cfg worker a s n current j tasks 2
    task-Finishes s tasks spawned v ran e member room =
        let step =
          task_step fl prepare cfg worker a s _ n current j tasks spawned _ ran lt e
            (pick (IsIn-Picks fl prepare cfg worker a s member)) in
        after-Step fl prepare cfg worker a s _ n current j tasks (update tasks j (picked a)) 0 2
          step tt (keeps refl refl refl refl refl refl) (λ i. omega arith)
          (update_other tasks j (picked a))
          (picked-Finishes _ (update tasks j (picked a)) a
            (Step-Inv fl prepare cfg worker first_small small v step) refl
            (update_same tasks j (picked a)) member room)
    task-Finishes s tasks (picked w) v ran e member room =
        picked-Finishes s tasks w v ran e member room
    task-Finishes s tasks (numbered w id) v ran e member room =
        loosen fl prepare cfg worker a s tasks 1 2 (omega arith)
          (numbered-Finishes s tasks w id v ran e member (λ i. omega (arith, room i)))
    task-Finishes s tasks (waiting w id ch) v ran e member room =
        loosen fl prepare cfg worker a s tasks 1 2 (omega arith)
          (waiting-Finishes s tasks w id ch v ran e member (λ i. omega (arith, room i)))
    task-Finishes s tasks (timed_out w id ch next) v ran e member room =
        again-Finishes s tasks w id ch next 1 v ran e member (omega (arith, room next))
          (λ t after id' v' ran' e' member' grown.
            waiting-Finishes t after next id' ch v' ran' e' member'
              (λ i. omega (arith, room i, grown i)))
    task-Finishes s tasks finished v ran e member room = record {
      last = s;
      steps = stay;
      after = tasks;
      shape = ran;
      over = e;
      others = λ i ne. refl;
      kept = keeps refl refl refl refl refl refl;
      counted = λ i. omega arith;
    }
