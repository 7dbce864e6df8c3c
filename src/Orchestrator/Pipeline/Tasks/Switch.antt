-- ===== src/Orchestrator/Pipeline/Tasks/Switch.antt =====
-- A switch of a task to another client keeps the invariant.
use distributed_donut.Prelude.{
  ℕ, ◌+◌, ◌*◌, ◌≤◌, ◌<◌, ◌≡◌, ◌≢◌, ◌^◌, sym, ap, subst, ◌∙◌, List, none, some, inl, inr, arith,
  ◌==◌, ◌&&◌, if◌then◌else◌, u32, ok,
}
use distributed_donut.Protocol.{batch_size}
use distributed_donut.Client.{Client}
use distributed_donut.Orchestrator.BatchMap.{
  FrameBatchMap, FrameBatchMetadata, switch_render_task_executor,
}
use distributed_donut.Orchestrator.BatchMap.View.{find, switch_moves}
use distributed_donut.Orchestrator.BatchMap.Save
use distributed_donut.Orchestrator.BatchMap.Save.{
  IsBatch, add_frame_batch-IsValid, delete_render_task-IsValid, switch_render_task_executor-IsValid,
}
use distributed_donut.Orchestrator.Pipeline.{Pipeline, Task, waiting, timed_out, running, update}
use distributed_donut.Orchestrator.Pipeline.Invariant.{Owns, TaskOk, Inv}
use distributed_donut.Orchestrator.Pipeline.Framing.{Round-update}
use distributed_donut.Orchestrator.Pipeline.Slots.{frame_at_inj, key-cases}
use distributed_donut.Orchestrator.Pipeline.Tables.{Common-clients, Moved, Common-Moved}
use distributed_donut.Orchestrator.Pipeline.Tasks.Stepped.{round, held, stepped, stepped-Inv}

module _ (worker : ℕ → List ℕ → Type 0) (s : Pipeline) (v : Inv worker s) (n current : ℕ)
    (tasks : ℕ → Task) (ran : s.dispatcher ≡ running n current tasks) (j : ℕ) (lt : j < n) where
  switch-Inv :
      (w id ch next : ℕ) (bm : FrameBatchMap) (meta : FrameBatchMetadata) (c : Client)
      → tasks j ≡ timed_out w id ch next
      → w ≢ next
      → find s.batch_map.frame_batches w id ≡ some meta
      → Moved s.batch_map bm w id next (s.clients next).num_render_tasks meta
      → c.id ≡ (s.clients next).id
      → c.num_render_tasks ≡ (s.clients next).num_render_tasks + 1
      → Inv worker (
          stepped worker s v n current tasks ran j lt bm
            (update s.clients next c)
            s.next_channel
            (waiting next (s.clients next).num_render_tasks ch))
  switch-Inv w id ch next bm meta c e ne there moved same more =
      let (meta', there', d, first, filled) =
        held worker s v n current tasks ran j lt (timed_out w id ch next) e in
      let one : meta' ≡ meta = ground arith in
      let (table, buffer, _, _) = moved in
      let clients = update s.clients next c in
      let grown : (i : ℕ) → (s.clients i).num_render_tasks ≤ (clients i).num_render_tasks =
        λ i. ground arith in
      let new_id = (s.clients next).num_render_tasks in
      let task = waiting next new_id ch in
      stepped-Inv worker s v n current tasks ran j lt bm clients s.next_channel task buffer
        (Common-Moved worker s.batch_map bm clients s.next_channel w id next new_id ch meta
          (Common-clients worker s.batch_map s.clients clients s.next_channel (λ i. ground arith)
            grown v.common)
          moved there (ground arith))
        (Round-update worker s.batch_map bm s.clients clients n current j tasks task
          (round worker s v n current tasks ran j lt) buffer grown lt
          (
            meta,
            ground (arith, table next new_id),
            ground arith,
            ground arith,
            λ done. rw buffer (filled (ground arith)),
          )
          (λ i below ne'. (
            λ w' id' e' free'.
                let o =
                  subst
                    (TaskOk worker s.batch_map s.clients (s.batch_map.buffer.head + i * batch_size))
                    e' ((round worker s v n current tasks ran j lt).agree i below) in
                let less : id' < (s.clients w').num_render_tasks = o.0 in
                ground (arith, table w' id'),
            λ c' t' meta'' o there'' first'. ground (
              arith,
              table c' t',
              v.common.issued c' t' meta'',
              frame_at_inj s.batch_map.buffer n i j v.common.ring
                  (round worker s v n current tasks ran j lt).fits below lt,
            ),
          ))
          (λ c' t' meta'' e'. elim (key-cases next new_id c' t') [
            | inl own ↦ inl own
            | inr other ↦ inr (
              meta'',
              ground (arith, table c' t', other),
              λ o.
                  let o' : Owns (timed_out w id ch next) c' t' =
                    subst (λ task. Owns task c' t') e o in
                  let same_client = o'.0 in let same_task = o'.1 in ground (arith, table c' t'),
            )
          ])
          (λ w' id' e'. ground arith))

  pub switch_executor-Inv :
      (w id ch next id' : ℕ) (bm : FrameBatchMap) (c' c : Client)
      → tasks j ≡ timed_out w id ch next
      → (s.clients next).id ≢ (s.clients w).id
      → (s.clients next).num_render_tasks + 1 < 2 ^ 32
      → switch_render_task_executor s.batch_map id (s.clients w).id (s.clients next)
        ≡ ok (id', bm, c')
      → c.id ≡ c'.id
      → c.num_render_tasks ≡ c'.num_render_tasks
      → Inv worker (
          stepped worker s v n current tasks ran j lt bm
            (update s.clients next c)
            s.next_channel
            (waiting next id' ch))
  switch_executor-Inv w id ch next id' bm c' c e ne small h same more =
      let (meta, there, _, _, _) =
        held worker s v n current tasks ran j lt (timed_out w id ch next) e in
      let new_client = s.clients next in
      let apart : w ≢ new_client.id = λ k. ne (sym k ∙ sym (v.common.ids w)) in
      let h' : switch_render_task_executor s.batch_map id w new_client ≡ ok (id', bm, c') =
        subst (λ k. switch_render_task_executor s.batch_map id k new_client ≡ ok (id', bm, c'))
          (v.common.ids w) h in
      let (f, eq, table, buffer, closed, _) =
        switch_moves s.batch_map id w new_client meta apart there in
      let new_id : new_client.num_render_tasks ≡ id' = cc (eq, h') in
      let new_map : f ≡ bm = cc (eq, h') in
      let counted : record new_client { num_render_tasks = u32 (new_client.num_render_tasks + 1) }
          ≡ c' =
        cc (eq, h') in
      let valid : Save.IsValid bm =
        switch_render_task_executor-IsValid s.batch_map bm id w id' new_client c' meta
          v.common.discipline there h' in
      let moved : Moved s.batch_map bm w id next new_client.num_render_tasks meta = (
        λ i t.
            ap (λ (b : FrameBatchMap). find b.frame_batches i t) (sym new_map)
            ∙ table i t
            ∙ ap
                (λ k.
                  if w == i && id == t
                  then none
                  else if k == i && new_client.num_render_tasks == t
                  then some meta
                  else find s.batch_map.frame_batches i t)
                (v.common.ids next),
        sym (ap FrameBatchMap.buffer new_map) ∙ buffer,
        sym (ap FrameBatchMap.closed new_map) ∙ closed,
        valid,
      ) in
      subst
        (λ k. Inv worker (
          stepped worker s v n current tasks ran j lt bm (update s.clients next c) s.next_channel
            (waiting next k ch)))
        new_id
        (switch-Inv w id ch next bm meta c e (λ k. apart (k ∙ sym (v.common.ids next))) there moved
          (same ∙ sym (ap Client.id counted))
          (more ∙ sym (ap Client.num_render_tasks counted) ∙ omega arith))
