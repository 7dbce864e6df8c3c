-- ===== src/Orchestrator/Pipeline/Tasks/Moves.antt =====
-- The steps of a task other than a switch keep the invariant.
use distributed_donut.Prelude.{
  ℕ, suc, ◌+◌, ◌*◌, ◌<◌, ◌≡◌, ◌^◌, refl, sym, ap, subst, ◌∙◌, List, none, true, inl, inr, arith,
  u32, Option-cases,
}
use distributed_donut.Protocol.{batch_size, new_render_task}
use distributed_donut.Buffer.{buffer_size}
use distributed_donut.Client.{Client, generate_new_render_task_id}
use distributed_donut.Orchestrator.BatchMap.{
  new_frame_batch_metadata, add_frame_batch, delete_render_task,
}
use distributed_donut.Orchestrator.BatchMap.View.{
  find, find-add_frame_batch, find-delete_render_task,
}
use distributed_donut.Orchestrator.BatchMap.Save.{IsBatch}
use distributed_donut.Orchestrator.Pipeline.{
  Pipeline, Task, spawned, picked, numbered, waiting, timed_out, finished, running, update,
  start_frame_of, end_frame_of,
}
use distributed_donut.Orchestrator.Pipeline.Invariant.{Owns, TaskOk, Inv}
use distributed_donut.Orchestrator.Pipeline.Framing.{Round-update}
use distributed_donut.Orchestrator.Pipeline.Slots.{
  start_frame_eq, frame-IsBatch, frame_at_inj, key-cases,
}
use distributed_donut.Orchestrator.Pipeline.Tables.{Common-clients, Common-add, Common-delete}
use distributed_donut.Orchestrator.Pipeline.Tasks.Stepped.{round, held, stepped, stepped-Inv, calm}

module _ (worker : ℕ → List ℕ → Type 0) (s : Pipeline) (v : Inv worker s) (n current : ℕ)
    (tasks : ℕ → Task) (ran : s.dispatcher ≡ running n current tasks) (j : ℕ) (lt : j < n) where
  pub pick-Inv :
      (w : ℕ)
      → tasks j ≡ spawned
      → Inv worker (
          stepped worker s v n current tasks ran j lt s.batch_map s.clients s.next_channel
            (picked w))
  pick-Inv w e =
      calm worker s v n current tasks ran j lt s.clients (picked w) (λ i. refl) (λ i. omega arith)
        tt (λ c t o. rw e at o) (λ w' id e'. ground arith)

  pub time_out-Inv :
      (w id ch next : ℕ)
      → tasks j ≡ waiting w id ch
      → Inv worker (
          stepped worker s v n current tasks ran j lt s.batch_map s.clients s.next_channel
            (timed_out w id ch next))
  time_out-Inv w id ch next e =
      calm worker s v n current tasks ran j lt s.clients (timed_out w id ch next) (λ i. refl)
        (λ i. omega arith) (held worker s v n current tasks ran j lt (waiting w id ch) e)
        (λ c t o. rw e at o) (λ w' id' e'. ground arith)

  pub retry-Inv :
      (w id ch next : ℕ) (c : Client)
      → tasks j ≡ timed_out w id ch next
      → c.id ≡ (s.clients w).id
      → c.num_render_tasks ≡ (s.clients w).num_render_tasks
      → Inv worker (
          stepped worker s v n current tasks ran j lt s.batch_map
            (update s.clients w c)
            s.next_channel
            (waiting w id ch))
  retry-Inv w id ch next c e same more =
      calm worker s v n current tasks ran j lt (update s.clients w c) (waiting w id ch)
        (λ i. ground arith) (λ i. ground arith)
        (held worker s v n current tasks ran j lt (timed_out w id ch next) e) (λ c t o. rw e at o)
        (λ w' id' e'. ground arith)

  pub number-Inv :
      (w id : ℕ) (c : Client)
      → tasks j ≡ picked w
      → (s.clients w).num_render_tasks + 1 < 2 ^ 32
      → generate_new_render_task_id (s.clients w) ≡ (id, c)
      → Inv worker (
          stepped worker s v n current tasks ran j lt s.batch_map
            (update s.clients w c)
            s.next_channel
            (numbered w id))
  unfolding generate_new_render_task_id
  number-Inv w id c e small h =
      let new_id : (s.clients w).num_render_tasks ≡ id = ap (λ r. r.0) h in
      let new : record (s.clients w) { num_render_tasks = u32 ((s.clients w).num_render_tasks + 1) }
          ≡ c =
        ap (λ r. r.1) h in
      let same : (s.clients w).id ≡ c.id = ap Client.id new in
      let more : (s.clients w).num_render_tasks + 1 ≡ c.num_render_tasks =
        omega (arith, ap Client.num_render_tasks new) in
      let free : find s.batch_map.frame_batches w id ≡ none =
        elim (Option-cases (find s.batch_map.frame_batches w id)) [
          | inl none_there ↦ none_there
          | inr (meta, there) ↦ absurd (omega (arith, v.common.issued w id meta there))
        ] in
      calm worker s v n current tasks ran j lt (update s.clients w c) (numbered w id)
        (λ i. ground arith) (λ i. ground arith) (ground arith, free) (λ c t o. rw e at o)
        (λ w' id' e' i below ne e''.
          let o : TaskOk worker s.batch_map s.clients (s.batch_map.buffer.head + i * batch_size)
              (numbered w' id') =
            subst (TaskOk worker s.batch_map s.clients (s.batch_map.buffer.head + i * batch_size))
              e'' ((round worker s v n current tasks ran j lt).agree i below) in
          let less = o.0 in ground arith)

  pub done-Inv :
      (w id ch : ℕ)
      → tasks j ≡ waiting w id ch
      → s.batch_map.closed ch ≡ true
      → Inv worker (
          stepped worker s v n current tasks ran j lt
            (delete_render_task s.batch_map w id)
            s.clients
            s.next_channel
            finished)
  unfolding delete_render_task
  done-Inv w id ch e closed =
      let (meta, there, d, first, filled) =
        held worker s v n current tasks ran j lt (waiting w id ch) e in
      let table = find-delete_render_task s.batch_map w id in
      stepped-Inv worker s v n current tasks ran j lt (delete_render_task s.batch_map w id)
        s.clients s.next_channel finished refl
        (Common-delete worker s.batch_map s.clients s.next_channel v.common w id)
        (Round-update worker s.batch_map (delete_render_task s.batch_map w id) s.clients s.clients n
          current j tasks finished (round worker s v n current tasks ran j lt) refl
          (λ i. omega arith) lt
          (filled (sym (v.common.discipline.flagged w id ch meta there d) ∙ closed))
          (λ i below ne. (
            λ w' id' e' free. ground (arith, table w' id'),
            λ c t meta' o there' first'. ground (
              arith,
              table c t,
              frame_at_inj s.batch_map.buffer n i j v.common.ring
                  (round worker s v n current tasks ran j lt).fits below lt,
            ),
          ))
          (λ c t meta' e'. inr (
            meta',
            ground (arith, table c t),
            λ o.
                let o' : Owns (waiting w id ch) c t = rw e at o in
                let same_client = o'.0 in let same_task = o'.1 in ground (arith, table c t),
          ))
          (λ w' id' e'. ground arith))

  pub assign-Inv :
      (w id first last : ℕ) (c : Client)
      → tasks j ≡ numbered w id
      → first ≡ start_frame_of current j
      → last ≡ end_frame_of current j
      → c.id ≡ (s.clients w).id
      → c.num_render_tasks ≡ (s.clients w).num_render_tasks
      → Inv worker (
          stepped worker s v n current tasks ran j lt
            (add_frame_batch s.batch_map w (new_frame_batch_metadata s.next_channel id first last))
            (update s.clients w c)
            (suc s.next_channel)
            (waiting w id s.next_channel))
  unfolding add_frame_batch new_frame_batch_metadata new_render_task
  assign-Inv w id first last c e a b same more =
      let (lt_id, free) = held worker s v n current tasks ran j lt (numbered w id) e in
      let meta = new_frame_batch_metadata s.next_channel id first last in
      let bm = add_frame_batch s.batch_map w meta in
      let table = find-add_frame_batch s.batch_map w meta in
      let fb = s.batch_map.buffer in
      let close : fb.head + j * batch_size < fb.tail + buffer_size =
        omega (arith, (round worker s v n current tasks ran j lt).fits) in
      let batch : IsBatch meta.render_task =
        rw (a, b)
          (frame-IsBatch fb v.common.ring current j
            (round worker s v n current tasks ran j lt).starts close id) in
      let start_eq =
        start_frame_eq fb v.common.ring current j (round worker s v n current tasks ran j lt).starts
          close in
      stepped-Inv worker s v n current tasks ran j lt bm (update s.clients w c) (suc s.next_channel)
        (waiting w id s.next_channel) refl
        (Common-clients worker bm s.clients (update s.clients w c) (suc s.next_channel)
          (λ i. ground arith) (λ i. ground arith)
          (Common-add worker s.batch_map s.clients s.next_channel v.common w id meta batch refl refl
            refl lt_id))
        (Round-update worker s.batch_map bm s.clients (update s.clients w c) n current j tasks
          (waiting w id s.next_channel) (round worker s v n current tasks ran j lt) refl
          (λ i. ground arith) lt
          (meta, ground (arith, table w id), refl, a ∙ start_eq, λ done. absurd cc)
          (λ i below ne. (
            λ w' id' e' free'. ground (
              arith,
              table w' id',
              (round worker s v n current tasks ran j lt).once i j w' id' below lt e',
            ),
            λ c' t' meta' o there first'. ground (arith, table c' t'),
          ))
          (λ c' t' meta' e'. elim (key-cases w id c' t') [
            | inl own ↦ inl own
            | inr other ↦ inr (
              meta',
              ground (arith, table c' t', other),
              λ o. absurd (subst (λ task. Owns task c' t') e o),
            )
          ])
          (λ w' id' e'. ground arith))
