-- ===== src/Orchestrator/BatchMap/View.antt =====
-- The batch map seen as one table from a client and a task id to the task: the nested maps, their
-- creation and their clean-up do not show.
use distributed_donut.Prelude.{
  ℕ, ◌≡◌, ◌≢◌, refl, Option, none, some, ◌==◌, ◌&&◌, if◌then◌else◌, arith, length, ok, u32, ◌+◌,
  inl, inr, Bool-cases, panic, same_client, [],
}
use distributed_donut.Prelude.Map.{
  Map, lookup, insert, delete, lookup-insert, lookup-nil, lookup-delete, lookup-length_zero,
  length-insert-pos,
}
use distributed_donut.Client.{Client}
use distributed_donut.Orchestrator.BatchMap.{
  FrameBatchMetadata, FrameBatchMap, tasks_of, put, drop_task, add_frame_batch, delete_render_task,
  switch_render_task_executor,
}

abbrev Tasks : Type 0
Tasks = Map (Map FrameBatchMetadata)

unfoldable pub find : Tasks → ℕ → ℕ → Option FrameBatchMetadata
find m c t = lookup t (tasks_of m c)

pub find-nil : (c t : ℕ) → find [] c t ≡ none
unfolding find
find-nil c t =
    rw (lookup-nil {V = Map FrameBatchMetadata} c) (lookup-nil {V = FrameBatchMetadata} t)

pub find-put :
    (m : Tasks) (c t : ℕ) (meta : FrameBatchMetadata) (c' t' : ℕ)
    → find (put m c t meta) c' t' ≡ (if c == c' && t == t' then some meta else find m c' t')
unfolding find put
find-put m c t meta c' t' = ground (
  arith,
  lookup-insert c' c (insert t meta (tasks_of m c)) m,
  lookup-insert t' t meta (tasks_of m c),
)

find-delete :
    (m : Tasks) (c c' t' : ℕ) → find (delete c m) c' t' ≡ (if c == c' then none else find m c' t')
unfolding find
find-delete m c c' t' = ground (arith, lookup-delete c' c m, lookup-nil {V = FrameBatchMetadata} t')

find-insert :
    (m : Tasks) (c : ℕ) (tasks : Map FrameBatchMetadata) (c' t' : ℕ)
    → find (insert c tasks m) c' t' ≡ (if c == c' then lookup t' tasks else find m c' t')
unfolding find
find-insert m c tasks c' t' = ground (arith, lookup-insert c' c tasks m)

pub find-drop_task :
    (m : Tasks) (c t c' t' : ℕ)
    → find (drop_task m c t) c' t' ≡ (if c == c' && t == t' then none else find m c' t')
unfolding drop_task
find-drop_task m c t c' t' = elim (Bool-cases (length left == 0)) [
  | inl e ↦ rw (e, find-delete m c c' t') (ground (arith, own, lookup-length_zero t' left))
  | inr e ↦ rw (e, find-insert m c left c' t') (ground (arith, own))
]
  where
    left : Map FrameBatchMetadata
    left = delete t (tasks_of m c)

    own : lookup t' left ≡ (if t == t' then none else find m c t')
    own = unfold find in lookup-delete t' t (tasks_of m c)

-- No client is listed without a task.
abbrev pub IsTidy : Tasks → Type 0
IsTidy m = (c : ℕ) → lookup c m ≢ some []

pub put-IsTidy :
    (m : Tasks) (c t : ℕ) (meta : FrameBatchMetadata) → IsTidy m → IsTidy (put m c t meta)
unfolding put
put-IsTidy m c t meta tidy c' = ground (
  arith,
  tidy c',
  lookup-insert c' c (insert t meta (tasks_of m c)) m,
  length-insert-pos t meta (tasks_of m c),
)

pub drop_task-IsTidy : (m : Tasks) (c t : ℕ) → IsTidy m → IsTidy (drop_task m c t)
unfolding drop_task
drop_task-IsTidy m c t tidy c' =
    ground (arith, tidy c', lookup-insert c' c (delete t (tasks_of m c)) m, lookup-delete c' c m)

-- `AddFrameBatch`, `DeleteRenderTask` and `SwitchRenderTaskExecutor` as updates of the table: they add
-- one entry, remove one, or move one, and leave every other entry as it was.
pub find-add_frame_batch :
    (fbm : FrameBatchMap) (c : ℕ) (meta : FrameBatchMetadata) (c' t' : ℕ)
    → find (add_frame_batch fbm c meta).frame_batches c' t'
      ≡ (if c == c' && meta.render_task.id == t' then some meta else find fbm.frame_batches c' t')
unfolding add_frame_batch
find-add_frame_batch fbm c meta c' t' = find-put fbm.frame_batches c meta.render_task.id meta c' t'

pub find-delete_render_task :
    (fbm : FrameBatchMap) (c t c' t' : ℕ)
    → find (delete_render_task fbm c t).frame_batches c' t'
      ≡ (if c == c' && t == t' then none else find fbm.frame_batches c' t')
unfolding delete_render_task
find-delete_render_task fbm c t c' t' = find-drop_task fbm.frame_batches c t c' t'

switched : Tasks → ℕ → ℕ → Client → FrameBatchMetadata → Tasks
switched m t c new_client meta =
    drop_task (put m new_client.id new_client.num_render_tasks meta) c t

switch-eq :
    (fbm : FrameBatchMap) (t c : ℕ) (new_client : Client) (meta : FrameBatchMetadata)
    → c ≢ new_client.id
    → find fbm.frame_batches c t ≡ some meta
    → switch_render_task_executor fbm t c new_client
      ≡ ok (
        new_client.num_render_tasks,
        record fbm { frame_batches = switched fbm.frame_batches t c new_client meta },
        record new_client { num_render_tasks = u32 (new_client.num_render_tasks + 1) },
      )
unfolding switch_render_task_executor find switched
switch-eq fbm t c new_client meta ne e = rw e (ground arith)

find-switched :
    (m : Tasks) (t c : ℕ) (new_client : Client) (meta : FrameBatchMetadata) (c' t' : ℕ)
    → find (switched m t c new_client meta) c' t' ≡ (
        if c == c' && t == t'
        then none
        else if new_client.id == c' && new_client.num_render_tasks == t'
        then some meta
        else find m c' t')
unfolding switched
find-switched m t c new_client meta c' t' = rw (
  find-drop_task (put m new_client.id new_client.num_render_tasks meta) c t c' t',
  find-put m new_client.id new_client.num_render_tasks meta c' t',
)

pub switch_moves :
    (fbm : FrameBatchMap) (t c : ℕ) (new_client : Client) (meta : FrameBatchMetadata)
    → c ≢ new_client.id
    → find fbm.frame_batches c t ≡ some meta
    → (fbm' : FrameBatchMap) × (switch_render_task_executor fbm t c new_client
        ≡ ok (
          new_client.num_render_tasks,
          fbm',
          record new_client { num_render_tasks = u32 (new_client.num_render_tasks + 1) },
        ))
      × ((c' t' : ℕ)
          → find fbm'.frame_batches c' t' ≡ (
              if c == c' && t == t'
              then none
              else if new_client.id == c' && new_client.num_render_tasks == t'
              then some meta
              else find fbm.frame_batches c' t'))
      × (fbm'.buffer ≡ fbm.buffer)
      × (fbm'.closed ≡ fbm.closed)
      × (IsTidy fbm.frame_batches → IsTidy fbm'.frame_batches)
unfolding switched
switch_moves fbm t c new_client meta ne e = (
  record fbm { frame_batches = switched fbm.frame_batches t c new_client meta },
  switch-eq fbm t c new_client meta ne e,
  find-switched fbm.frame_batches t c new_client meta,
  refl,
  refl,
  λ tidy.
      drop_task-IsTidy _ c t
        (put-IsTidy fbm.frame_batches new_client.id new_client.num_render_tasks meta tidy),
)

-- A task that is switched keeps its metadata, its channel included, and stands under the new client's
-- next id alone.
pub switch_render_task_executor_lem :
    (fbm : FrameBatchMap) (t c : ℕ) (new_client : Client) (meta : FrameBatchMetadata)
    → c ≢ new_client.id
    → find fbm.frame_batches c t ≡ some meta
    → (fbm' : FrameBatchMap) × (switch_render_task_executor fbm t c new_client
        ≡ ok (
          new_client.num_render_tasks,
          fbm',
          record new_client { num_render_tasks = u32 (new_client.num_render_tasks + 1) },
        ))
      × ((c' t' : ℕ)
          → find fbm'.frame_batches c' t' ≡ (
              if c == c' && t == t'
              then none
              else if new_client.id == c' && new_client.num_render_tasks == t'
              then some meta
              else find fbm.frame_batches c' t'))
      × (fbm'.buffer ≡ fbm.buffer)
      × (fbm'.closed ≡ fbm.closed)
switch_render_task_executor_lem fbm t c new_client meta ne e =
    let (fbm', moved, tables, buffer, closed, _) = switch_moves fbm t c new_client meta ne e in
    (fbm', moved, tables, buffer, closed)

-- Between a client and itself the switch panics.
pub switch_same_client :
    (fbm : FrameBatchMap) (t : ℕ) (new_client : Client)
    → switch_render_task_executor fbm t new_client.id new_client ≡ panic same_client
unfolding switch_render_task_executor
switch_same_client fbm t new_client = ground arith
