-- ===== src/Orchestrator/BatchMap/Save/Validity.antt =====
-- The channel discipline of internal/orchestrator/batch_map.go: which entries a map may hold, and that
-- adding, removing and moving an entry keep it.
use distributed_donut.Prelude.{
  ℕ, ◌+◌, ◌%◌, ◌<◌, ◌≡◌, ◌≢◌, refl, ap, none, some, false, ◌==◌, ◌&&◌, if◌then◌else◌, arith, ok,
  ℕ_discrete, subst,
}
use distributed_donut.Protocol.{RenderTask}
use distributed_donut.Buffer.{max_frames}
use distributed_donut.Client.{Client}
use distributed_donut.Orchestrator.BatchMap.{
  FrameBatchMetadata, FrameBatchMap, add_frame_batch, delete_render_task,
  switch_render_task_executor,
}
use distributed_donut.Orchestrator.BatchMap.View.{
  find, find-add_frame_batch, find-delete_render_task, switch_moves, switch_same_client,
}

-- A task covers one batch that starts on a batch boundary inside the ring.
pub record IsBatch (task : RenderTask) : Type 0 where
  pub in_ring : task.start_frame < max_frames
  pub aligned : task.start_frame % 60 ≡ 0
  pub whole : task.end_frame ≡ task.start_frame + 59

-- Every entry has a channel of its own, which is closed exactly when the entry is completed.
pub record IsValid (fbm : FrameBatchMap) : Type 0 where
  pub batch :
      (c t : ℕ) (meta : FrameBatchMetadata)
      → find fbm.frame_batches c t ≡ some meta
      → IsBatch meta.render_task
  pub has_channel :
      (c t : ℕ) (meta : FrameBatchMetadata)
      → find fbm.frame_batches c t ≡ some meta
      → meta.done ≢ none
  pub flagged :
      (c t ch : ℕ) (meta : FrameBatchMetadata)
      → find fbm.frame_batches c t ≡ some meta
      → meta.done ≡ some ch
      → fbm.closed ch ≡ meta.completed
  pub own :
      (c t c' t' ch : ℕ) (meta meta' : FrameBatchMetadata)
      → find fbm.frame_batches c t ≡ some meta
      → find fbm.frame_batches c' t' ≡ some meta'
      → meta.done ≡ some ch
      → meta'.done ≡ some ch
      → (c ≡ c') × (t ≡ t')

closed-add_frame_batch :
    (fbm : FrameBatchMap) (c : ℕ) (meta : FrameBatchMetadata)
    → (add_frame_batch fbm c meta).closed ≡ fbm.closed
unfolding add_frame_batch
closed-add_frame_batch fbm c meta = refl

closed-delete_render_task :
    (fbm : FrameBatchMap) (c t : ℕ) → (delete_render_task fbm c t).closed ≡ fbm.closed
unfolding delete_render_task
closed-delete_render_task fbm c t = refl

-- A new task keeps the discipline if its channel is a fresh one.
pub add_frame_batch-IsValid :
    (fbm : FrameBatchMap) (c ch : ℕ) (meta : FrameBatchMetadata)
    → IsValid fbm
    → IsBatch meta.render_task
    → meta.done ≡ some ch
    → meta.completed ≡ false
    → fbm.closed ch ≡ false
    → ((c' t' : ℕ) (meta' : FrameBatchMetadata)
        → find fbm.frame_batches c' t' ≡ some meta'
        → meta'.done ≢ some ch)
    → IsValid (add_frame_batch fbm c meta)
add_frame_batch-IsValid fbm c ch meta v b d incomplete opened fresh = record {
  batch =
      λ c' t' meta' e. ground (arith, find-add_frame_batch fbm c meta c' t', v.batch c' t' meta');
  has_channel = λ c' t' meta' e.
      ground (arith, find-add_frame_batch fbm c meta c' t', v.has_channel c' t' meta');
  flagged = λ c' t' ch' meta' e d'. ground (
    arith,
    closed-add_frame_batch fbm c meta,
    find-add_frame_batch fbm c meta c' t',
    v.flagged c' t' ch' meta',
  );
  own = λ c' t' c'' t'' ch' meta' meta'' e e' d' d''. ground (
    arith,
    find-add_frame_batch fbm c meta c' t',
    find-add_frame_batch fbm c meta c'' t'',
    v.own c' t' c'' t'' ch' meta' meta'',
    fresh c' t' meta',
    fresh c'' t'' meta'',
  );
}

-- Removing an entry keeps it.
pub delete_render_task-IsValid :
    (fbm : FrameBatchMap) (c t : ℕ) → IsValid fbm → IsValid (delete_render_task fbm c t)
delete_render_task-IsValid fbm c t v = record {
  batch = λ c' t' meta e. ground (arith, find-delete_render_task fbm c t c' t', v.batch c' t' meta);
  has_channel = λ c' t' meta e.
      ground (arith, find-delete_render_task fbm c t c' t', v.has_channel c' t' meta);
  flagged = λ c' t' ch meta e d. ground (
    arith,
    closed-delete_render_task fbm c t,
    find-delete_render_task fbm c t c' t',
    v.flagged c' t' ch meta,
  );
  own = λ c' t' c'' t'' ch meta meta' e e' d d'. ground (
    arith,
    find-delete_render_task fbm c t c' t',
    find-delete_render_task fbm c t c'' t'',
    v.own c' t' c'' t'' ch meta meta',
  );
}

-- An entry that moves to another key takes its channel along.
moved-IsValid :
    (fbm fbm' : FrameBatchMap) (c t c₁ t₁ : ℕ) (meta : FrameBatchMetadata)
    → IsValid fbm
    → find fbm.frame_batches c t ≡ some meta
    → ((c' t' : ℕ)
        → find fbm'.frame_batches c' t' ≡ (
            if c == c' && t == t'
            then none
            else if c₁ == c' && t₁ == t'
            then some meta
            else find fbm.frame_batches c' t'))
    → fbm'.closed ≡ fbm.closed
    → IsValid fbm'
moved-IsValid fbm fbm' c t c₁ t₁ meta v held table same = record {
  batch = λ c' t' meta' e. ground (arith, table c' t', v.batch c t meta, v.batch c' t' meta');
  has_channel = λ c' t' meta' e.
      ground (arith, table c' t', v.has_channel c t meta, v.has_channel c' t' meta');
  flagged = λ c' t' ch meta' e d.
      ground (arith, same, table c' t', v.flagged c t ch meta, v.flagged c' t' ch meta');
  own = λ c' t' c'' t'' ch meta' meta'' e e' d d'. ground (
    arith,
    table c' t',
    table c'' t'',
    v.own c t c'' t'' ch meta meta'',
    v.own c' t' c t ch meta' meta,
    v.own c' t' c'' t'' ch meta' meta'',
  );
}

-- Switching a pending task to another client keeps it, and the buffer and the channels are untouched.
pub switch_render_task_executor-IsValid :
    (fbm fbm' : FrameBatchMap) (t c t' : ℕ) (new_client new_client' : Client)
    (meta : FrameBatchMetadata)
    → IsValid fbm
    → find fbm.frame_batches c t ≡ some meta
    → switch_render_task_executor fbm t c new_client ≡ ok (t', fbm', new_client')
    → IsValid fbm'
switch_render_task_executor-IsValid fbm fbm' t c t' new_client new_client' meta v held h =
    elim (ℕ_discrete c new_client.id) [
      | yes same ↦ cc (
        switch_same_client fbm t new_client,
        ap (λ k. switch_render_task_executor fbm t k new_client) same,
      )
      | no ne ↦
          let (f, e, table, _, closed, _) = switch_moves fbm t c new_client meta ne held in
          let result : f ≡ fbm' = cc (e, h) in
          subst IsValid result (
            moved-IsValid fbm f c t new_client.id new_client.num_render_tasks meta v held table
              closed)
    ]
