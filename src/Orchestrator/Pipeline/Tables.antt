-- ===== src/Orchestrator/Pipeline/Tables.antt =====
-- What holds between the steps, when the clients' queues or the table of the batch map change.
use distributed_donut.Prelude.{
  ℕ, suc, ◌+◌, ◌%◌, ◌≤◌, ◌<◌, ◌≡◌, sym, subst, ◌∙◌, List, none, some, false, arith, ◌==◌, ◌&&◌,
  if◌then◌else◌,
}
use distributed_donut.Protocol.{batch_size}
use distributed_donut.Buffer.{FrameBuffer}
use distributed_donut.Buffer.Ring
use distributed_donut.Client.{Client}
use distributed_donut.Orchestrator.BatchMap.{
  FrameBatchMap, FrameBatchMetadata, add_frame_batch, delete_render_task,
}
use distributed_donut.Orchestrator.BatchMap.View.{
  find, find-add_frame_batch, find-delete_render_task,
}
use distributed_donut.Orchestrator.BatchMap.Save
use distributed_donut.Orchestrator.BatchMap.Save.{
  IsBatch, add_frame_batch-IsValid, delete_render_task-IsValid, switch_render_task_executor-IsValid,
}
use distributed_donut.Orchestrator.Pipeline.Batches.{Filled}
use distributed_donut.Orchestrator.Pipeline.Invariant.{Common}

pub Common-clients :
    (worker : ℕ → List ℕ → Type 0) (bm : FrameBatchMap) (clients clients' : ℕ → Client) (m : ℕ)
    → ((i : ℕ) → (clients' i).id ≡ (clients i).id)
    → ((i : ℕ) → (clients i).num_render_tasks ≤ (clients' i).num_render_tasks)
    → Common worker bm clients m
    → Common worker bm clients' m
Common-clients worker bm clients clients' m same more v = record {
  ring = v.ring;
  discipline = v.discipline;
  ids = λ i. same i ∙ v.ids i;
  opened = v.opened;
  used = v.used;
  issued = λ c t meta e. omega (arith, more c, v.issued c t meta e);
  stored = v.stored;
}

module _ (worker : ℕ → List ℕ → Type 0) (bm : FrameBatchMap) (clients : ℕ → Client) (m : ℕ)
    (v : Common worker bm clients m) where
  pub Common-add :
      (w id : ℕ) (meta : FrameBatchMetadata)
      → IsBatch meta.render_task
      → meta.render_task.id ≡ id
      → meta.done ≡ some m
      → meta.completed ≡ false
      → id < (clients w).num_render_tasks
      → Common worker (add_frame_batch bm w meta) clients (suc m)
  unfolding add_frame_batch
  Common-add w id meta batch same_id d incomplete lt = record {
    ring = v.ring;
    discipline =
        add_frame_batch-IsValid bm w m meta v.discipline batch d incomplete
          (v.opened m (omega arith)) λ c t meta' e d'. omega (arith, v.used c t m meta' e d');
    ids = v.ids;
    opened = λ ch le. v.opened ch (omega arith);
    used = λ c t ch meta' e d'.
        ground (arith, find-add_frame_batch bm w meta c t, v.used c t ch meta');
    issued = λ c t meta' e. ground (arith, find-add_frame_batch bm w meta c t, v.issued c t meta');
    stored = v.stored;
  }

  pub Common-delete : (w id : ℕ) → Common worker (delete_render_task bm w id) clients m
  unfolding delete_render_task
  Common-delete w id = record {
    ring = v.ring;
    discipline = delete_render_task-IsValid bm w id v.discipline;
    ids = v.ids;
    opened = v.opened;
    used =
        λ c t ch meta e d. ground (arith, find-delete_render_task bm w id c t, v.used c t ch meta);
    issued = λ c t meta e. ground (arith, find-delete_render_task bm w id c t, v.issued c t meta);
    stored = v.stored;
  }

-- `bm'` is `bm` with the entry at `w`, `id` moved to `w'`, `id'`.
abbrev pub Moved : FrameBatchMap → FrameBatchMap → ℕ → ℕ → ℕ → ℕ → FrameBatchMetadata → Type 0
Moved bm bm' w id w' id' meta =
    ((c t : ℕ)
      → find bm'.frame_batches c t ≡ (
          if w == c && id == t
          then none
          else if w' == c && id' == t
          then some meta
          else find bm.frame_batches c t))
    × (bm'.buffer ≡ bm.buffer)
    × (bm'.closed ≡ bm.closed)
    × Save.IsValid bm'

pub Common-Moved :
    (worker : ℕ → List ℕ → Type 0) (bm bm' : FrameBatchMap) (clients : ℕ → Client)
    (m w id w' id' ch : ℕ) (meta : FrameBatchMetadata)
    → Common worker bm clients m
    → Moved bm bm' w id w' id' meta
    → find bm.frame_batches w id ≡ some meta
    → id' < (clients w').num_render_tasks
    → Common worker bm' clients m
Common-Moved worker bm bm' clients m w id w' id' ch meta v (table, buffer, closed, valid) there lt =
    record {
      ring = subst Ring.IsValid (sym buffer) v.ring;
      discipline = valid;
      ids = v.ids;
      opened = λ c le. rw closed (v.opened c le);
      used = λ c t ch meta' e d.
          ground (arith, table c t, v.used c t ch meta', v.used w id ch meta there);
      issued = λ c t meta' e. ground (arith, table c t, v.issued c t meta');
      stored =
          subst
            (λ (fb : FrameBuffer).
              (p : ℕ)
              → p % batch_size ≡ 0
              → fb.tail ≤ p
              → p + batch_size ≤ fb.head
              → Filled worker fb.buffer p)
            (sym buffer) v.stored;
    }
