-- ===== src/Orchestrator/Pipeline/Invariant.antt =====
-- What holds between the steps of the loops: the tasks of the round, the batch map and the ring agree.
use distributed_donut.Prelude.{
  ℕ, ◌+◌, ◌*◌, ◌%◌, ◌≤◌, ◌<◌, ◌≡◌, ◌^◌, List, length, none, some, true, false,
}
use distributed_donut.Protocol.{batch_size}
use distributed_donut.Buffer.{buffer_size}
use distributed_donut.Buffer.Ring
use distributed_donut.Buffer.Ring.Write.{frame_at}
use distributed_donut.Client.{Client}
use distributed_donut.Orchestrator.BatchMap.{FrameBatchMap, FrameBatchMetadata}
use distributed_donut.Orchestrator.BatchMap.View.{find}
use distributed_donut.Orchestrator.BatchMap.Save
use distributed_donut.Orchestrator.Pipeline.{
  Pipeline, Task, spawned, picked, numbered, waiting, timed_out, finished, Dispatcher, parked,
  admitted, running, Broadcaster, resting, ready, copied, sent,
}
use distributed_donut.Orchestrator.Pipeline.Batches.{Batches, Filled}

-- the client and the id under which a task stands in the batch map
abbrev pub Owns : Task → ℕ → ℕ → Type 0
Owns (waiting w id _) c t = (w ≡ c) × (id ≡ t)
Owns (timed_out w id _ _) c t = (w ≡ c) × (id ≡ t)
Owns _ c t = ⊥

-- What no step breaks, whatever the loops are doing.
pub record Common (worker : ℕ → List ℕ → Type 0) (bm : FrameBatchMap) (clients : ℕ → Client)
    (next_channel : ℕ) : Type 0 where
  pub ring : Ring.IsValid bm.buffer
  pub discipline : Save.IsValid bm
  pub ids : (i : ℕ) → (clients i).id ≡ i
  pub opened : (ch : ℕ) → next_channel ≤ ch → bm.closed ch ≡ false
  pub used :
      (c t ch : ℕ) (meta : FrameBatchMetadata)
      → find bm.frame_batches c t ≡ some meta
      → meta.done ≡ some ch
      → ch < next_channel
  pub issued :
      (c t : ℕ) (meta : FrameBatchMetadata)
      → find bm.frame_batches c t ≡ some meta
      → t < (clients c).num_render_tasks
  pub stored :
      (p : ℕ)
      → p % batch_size ≡ 0
      → bm.buffer.tail ≤ p
      → p + batch_size ≤ bm.buffer.head
      → Filled worker bm.buffer.buffer p

module _ (worker : ℕ → List ℕ → Type 0) (bm : FrameBatchMap) (clients : ℕ → Client) where
  -- The task for the batch at `p` has its entry, and the entry is completed only once the batch is there.
  abbrev pub Pending : ℕ → ℕ → ℕ → ℕ → Type 0
  Pending p c t ch =
      (meta : FrameBatchMetadata) × (find bm.frame_batches c t ≡ some meta)
      × (meta.done ≡ some ch)
      × (meta.render_task.start_frame ≡ frame_at p)
      × (meta.completed ≡ true → Filled worker bm.buffer.buffer p)

  abbrev pub TaskOk : ℕ → Task → Type 0
  TaskOk p spawned = Unit {0}
  TaskOk p (picked w) = Unit {0}
  TaskOk p (numbered w id) =
      (id < (clients w).num_render_tasks) × (find bm.frame_batches w id ≡ none)
  TaskOk p (waiting w id ch) = Pending p w id ch
  TaskOk p (timed_out w id ch next) = Pending p w id ch
  TaskOk p finished = Filled worker bm.buffer.buffer p

  pub record Round (n current : ℕ) (tasks : ℕ → Task) : Type 0 where
    pub fits : bm.buffer.head + n * batch_size ≤ bm.buffer.tail + buffer_size
    pub starts : current ≡ frame_at bm.buffer.head
    pub agree : (j : ℕ) → j < n → TaskOk (bm.buffer.head + j * batch_size) (tasks j)
    pub owned :
        (c t : ℕ) (meta : FrameBatchMetadata)
        → find bm.frame_batches c t ≡ some meta
        → (j : ℕ) × (j < n) × Owns (tasks j) c t
    pub once :
        (j j' w id : ℕ)
        → j < n
        → j' < n
        → tasks j ≡ numbered w id
        → tasks j' ≡ numbered w id
        → j ≡ j'

  abbrev pub Vacant : Type 0
  Vacant = (c t : ℕ) → find bm.frame_batches c t ≡ none

  abbrev pub DispatcherOk : Dispatcher → Type 0
  DispatcherOk parked = Vacant
  DispatcherOk (admitted n) =
      Vacant × (bm.buffer.head + n * batch_size ≤ bm.buffer.tail + buffer_size)
  DispatcherOk (running n current tasks) = Round n current tasks

  abbrev pub BroadcasterOk : List ℕ → Broadcaster → Type 0
  BroadcasterOk stream resting = length stream ≡ bm.buffer.tail
  BroadcasterOk stream (ready k) =
      (k < 2 ^ 32)
      × (length stream ≡ bm.buffer.tail)
      × (bm.buffer.tail + k * batch_size ≤ bm.buffer.head)
  BroadcasterOk stream (copied k frames) =
      (k < 2 ^ 32)
      × (length stream ≡ bm.buffer.tail)
      × (bm.buffer.tail + k * batch_size ≤ bm.buffer.head)
      × (length frames ≡ k * batch_size)
      × Batches worker bm.buffer.tail k frames
  BroadcasterOk stream (sent k) =
      (k < 2 ^ 32)
      × (length stream ≡ bm.buffer.tail + k * batch_size)
      × (bm.buffer.tail + k * batch_size ≤ bm.buffer.head)

pub record Inv (worker : ℕ → List ℕ → Type 0) (s : Pipeline) : Type 0 where
  pub common : Common worker s.batch_map s.clients s.next_channel
  pub dispatching : DispatcherOk worker s.batch_map s.clients s.dispatcher
  pub broadcasting : BroadcasterOk worker s.batch_map s.clients s.stream s.broadcaster
  pub played : (k : ℕ) × (length s.stream ≡ k * batch_size) × Batches worker 0 k s.stream
