-- ===== src/Orchestrator/Pipeline.antt =====
-- The goroutines of internal/orchestrator/orchestrator.go as steps on the state that they share. A step is
-- what one goroutine does between two points where others may run: a call that holds a mutex is one
-- step, and so is a wait that returns. RequestWork, which touches nothing but its client's queue, is taken
-- with the call before it, and a task whose channel is closed is deleted in the step that sees it. The clients
-- are a store by id, and the pool is the ids in it. What a worker returns for the batch that starts at a
-- frame is a parameter, `worker`, a predicate on frames. The sleeps and the pauses only delay steps.
pub mod Steps
pub mod Batches
pub mod Invariant
pub mod Playback
pub mod Rounds
pub mod Framing
pub mod Slots
pub mod Tables
pub mod Tasks
pub mod Results
pub mod Stream
pub mod Progress
pub mod Broadcast
pub mod Calls
pub mod Waking
pub mod Onward
mod Tests
use distributed_donut.Prelude.{
  ℕ, zero, suc, ◌+◌, ◌-◌, ◌*◌, ◌%◌, ◌<◌, List, Option, Outcome, ok, ◌>>=◌, Bool, true, false,
  if◌then◌else◌, u32, ◌==◌,
}
use distributed_donut.Protocol.{frames_per_batch}
use distributed_donut.Buffer.{FrameBuffer, max_frames, new_frame_buffer}
use distributed_donut.Client.{Client}
use distributed_donut.Client.Pool.{ClientPool}
use distributed_donut.Orchestrator.BatchMap.{
  FrameBatchMap, new_frame_batch_map, switch_render_task_executor,
}

-- A goroutine of `dispatchRenderTask`: between its calls, what it holds.
pub data Task : Type 0 where
  -- before PickNewClient
  spawned : Task
  -- before GenerateNewRenderTaskID
  picked : (worker : ℕ) → Task
  -- before AddFrameBatch
  numbered : (worker id : ℕ) → Task
  -- in the select
  waiting : (worker id done : ℕ) → Task
  -- after the timeout's PickNewClient
  timed_out : (worker id done next : ℕ) → Task
  finished : Task

-- The goroutine of `dispatcher`.
pub data Dispatcher : Type 0 where
  -- in WaitForRoom
  parked : Dispatcher
  -- past WaitForRoom, before GetNextFrameNumber
  admitted : (batches : ℕ) → Dispatcher
  -- in wg.Wait, with the goroutines of the round
  running : (batches current_frame : ℕ) (tasks : ℕ → Task) → Dispatcher

-- The goroutine of `broadcaster`.
pub data Broadcaster : Type 0 where
  -- in WaitUntilBufferSizeEnoughForBroadcast
  resting : Broadcaster
  -- before GetFramesToBroadcast
  ready : (seconds : ℕ) → Broadcaster
  -- before Broadcast
  copied : (seconds : ℕ) (frames : List ℕ) → Broadcaster
  -- before RemoveSentFramesFromBuffer
  sent : (seconds : ℕ) → Broadcaster

-- `clients` are the clients that connect, by id, and `pool` are those in the pool at the moment. `dispatcher_met` and
-- `broadcaster_met` are whether WaitForAtLeastOne has let the loop go on since the wait for the buffer.
-- `stream` is every byte broadcast so far.
pub record Pipeline : Type 0 where
  pub batch_map : FrameBatchMap
  pub clients : ℕ → Client
  pub pool : List ℕ
  pub dispatcher_met : Bool
  pub broadcaster_met : Bool
  pub next_channel : ℕ
  pub dispatcher : Dispatcher
  pub is_first_round : Bool
  pub broadcaster : Broadcaster
  pub is_first_broadcast : Bool
  pub stream : List ℕ

-- `currentFrame` after `j` turns of the loop that starts the round
unfoldable pub current_frame_after : ℕ → ℕ → ℕ
current_frame_after current zero = current
current_frame_after current (suc j) = u32 (current_frame_after current j + frames_per_batch)

unfoldable pub start_frame_of : ℕ → ℕ → ℕ
unfolding current_frame_after
start_frame_of current j = current_frame_after current j % max_frames

unfoldable pub end_frame_of : ℕ → ℕ → ℕ
unfolding current_frame_after
end_frame_of current j = u32 (current_frame_after current j + frames_per_batch - 1) % max_frames

abbrev pub update {ℓ} : {A : Type ℓ} → (ℕ → A) → ℕ → A → ℕ → A
update f i a k = if i == k then a else f k

abbrev pub idle_client : ℕ → Client
idle_client i = record {
  id = i;
  conn_open = true;
  num_render_tasks = 0;
  send = List.[];
  quit = false;
  closed = false;
  pooled = true;
}

-- the clients before they join the pool
abbrev pub unjoined : ℕ → Client
unjoined i = record (idle_client i) { pooled = false }

-- The pool that the loops share with the server. Its cap is nothing to them.
abbrev pub pool_of : Pipeline → ClientPool
pool_of s = record { store = s.clients; clients = s.pool; max_clients = 0 }

-- The end of a timeout in `dispatchRenderTask`, from the client `w` and the `id` of the task and the client
-- picked `next`: the task's client and id from then on, the batch map, and the client that is asked.
unfoldable pub reassign :
    FrameBatchMap → (ℕ → Client) → (w id next : ℕ) → Outcome (ℕ × ℕ × FrameBatchMap × Client)
unfolding switch_render_task_executor
reassign bm clients w id next =
    if (clients next).id == (clients w).id then ok (w, id, bm, clients w) else (do
      (id', bm', c') ← switch_render_task_executor bm id (clients w).id (clients next)
      ok (next, id', bm', c'))

-- The state in which `Run` starts the loops: nobody is in the pool.
unfoldable pub start : Pipeline
unfolding new_frame_batch_map new_frame_buffer
start = record {
  batch_map = new_frame_batch_map new_frame_buffer;
  clients = unjoined;
  pool = List.[];
  dispatcher_met = false;
  broadcaster_met = false;
  next_channel = 0;
  dispatcher = parked;
  is_first_round = true;
  broadcaster = resting;
  is_first_broadcast = true;
  stream = List.[];
}
