-- ===== src/Orchestrator/Pipeline/Steps.antt =====
-- The step relation of the loops, and the states that they reach.
use distributed_donut.Prelude.{
  ℕ, suc, ◌+◌, ◌*◌, ◌^◌, ◌<◌, ◌≡◌, ◌≢◌, List, [], ◌++◌, length, Option, some, none, Bool, true,
  false, if◌then◌else◌, ok, u32,
}
use distributed_donut.Protocol.{RenderResult, batch_size}
use distributed_donut.Buffer.{
  FrameBuffer, wait_for_room, get_next_frame_number, advance_head,
  wait_until_buffer_size_enough_for_broadcast, get_frames_to_broadcast,
  remove_sent_frames_from_buffer,
}
use distributed_donut.Buffer.Floats.{Float64}
use distributed_donut.Client.{Client, generate_new_render_task_id, request_work}
use distributed_donut.Client.Pool.{pick_new_client, wait_for_at_least_one}
use distributed_donut.Orchestrator.{Config}
use distributed_donut.Orchestrator.BatchMap.{
  FrameBatchMap, FrameBatchMetadata, new_frame_batch_metadata, add_frame_batch, delete_render_task,
  save_render_result,
}
use distributed_donut.Orchestrator.BatchMap.View.{find}
use distributed_donut.Orchestrator.Pipeline.{
  Pipeline, Task, spawned, picked, numbered, waiting, timed_out, finished, parked, admitted,
  running, resting, ready, copied, sent, update, start_frame_of, end_frame_of, start, pool_of,
  reassign,
}

-- `SecondsToBroadcast`, or what the first round and the first broadcast take in its place
abbrev pub seconds_of : Config → Bool → ℕ
seconds_of cfg is_first =
    if is_first then cfg.first_seconds_to_broadcast else cfg.seconds_to_broadcast

abbrev pub or_nil : Option (List ℕ) → List ℕ
or_nil none = []
or_nil (some frames) = frames

-- the state with another buffer
abbrev pub with_buffer : Pipeline → FrameBuffer → FrameBatchMap
with_buffer s fb = record (s.batch_map) { buffer = fb }

-- PickNewClient returns the client `w`, for the choice that rand.Intn makes among so many.
pub record Picks (s : Pipeline) (w : ℕ) : Type 0 where
  pub choose : ℕ → ℕ
  pub below : choose (length s.pool) < length s.pool
  pub picks : pick_new_client choose (pool_of s) ≡ some w

module _ (fl : Float64) (prepare : List ℕ → Option (List ℕ)) (cfg : Config)
    (worker : ℕ → List ℕ → Type 0) where
  -- A step of the goroutine of task `j`, in the round that starts at `current`.
  pub data TaskStep (s : Pipeline) (current j : ℕ) : Task → Pipeline → Task → Type 0 where
    pick : {w : ℕ} → Picks s w → TaskStep s current j spawned s (picked w)
    -- A client is given fewer than 2 ^ 32 tasks.
    number :
        {w id : ℕ} {c : Client}
        → (s.clients w).num_render_tasks + 1 < 2 ^ 32
        → generate_new_render_task_id (s.clients w) ≡ (id, c)
        → TaskStep s current j
            (picked w)
            (record s { clients = update s.clients w c })
            (numbered w id)
    -- AddFrameBatch, then RequestWork.
    assign :
        {w id first last : ℕ}
        → first ≡ start_frame_of current j
        → last ≡ end_frame_of current j
        → TaskStep s current j
            (numbered w id)
            (record s {
              batch_map =
                  add_frame_batch s.batch_map
                    (s.clients w).id
                    (new_frame_batch_metadata s.next_channel id first last);
              clients = update s.clients w (request_work prepare (s.clients w) id first last);
              next_channel = suc s.next_channel;
            })
            (waiting w id s.next_channel)
    done :
        {w id ch : ℕ}
        → s.batch_map.closed ch ≡ true
        → TaskStep s current j
            (waiting w id ch)
            (record s { batch_map = delete_render_task s.batch_map (s.clients w).id id })
            finished
    time_out :
        {w id ch next : ℕ}
        → Picks s next
        → TaskStep s current j (waiting w id ch) s (timed_out w id ch next)
    -- The task stays with its client or is switched, and RequestWork. A new client too is given fewer than
    -- 2 ^ 32 tasks.
    assign_again :
        {w id ch next w' id' : ℕ} {map' : FrameBatchMap} {c' : Client}
        → ((s.clients next).id ≢ (s.clients w).id → (s.clients next).num_render_tasks + 1 < 2 ^ 32)
        → reassign s.batch_map s.clients w id next ≡ ok (w', id', map', c')
        → TaskStep s current j
            (timed_out w id ch next)
            (record s {
              batch_map = map';
              clients =
                  update s.clients w' (
                    request_work prepare c' id'
                      (start_frame_of current j)
                      (end_frame_of current j));
            })
            (waiting w' id' ch)

  pub data Step (s : Pipeline) : Pipeline → Type 0 where
    -- the dispatcher
    admit :
        {sleep : ℕ}
        → s.dispatcher ≡ parked
        → wait_for_room fl s.batch_map.buffer
            (seconds_of cfg s.is_first_round)
            cfg.broadcast_interval
          ≡ some sleep
        → Step s (record s {
          dispatcher = admitted (seconds_of cfg s.is_first_round);
          dispatcher_met = false;
        })
    -- its WaitForAtLeastOne
    meet :
        {n : ℕ}
        → s.dispatcher ≡ admitted n
        → s.dispatcher_met ≡ false
        → wait_for_at_least_one (pool_of s) ≡ some tt
        → Step s (record s { dispatcher_met = true })
    spawn :
        {n : ℕ}
        → s.dispatcher ≡ admitted n
        → s.dispatcher_met ≡ true
        → Step s (record s {
          dispatcher = running n (u32 (get_next_frame_number s.batch_map.buffer)) (λ _. spawned);
        })
    task :
        {n current : ℕ} {tasks : ℕ → Task} {t : Pipeline} {next : Task} (j : ℕ)
        → s.dispatcher ≡ running n current tasks
        → j < n
        → TaskStep s current j (tasks j) t next
        → Step s (record t { dispatcher = running n current (update tasks j next) })
    -- The head stays below 2 ^ 63, which is millions of years of playback.
    advance :
        {n current : ℕ} {tasks : ℕ → Task}
        → s.dispatcher ≡ running n current tasks
        → ((j : ℕ) → j < n → tasks j ≡ finished)
        → s.batch_map.buffer.head + n * batch_size < 2 ^ 63
        → Step s (record s {
          batch_map = with_buffer s (advance_head s.batch_map.buffer n);
          dispatcher = parked;
          is_first_round = false;
        })
    -- HandleResult, called by the goroutine that reads from a client: a result for a task that the
    -- client has is what a worker returns for it.
    result :
        {map' : FrameBatchMap} (c : ℕ) (r : RenderResult)
        → length r.frames ≡ batch_size
        → ((meta : FrameBatchMetadata)
            → find s.batch_map.frame_batches c r.id ≡ some meta
            → worker meta.render_task.start_frame r.frames)
        → save_render_result s.batch_map c r ≡ ok map'
        → Step s (record s { batch_map = map' })
    -- Clients join and leave the pool. What the other goroutines of a client do to it leaves its id and its
    -- task counter alone.
    other :
        (clients : ℕ → Client) (pool : List ℕ)
        → ((i : ℕ)
            → ((clients i).id ≡ (s.clients i).id)
              × ((clients i).num_render_tasks ≡ (s.clients i).num_render_tasks))
        → Step s (record s { clients = clients; pool = pool })
    -- the broadcaster
    wake :
        s.broadcaster ≡ resting
        → wait_until_buffer_size_enough_for_broadcast s.batch_map.buffer
            (seconds_of cfg s.is_first_broadcast)
          ≡ some tt
        → Step s (record s {
          broadcaster = ready (seconds_of cfg s.is_first_broadcast);
          broadcaster_met = false;
        })
    -- its WaitForAtLeastOne
    greet :
        {seconds : ℕ}
        → s.broadcaster ≡ ready seconds
        → s.broadcaster_met ≡ false
        → wait_for_at_least_one (pool_of s) ≡ some tt
        → Step s (record s { broadcaster_met = true })
    copy_frames :
        {seconds : ℕ} {frames : Option (List ℕ)}
        → s.broadcaster ≡ ready seconds
        → s.broadcaster_met ≡ true
        → get_frames_to_broadcast s.batch_map.buffer seconds ≡ ok frames
        → Step s (record s { broadcaster = copied seconds (or_nil frames) })
    send :
        {seconds : ℕ} {frames : List ℕ}
        → s.broadcaster ≡ copied seconds frames
        → Step s (record s { broadcaster = sent seconds; stream = s.stream ++ frames })
    remove :
        {seconds : ℕ} {fb : FrameBuffer}
        → s.broadcaster ≡ sent seconds
        → remove_sent_frames_from_buffer s.batch_map.buffer seconds ≡ ok fb
        → Step s (record s {
          batch_map = with_buffer s fb;
          broadcaster = resting;
          is_first_broadcast = false;
        })

  -- Every state that the loops come to, in whatever order their steps are taken.
  pub data Reach : Pipeline → Type 0 where
    begin : Reach start
    follow : {s t : Pipeline} → Reach s → Step s t → Reach t
