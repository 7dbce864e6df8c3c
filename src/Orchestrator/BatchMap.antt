-- ===== src/Orchestrator/BatchMap.antt =====
-- internal/orchestrator/batch_map.go and batch_metadata.go: the outstanding tasks, by client and task id.
-- The nested Go map is a map of maps, and reading a missing inner map finds nothing. A channel is a
-- number, nil is `none`, and `closed` says which channels have been closed. Every method holds the
-- mutex from end to end.
pub mod View
pub mod Save
mod Tests
use distributed_donut.Prelude.{
  ℕ, ◌+◌, List, [], ◌∷◌, length, Outcome, ok, err, panic, same_client, close_of_nil,
  close_of_closed, ◌>>=◌, Option, none, some, Bool, true, false, ◌==◌, if◌then◌else◌, u32,
}
use distributed_donut.Prelude.Map.{Map, lookup, insert, delete}
use distributed_donut.Protocol.{RenderTask, RenderResult, new_render_task}
use distributed_donut.Buffer.{FrameBuffer, add_frames_to_buffer}
use distributed_donut.Client.{Client, generate_new_render_task_id}

pub record FrameBatchMetadata : Type 0 where
  pub render_task : RenderTask
  pub completed : Bool
  pub done : Option ℕ

-- `make(chan struct{})` gave the channel `done`.
unfoldable pub new_frame_batch_metadata : ℕ → ℕ → ℕ → ℕ → FrameBatchMetadata
new_frame_batch_metadata done render_task_id start_frame end_frame = record {
  render_task = new_render_task render_task_id start_frame end_frame;
  completed = false;
  done = some done;
}

-- what Go reads for a key that a map does not hold
abbrev pub zero_metadata : FrameBatchMetadata
zero_metadata = record {
  render_task = record { id = 0; start_frame = 0; end_frame = 0 };
  completed = false;
  done = none;
}

pub record FrameBatchMap : Type 0 where
  pub frame_batches : Map (Map FrameBatchMetadata)
  pub buffer : FrameBuffer
  pub closed : ℕ → Bool

unfoldable pub new_frame_batch_map : FrameBuffer → FrameBatchMap
new_frame_batch_map fb = record { frame_batches = []; buffer = fb; closed = λ _. false }

abbrev pub or_empty {ℓ} : {V : Type ℓ} → Option (Map V) → Map V
or_empty none = []
or_empty (some m) = m

abbrev pub or_zero : Option FrameBatchMetadata → FrameBatchMetadata
or_zero none = zero_metadata
or_zero (some meta) = meta

-- `m[client_id]`
abbrev pub tasks_of : Map (Map FrameBatchMetadata) → ℕ → Map FrameBatchMetadata
tasks_of m client_id = or_empty (lookup client_id m)

-- `m[client_id][render_task_id] = meta`, the inner map made first where it is missing
unfoldable pub put :
    Map (Map FrameBatchMetadata) → ℕ → ℕ → FrameBatchMetadata → Map (Map FrameBatchMetadata)
put m client_id render_task_id meta =
    insert client_id (insert render_task_id meta (tasks_of m client_id)) m

-- `delete(m[client_id], render_task_id)`, then the inner map if nothing is left of it
unfoldable pub drop_task : Map (Map FrameBatchMetadata) → ℕ → ℕ → Map (Map FrameBatchMetadata)
drop_task m client_id render_task_id =
    let left = delete render_task_id (tasks_of m client_id) in
    if length left == 0 then delete client_id m else insert client_id left m

unfoldable pub add_frame_batch : FrameBatchMap → ℕ → FrameBatchMetadata → FrameBatchMap
unfolding put
add_frame_batch fb_map client_id frame_batch = record fb_map {
  frame_batches = put fb_map.frame_batches client_id frame_batch.render_task.id frame_batch;
}

unfoldable pub get_length : FrameBatchMap → ℕ → ℕ
get_length fb_map client_id = u32 (length (tasks_of fb_map.frame_batches client_id))

-- The new client gives the task its new id.
unfoldable pub switch_render_task_executor :
    FrameBatchMap → ℕ → ℕ → Client → Outcome (ℕ × FrameBatchMap × Client)
unfolding put drop_task generate_new_render_task_id
switch_render_task_executor fb_map render_task_id client_id new_client =
    if client_id == new_client.id
    then panic same_client
    else (let m = fb_map.frame_batches in
        let fb_meta = or_zero (lookup render_task_id (tasks_of m client_id)) in
        let (new_render_task_id, new_client') = generate_new_render_task_id new_client in
        let moved = put m new_client.id new_render_task_id fb_meta in
        ok (
          new_render_task_id,
          record fb_map { frame_batches = drop_task moved client_id render_task_id },
          new_client',
        ))

unfoldable pub delete_render_task : FrameBatchMap → ℕ → ℕ → FrameBatchMap
unfolding drop_task
delete_render_task fb_map client_id render_task_id = record fb_map {
  frame_batches = drop_task fb_map.frame_batches client_id render_task_id;
}

-- `close(done)`
abbrev pub close_channel : (ℕ → Bool) → Option ℕ → Outcome (ℕ → Bool)
close_channel closed none = panic close_of_nil
close_channel closed (some ch) =
    if closed ch then panic close_of_closed else ok (λ c. if ch == c then true else closed c)

unfoldable pub save_render_result : FrameBatchMap → ℕ → RenderResult → Outcome FrameBatchMap
unfolding put
save_render_result fb_map client_id render_result =
    elim (lookup render_result.id (tasks_of fb_map.frame_batches client_id)) [
      | none ↦ ok fb_map
      | some batch_metadata ↦ if batch_metadata.completed then ok fb_map else (do
        buffer ←
            add_frames_to_buffer fb_map.buffer batch_metadata.render_task.start_frame
              batch_metadata.render_task.end_frame render_result.frames
        closed ← close_channel fb_map.closed batch_metadata.done
        ok (record {
          frame_batches =
              put fb_map.frame_batches client_id render_result.id
                (record batch_metadata { completed = true });
          buffer = buffer;
          closed = closed;
        }))
    ]

-- `Orchestrator.HandleResult`
unfoldable pub handle_result : FrameBatchMap → ℕ → RenderResult → Outcome FrameBatchMap
handle_result fb_map client_id result = save_render_result fb_map client_id result
