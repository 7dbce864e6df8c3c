-- ===== src/Harness/Worker.antt =====
-- internal/harness/worker.go: a worker in Go, and how it may misbehave. What it writes is the list of its
-- messages; the websocket library and the random numbers enter as a `Chance` for each message read. The
-- delay of a render only takes time. The atomic counters are numbers, and `DisconnectAfter` is not negative.
pub mod Results
pub mod Broadcasts
pub mod Waiting
use distributed_donut.Prelude.{
  ℕ, zero, suc, ◌+◌, ◌-◌, ◌/◌, ◌^◌, List, [], ◌∷◌, ◌++◌, length, replicate, copy_at, Outcome, ok,
  err, panic, out_of_range, Error, timed_out_waiting, connection_closed, ◌>>=◌, Option, none, some,
  Bool, true, false, not, ◌&&◌, ltb, leb, ◌==◌, if◌then◌else◌, u8, u32,
}
use distributed_donut.Protocol.{
  frame_size, batch_size, message_type_render_task, message_type_render_result,
  message_type_frame_broadcast, decode_render_task, encode_render_result, slice,
}
use distributed_donut.Harness.Renderer.{render}

pub data Corruption : Type 0 where
  corrupt_none : Corruption
  corrupt_wrong_size : Corruption
  corrupt_truncated : Corruption
  corrupt_oversized : Corruption
  corrupt_garbage : Corruption
  corrupt_unassigned_id : Corruption

-- `can_drop` is `DropProb > 0`.
pub record WorkerConfig : Type 0 where
  pub renderer : Option (ℕ → ℕ → Outcome (List ℕ))
  pub render_delay : ℕ
  pub silent : Bool
  pub can_drop : Bool
  pub corruption : Corruption
  pub disconnect_after : ℕ
  pub collect_broadcasts : Bool

-- the method `renderer` of the configuration
unfoldable pub renderer_of : WorkerConfig → ℕ → ℕ → Outcome (List ℕ)
renderer_of cfg = elim cfg.renderer [ none ↦ render | some r ↦ r ]

-- `notify` is whether the channel holds its one signal, `done` whether that channel is closed, and
-- `close_once` whether Close has run.
pub record Worker : Type 0 where
  pub cfg : WorkerConfig
  pub conn_open : Bool
  pub tasks_received : ℕ
  pub results_sent : ℕ
  pub results_dropped : ℕ
  pub received : List ℕ
  pub notify : Bool
  pub done : Bool
  pub close_once : Bool

unfoldable pub new_worker : WorkerConfig → Worker
new_worker cfg = record {
  cfg = cfg;
  conn_open = true;
  tasks_received = 0;
  results_sent = 0;
  results_dropped = 0;
  received = [];
  notify = false;
  done = false;
  close_once = false;
}

-- What chance and the connection bring while one message is handled: `drop_draw` is `rand.Float64() <
-- DropProb`, `draw i` the `i`th `rand.IntN(256)`, and `write_ok` whether the write succeeds.
pub record Chance : Type 0 where
  pub drop_draw : Bool
  pub draw : ℕ → ℕ
  pub write_ok : Bool

-- the loop that fills the junk, from index `i` on
unfoldable pub junk_from : (ℕ → ℕ) → ℕ → ℕ → List ℕ
junk_from draw i zero = []
junk_from draw i (suc n) = u8 (draw i) ∷ junk_from draw (i + 1) n

unfoldable pub encode_result : Corruption → (ℕ → ℕ) → ℕ → List ℕ → Outcome (List ℕ)
unfolding junk_from
encode_result corrupt_none draw id frames = ok (encode_render_result id frames)
encode_result corrupt_wrong_size draw id frames =
    if length frames == 0
    then panic out_of_range
    else (do short ← slice frames 0 (length frames - 1); ok (encode_render_result id short))
encode_result corrupt_truncated draw id frames = slice (encode_render_result id frames) 0 3
encode_result corrupt_oversized draw id frames =
    let oversize = replicate (1 + 4 + batch_size + 1) 0 in
    ok (copy_at 0 oversize (message_type_render_result ∷ []))
encode_result corrupt_garbage draw id frames =
    ok (copy_at 0 (junk_from draw 0 16) (message_type_render_result ∷ []))
encode_result corrupt_unassigned_id draw id frames =
    ok (encode_render_result (u32 (id + 1_000_000)) frames)

-- a task that was decoded: the worker, and what it wrote
unfoldable pub answer_task : Worker → ℕ → ℕ → ℕ → Chance → Outcome (Worker × List (List ℕ))
unfolding renderer_of
answer_task w id start_frame end_frame chance =
    let w = record w { tasks_received = w.tasks_received + 1 } in
    if ltb 0 w.cfg.disconnect_after && leb w.cfg.disconnect_after w.tasks_received
    then ok (record w { conn_open = false }, [])
    else if w.cfg.silent
    then ok (record w { results_dropped = w.results_dropped + 1 }, [])
    else if w.cfg.can_drop && chance.drop_draw
    then ok (record w { results_dropped = w.results_dropped + 1 }, [])
    else (do
      frames ← renderer_of w.cfg start_frame end_frame
      msg ← encode_result w.cfg.corruption chance.draw id frames
      if chance.write_ok
          then ok (record w { results_sent = w.results_sent + 1 }, msg ∷ [])
          else ok (w, []))

-- A body that is no task is ignored.
unfoldable pub handle_task : Worker → List ℕ → Chance → Outcome (Worker × List (List ℕ))
handle_task w body chance = elim (decode_render_task body) [
  | ok (id, start_frame, end_frame) ↦ answer_task w id start_frame end_frame chance
  | err _ ↦ ok (w, [])
  | panic p ↦ panic p
]

unfoldable pub collect_broadcast : Worker → List ℕ → Worker
collect_broadcast w payload = record w { received = w.received ++ payload; notify = true }

-- the body of the loop of `run`, after a read that succeeded
unfoldable pub on_message : Worker → List ℕ → Chance → Outcome (Worker × List (List ℕ))
on_message w [] chance = ok (w, [])
on_message w (tag ∷ body) chance =
    if tag == message_type_render_task
    then handle_task w body chance
    else if tag == message_type_frame_broadcast && w.cfg.collect_broadcasts
    then ok (collect_broadcast w body, [])
    else ok (w, [])

-- The read loop, over what there is to read: it ends at the end of the reads or once the connection is
-- closed, and then closes `done`.
unfoldable pub run : Worker → List (List ℕ × Chance) → Outcome (Worker × List (List ℕ))
unfolding on_message
run w [] = ok (record w { done = true }, [])
run w ((msg, chance) ∷ reads) =
    if not w.conn_open
    then ok (record w { done = true }, [])
    else (do r ← on_message w msg chance; rest ← run r.0 reads; ok (rest.0, r.1 ++ rest.1))

unfoldable pub frame_count : Worker → ℕ
frame_count w = length w.received / frame_size

unfoldable received_frames : Worker → List ℕ
received_frames w = w.received

-- `SendRaw`: whether the write succeeded, and what it wrote
unfoldable send_raw : (write_ok : Bool) → List ℕ → Bool × List (List ℕ)
send_raw write_ok bytes = if write_ok then (true, bytes ∷ []) else (false, [])

-- `Close`, up to its wait for `done`
unfoldable pub close : Worker → Worker
close w = if w.close_once then w else record w { conn_open = false; close_once = true }

-- That wait: whether Close returns.
unfoldable pub close_returns : Worker → Bool
close_returns w = w.done

-- What the `select` of WaitForFrames finds ready. After the deadline the frames are counted twice, for the
-- result and then for the error: `again` is the worker at the second count. Once `done` is closed the read loop is
-- over, and every count is the same.
pub data Ready : Type 0 where
  on_notify : Ready
  on_deadline : (again : Worker) → Ready
  on_done : Ready

-- The worker as it is at each look, and what the `select` after it found. `none`: it still waits.
unfoldable pub wait_for_frames : ℕ → Worker → List (Ready × Worker) → Option (ℕ × Option Error)
unfolding frame_count
wait_for_frames n w [] = if leb n (frame_count w) then some (frame_count w, none) else none
wait_for_frames n w ((ready, w') ∷ later) =
    let more = wait_for_frames n w' later in
    if leb n (frame_count w) then some (frame_count w, none) else elim ready [
      | on_notify ↦ more
      | on_deadline again ↦ some (frame_count w', some (timed_out_waiting n (frame_count again)))
      | on_done ↦
          if leb n (frame_count w')
          then some (frame_count w', none)
          else some (frame_count w', some (connection_closed (frame_count w') n))
    ]
