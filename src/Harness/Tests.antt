-- ===== src/Harness/Tests.antt =====
-- The harness at concrete frames, and its integrity check on a broadcast.
use distributed_donut.Harness.Worker.Waiting.{Passes, Waited, wait_for_frames_lem}
use distributed_donut.Harness.Worker.{Ready, on_notify, on_deadline, wait_for_frames}
use distributed_donut.Prelude.{
  refl, [], ◌∷◌, none, true, false, ℕ, ◌+◌, ◌-◌, ◌*◌, ◌≡◌, ◌≢◌, ◌⊎◌, List, ◌++◌, length, Option,
  some, arith, Outcome, ok, err, Error,
}
use distributed_donut.Protocol.{RenderResult, encode_render_task, batch_size}
use distributed_donut.Buffer.Floats.{Float64}
use distributed_donut.Client.{Client, handle_received_message}
use distributed_donut.Orchestrator.{default_config}
use distributed_donut.Orchestrator.Pipeline.{Pipeline}
use distributed_donut.Orchestrator.Pipeline.Steps.{Reach}
use distributed_donut.Orchestrator.Pipeline.Progress.{Answers}
use distributed_donut.Orchestrator.Pipeline.Broadcast.{first_broadcast, Reach-joined, Reach-Steps}
use distributed_donut.Harness.Renderer.{render, verify_contiguous_frames}
use distributed_donut.Harness.Renderer.Frames.{frames_from, render-frames_from, length-frames_from}
use distributed_donut.Harness.Renderer.Verify.{verify_contiguous_frames_iff}
use distributed_donut.Harness.Worker.{
  WorkerConfig, Worker, Chance, corrupt_none, corrupt_garbage, encode_result, renderer_of,
  on_message,
}
use distributed_donut.Harness.Worker.Results.{
  Verdict, encode_result_lem, on_message-encode_render_task,
}
use distributed_donut.Harness.Worker.Broadcasts.{payloads}
use distributed_donut.Harness.Integrity.{
  Synthetic, Bytes-frames_from, Reach-verify_contiguous_frames,
}

abbrev pub integers : Float64
integers = record {
  F = ℕ;
  of_uint64 = λ n. n;
  sub = λ a b. a - b;
  mul = λ a b. a * b;
  div = λ a b. a;
  exp = λ a. a + 1;
  seconds = λ d. d;
  to_duration = λ a. a;
}

abbrev pub unchanged : List ℕ → Option (List ℕ)
unchanged message = some message

render-frames_from_example : render 120 179 ≡ ok (frames_from 120 (179 - 120 + 1))
render-frames_from_example = render-frames_from 120 179 (omega arith) (omega arith)

verify_contiguous_frames_iff_example :
    ((rest : List ℕ) × (frames_from 0 2 ≡ frames_from 0 2 ++ rest)
      × (verify_contiguous_frames (frames_from 0 2) 2 ≡ ok tt))
    ⊎ ((e : Error) × (verify_contiguous_frames (frames_from 0 2) 2 ≡ err e)
        × ((rest : List ℕ) → frames_from 0 2 ≢ frames_from 0 2 ++ rest))
verify_contiguous_frames_iff_example =
    verify_contiguous_frames_iff (frames_from 0 2) 2 (Bytes-frames_from 0 2)

pub synthetic_batch : Answers integers unchanged default_config Synthetic 3
synthetic_batch frame below = (
  frames_from frame (frame + 59 - frame + 1),
  omega (arith, length-frames_from frame (frame + 59 - frame + 1)),
  render-frames_from frame (frame + 59) (omega arith) (omega arith),
)

abbrev pub one_broadcast :
    (t : Pipeline) × Reach integers unchanged default_config Synthetic t
    × (length t.stream ≡ 6 * batch_size)
one_broadcast =
    let (t, run, long) =
      first_broadcast integers unchanged default_config Synthetic 3 (omega arith) (omega arith)
        synthetic_batch (omega arith) in
    (
      t,
      Reach-Steps integers unchanged default_config Synthetic 3 (omega arith) (omega arith)
          (Reach-joined integers unchanged default_config Synthetic 3 (omega arith) (omega arith))
          run,
      long,
    )

-- All 360 frames of the first broadcast.
Reach-verify_contiguous_frames_example : verify_contiguous_frames one_broadcast.0.stream 360 ≡ ok tt
Reach-verify_contiguous_frames_example =
    Reach-verify_contiguous_frames integers unchanged default_config (omega arith) (omega arith)
      one_broadcast.0 360 one_broadcast.1 (omega (arith, one_broadcast.2)) (omega arith)

-- it counts the results that it is given
abbrev count_results : ℕ → ℕ → RenderResult → Outcome ℕ
count_results count client_id result = ok (count + 1)

abbrev peer : Client
peer = record {
  id = 4;
  conn_open = true;
  num_render_tasks = 0;
  send = [];
  quit = false;
  closed = false;
  pooled = true;
}

encode_result_lem_example :
    (msg : List ℕ) × (encode_result corrupt_garbage (λ i. i) 7 (frames_from 60 60) ≡ ok msg)
    × Verdict count_results peer 3 corrupt_garbage 7 (frames_from 60 60) msg
encode_result_lem_example =
    encode_result_lem count_results peer 3 corrupt_garbage (λ i. i) 7 (frames_from 60 60)
      (omega arith) (length-frames_from 60 60)

abbrev pub honest : WorkerConfig
honest = record {
  renderer = none;
  render_delay = 0;
  silent = false;
  can_drop = false;
  corruption = corrupt_none;
  disconnect_after = 0;
  collect_broadcasts = true;
}

abbrev pub lucky : Chance
lucky = record { drop_draw = false; draw = λ i. i; write_ok = true }

abbrev pub honest_worker : Worker
honest_worker = record {
  cfg = honest;
  conn_open = true;
  tasks_received = 0;
  results_sent = 0;
  results_dropped = 0;
  received = [];
  notify = false;
  done = false;
  close_once = false;
}

rendered : renderer_of honest 120 (120 + 59) ≡ ok (frames_from 120 60)
unfolding renderer_of
rendered = render-frames_from 120 179 (omega arith) (omega arith)

on_message-encode_render_task_example :
    (w' : Worker) × (msg : List ℕ) × (on_message honest_worker
        (encode_render_task 7 120 (120 + 59))
        lucky
      ≡ ok (w', msg ∷ []))
    × (w'.tasks_received ≡ 0 + 1)
    × (w'.results_sent ≡ 0 + 1)
    × (w'.results_dropped ≡ 0)
    × (handle_received_message (some count_results) peer msg 3
        ≡ count_results 3 4 (record { id = 7; frames = frames_from 120 60 }))
on_message-encode_render_task_example =
    on_message-encode_render_task count_results peer 3 honest_worker lucky 7 120
      (frames_from 120 60) refl refl refl refl refl (omega arith) (omega arith) rendered
      (length-frames_from 120 60)

abbrev pub viewer : Worker
viewer = record honest_worker { cfg = record honest { silent = true } }

abbrev two_broadcasts : List (List ℕ × Chance)
two_broadcasts = (0x2 ∷ 8 ∷ 9 ∷ [], lucky) ∷ (0x3 ∷ 5 ∷ [], lucky) ∷ (0x2 ∷ 10 ∷ [], lucky) ∷ []

collected : payloads two_broadcasts ≡ 8 ∷ 9 ∷ 10 ∷ []
unfolding payloads
collected = refl

-- Too few frames at the first look, a notification, and then the deadline.
abbrev one_late : List (Ready × Worker)
one_late = (on_notify, viewer) ∷ (on_deadline viewer, viewer) ∷ []

wait_for_frames_lem_example :
    (last : Worker) × (rest : List (Ready × Worker)) × Passes 1 viewer one_late last rest
    × Waited 1 last rest (wait_for_frames 1 viewer one_late)
wait_for_frames_lem_example = wait_for_frames_lem 1 viewer one_late
