-- ===== src/Orchestrator/Pipeline/Tests.antt =====
-- A run of the loops up to a task that is assigned, and what the theorems say of it.
use distributed_donut.Prelude.{
  [], ◌∷◌, ℕ, ◌*◌, ◌<◌, ◌%◌, ◌≡◌, refl, List, length, get_or, zero, suc, replicate,
  length-replicate, subst, Option, some, false, arith, ok,
}
use distributed_donut.Protocol.{RenderResult, batch_size}
use distributed_donut.Buffer.{get_next_frame_number, wait_for_room, new_frame_buffer}
use distributed_donut.Buffer.Floats.{Float64}
use distributed_donut.Client.{generate_new_render_task_id}
use distributed_donut.Client.Pool.{wait_for_at_least_one, pick_new_client}
use distributed_donut.Orchestrator.{default_config}
use distributed_donut.Orchestrator.BatchMap.{FrameBatchMap, new_frame_batch_map, save_render_result}
use distributed_donut.Orchestrator.Pipeline.{Pipeline, admitted, start, idle_client}
use distributed_donut.Orchestrator.Pipeline.Batches.{Batches}
use distributed_donut.Orchestrator.Pipeline.Steps.{
  Reach, begin, follow, admit, meet, spawn, other, task, pick, number, assign,
}
use distributed_donut.Orchestrator.Pipeline.Invariant.{Inv}
use distributed_donut.Orchestrator.Pipeline.Rounds.{start-Inv}
use distributed_donut.Orchestrator.Pipeline.Progress.{Steps, Answers}
use distributed_donut.Orchestrator.Pipeline.Broadcast.{Reach-joined, Reach-Steps, first_broadcast}
use distributed_donut.Orchestrator.Pipeline.Calls.{GoesOn, TaskGoesOn, task_of}
use distributed_donut.Orchestrator.Pipeline.Stream.{Step-Inv, Reach-Batches, Reach-never_panics}

abbrev whole_numbers : Float64
whole_numbers = record {
  F = ℕ;
  of_uint64 = λ n. n;
  sub = λ a b. a;
  mul = λ a b. a * b;
  div = λ a b. a;
  exp = λ a. a;
  seconds = λ d. d;
  to_duration = λ a. a;
}

abbrev same_bytes : List ℕ → Option (List ℕ)
same_bytes message = some message

-- A worker that fills every frame with its number.
abbrev Numbering : ℕ → List ℕ → Type 0
Numbering frame frames = (i : ℕ) → i < length frames → get_or frames i 0 ≡ frame % 256

abbrev Reached : Pipeline → Type 0
Reached = Reach whole_numbers same_bytes default_config Numbering

-- The clients 5 and 7 join, and a task is assigned to 5.
assigned : (s : Pipeline) × Reached s
unfolding start new_frame_batch_map new_frame_buffer get_next_frame_number wait_for_room
    generate_new_render_task_id wait_for_at_least_one pick_new_client
assigned =
    let here : Reached (record start { clients = idle_client; pool = 5 ∷ 7 ∷ [] }) =
      follow begin (other idle_client (5 ∷ 7 ∷ []) (λ i. (refl, refl))) in
    let round : Reached _ =
      follow (follow (follow here (admit refl refl)) (meet refl refl refl)) (spawn refl refl) in
    let chosen : Reached _ = follow round (
      task 2 refl (omega arith)
        (pick (record { choose = λ n. 0; below = omega arith; picks = refl }))) in
    (
      _,
      follow (follow chosen (task 2 refl (omega arith) (number (omega arith) refl)))
          (task 2 refl (omega arith) (assign refl refl)),
    )

-- The client 5 leaves.
one_round : (s : Pipeline) × Reached s
one_round =
    let (s, reached) = assigned in
    (record s { pool = 7 ∷ [] }, follow reached (other s.clients (7 ∷ []) (λ i. (refl, refl))))

get_or-replicate : (n a i : ℕ) → i < n → get_or (replicate n a) i 0 ≡ a
unfolding get_or replicate
get_or-replicate zero a i h = absurd (omega arith)
get_or-replicate (suc n) a zero h = refl
get_or-replicate (suc n) a (suc i) h = get_or-replicate n a i (omega arith)

-- a batch of the frame's number, over and over
numbered_batch : (a : ℕ) → Answers whole_numbers same_bytes default_config Numbering a
numbered_batch a frame below = (
  replicate batch_size (frame % 256),
  length-replicate batch_size (frame % 256),
  λ i lt.
      get_or-replicate batch_size (frame % 256) i
        (subst (λ n. i < n) (length-replicate {A = ℕ} batch_size (frame % 256)) lt),
)

-- what the theorems say of the state after the first broadcast
abbrev sent_once : (t : Pipeline) × Reached t
sent_once =
    let (t, run, _) =
      first_broadcast whole_numbers same_bytes default_config Numbering 3 (omega arith)
        (omega arith) (numbered_batch 3) (omega arith) in
    (
      t,
      Reach-Steps whole_numbers same_bytes default_config Numbering 3 (omega arith) (omega arith)
          (Reach-joined whole_numbers same_bytes default_config Numbering 3 (omega arith)
            (omega arith))
          run,
    )

Reach-Batches_example :
    (k : ℕ) × (length sent_once.0.stream ≡ k * batch_size)
    × Batches Numbering 0 k sent_once.0.stream
Reach-Batches_example =
    Reach-Batches whole_numbers same_bytes default_config Numbering (omega arith) (omega arith)
      sent_once.0 sent_once.1

abbrev a_result : RenderResult
a_result = record { id = 0; frames = replicate batch_size 0 }

Reach-never_panics_example :
    ((bm : FrameBatchMap) × (save_render_result sent_once.0.batch_map 1 a_result ≡ ok bm))
    × GoesOn sent_once.0.batch_map.buffer sent_once.0.broadcaster
    × TaskGoesOn sent_once.0.batch_map sent_once.0.clients (task_of sent_once.0.dispatcher 2)
Reach-never_panics_example =
    Reach-never_panics whole_numbers same_bytes default_config Numbering (omega arith) (omega arith)
      sent_once.0 1 a_result 2 sent_once.1 (length-replicate batch_size 0)

Step-Inv_example : Inv Numbering (record start { dispatcher = admitted 6; dispatcher_met = false })
unfolding start new_frame_batch_map new_frame_buffer wait_for_room
Step-Inv_example =
    Step-Inv whole_numbers same_bytes default_config Numbering (omega arith) (omega arith)
      (start-Inv Numbering) (admit refl refl)
