-- ===== src/Orchestrator/Pipeline/Stream.antt =====
-- What holds in every state that the loops reach.
use distributed_donut.Prelude.{
  ℕ, suc, ◌*◌, ◌<◌, ◌≡◌, ◌^◌, refl, sym, subst, List, length, Option, Bool, true, false, inl, inr,
  arith, ok,
}
use distributed_donut.Protocol.{RenderResult, batch_size}
use distributed_donut.Buffer.Floats.{Float64}
use distributed_donut.Client.{request_work}
use distributed_donut.Orchestrator.{Config}
use distributed_donut.Orchestrator.BatchMap.{
  FrameBatchMap, save_render_result, add_frame_batch, delete_render_task, new_frame_batch_metadata,
}
use distributed_donut.Orchestrator.BatchMap.Save.{save_render_result_lem, saved}
use distributed_donut.Orchestrator.Pipeline.{
  Pipeline, Task, finished, waiting, running, update, start_frame_of, end_frame_of,
}
use distributed_donut.Orchestrator.Pipeline.Batches.{Batches}
use distributed_donut.Orchestrator.Pipeline.Calls.{
  GoesOn, BroadcasterOk-GoesOn, TaskGoesOn, task_of, DispatcherOk-TaskGoesOn, Reassigned,
  reassign_cases,
}
use distributed_donut.Orchestrator.Pipeline.Steps.{
  TaskStep, Step, Reach, pick, number, assign, done, time_out, assign_again, admit, meet, spawn,
  task, advance, result, other, wake, greet, copy_frames, send, remove, begin, follow, seconds_of,
}
use distributed_donut.Orchestrator.Pipeline.Invariant.{Inv}
use distributed_donut.Orchestrator.Pipeline.Rounds.{start-Inv, admit-Inv, spawn-Inv, advance-Inv}
use distributed_donut.Orchestrator.Pipeline.Playback.{
  wake-Inv, copy_frames-Inv, send-Inv, remove-Inv,
}
use distributed_donut.Orchestrator.Pipeline.Framing.{DispatcherOk-clients}
use distributed_donut.Orchestrator.Pipeline.Results.{result-Inv}
use distributed_donut.Orchestrator.Pipeline.Slots.{request_work-id}
use distributed_donut.Orchestrator.Pipeline.Tables.{Common-clients}
use distributed_donut.Orchestrator.Pipeline.Tasks.{
  stepped, pick-Inv, time_out-Inv, retry-Inv, number-Inv, done-Inv, assign-Inv, switch_executor-Inv,
}

module _ (fl : Float64) (prepare : List ℕ → Option (List ℕ)) (cfg : Config)
    (worker : ℕ → List ℕ → Type 0) where
  TaskStep-Inv :
      {s : Pipeline} {n current j : ℕ} {tasks : ℕ → Task} {before : Task} {t : Pipeline}
      {after : Task}
      → Inv worker s
      → s.dispatcher ≡ running n current tasks
      → j < n
      → tasks j ≡ before
      → TaskStep fl prepare cfg worker s current j before t after
      → Inv worker (record t { dispatcher = running n current (update tasks j after) })
  TaskStep-Inv {s = s} {n = n} {current = current} {j = j} {tasks = tasks} v ran lt e (pick {w} _) =
      pick-Inv worker s v n current tasks ran j lt w e
  TaskStep-Inv {s = s} {n = n} {current = current} {j = j} {tasks = tasks} v ran lt e
        (number {w} {id} {c} small h) =
      number-Inv worker s v n current tasks ran j lt w id c e small h
  TaskStep-Inv {s = s} {n = n} {current = current} {j = j} {tasks = tasks} v ran lt e
        (assign {w} {id} {first} {last} a b) =
      let c = request_work prepare (s.clients w) id first last in
      let (same, more) = request_work-id prepare (s.clients w) id first last in
      subst
        (λ k. Inv worker (
          stepped worker s v n current tasks ran j lt
            (add_frame_batch s.batch_map k (new_frame_batch_metadata s.next_channel id first last))
            (update s.clients w c) (suc s.next_channel) (waiting w id s.next_channel)))
        (sym (v.common.ids w))
        (assign-Inv worker s v n current tasks ran j lt w id first last c e a b same more)
  TaskStep-Inv {s = s} {n = n} {current = current} {j = j} {tasks = tasks} v ran lt e
        (done {w} {id} {ch} closed) =
      subst
        (λ k. Inv worker (
          stepped worker s v n current tasks ran j lt (delete_render_task s.batch_map k id)
            s.clients s.next_channel finished))
        (sym (v.common.ids w)) (done-Inv worker s v n current tasks ran j lt w id ch e closed)
  TaskStep-Inv {s = s} {n = n} {current = current} {j = j} {tasks = tasks} v ran lt e
        (time_out {w} {id} {ch} {next} _) =
      time_out-Inv worker s v n current tasks ran j lt w id ch next e
  TaskStep-Inv {s = s} {n = n} {current = current} {j = j} {tasks = tasks} v ran lt e
        (assign_again {w} {id} {ch} {next} {w'} {id'} {map'} {c'} small h) =
      elim (reassign_cases s.batch_map s.clients w id next w' id' map' c' h) [
        | inl (_, stays) ↦
            let (same, more) =
              request_work-id prepare (s.clients w) id (start_frame_of current j)
                (end_frame_of current j) in
            subst
              (λ (x : Reassigned). Inv worker (
                stepped worker s v n current tasks ran j lt x.2
                  (update s.clients x.0 (
                    request_work prepare x.3 x.1 (start_frame_of current j)
                      (end_frame_of current j)))
                  s.next_channel (waiting x.0 x.1 ch)))
              stays (retry-Inv worker s v n current tasks ran j lt w id ch next _ e same more)
        | inr (ne, moves, switches) ↦
            let (same, more) =
              request_work-id prepare c' id' (start_frame_of current j) (end_frame_of current j) in
            subst
              (λ x. Inv worker (
                stepped worker s v n current tasks ran j lt map'
                  (update s.clients x (
                    request_work prepare c' id' (start_frame_of current j)
                      (end_frame_of current j)))
                  s.next_channel (waiting x id' ch)))
              moves
              (switch_executor-Inv worker s v n current tasks ran j lt w id ch next id' map' c' _ e
                ne (small ne) switches same more)
      ]

  module _ (first_small : cfg.first_seconds_to_broadcast < 2 ^ 32)
      (small : cfg.seconds_to_broadcast < 2 ^ 32) where
    seconds_small : (is_first : Bool) → seconds_of cfg is_first < 2 ^ 32
    seconds_small true = first_small
    seconds_small false = small

    -- Every step of the loops keeps the invariant. The ring is valid; an entry of the batch map stands for
    -- the slot of one task of the round, is completed only once the slot holds what a worker returned for
    -- its frame, and has a channel of its own; the slots from the tail to the head all hold such batches;
    -- and the broadcaster takes only what is there. The seconds to broadcast are below 2 ^ 32; the steps
    -- give a client fewer than 2 ^ 32 tasks and keep the head below 2 ^ 63.
    pub Step-Inv : {s t : Pipeline} → Inv worker s → Step fl prepare cfg worker s t → Inv worker t
    Step-Inv {s} v (admit {sleep} e h) =
        let v' =
          admit-Inv worker s v fl (seconds_of cfg s.is_first_round) cfg.broadcast_interval sleep e
            h in
        record {
          common = v'.common;
          dispatching = v'.dispatching;
          broadcasting = v'.broadcasting;
          played = v'.played;
        }
    Step-Inv {s} v (meet e _ h) = record {
      common = v.common;
      dispatching = v.dispatching;
      broadcasting = v.broadcasting;
      played = v.played;
    }
    Step-Inv {s} v (spawn {n} e _) = spawn-Inv worker s v n e
    Step-Inv {s} v (task {n} {current} {tasks} j e lt step) = TaskStep-Inv v e lt refl step
    Step-Inv {s} v (advance {n} {current} {tasks} e over far) =
        advance-Inv worker s v n current tasks e over far
    Step-Inv {s} v (result {map'} c r whole made h) = result-Inv worker s c r map' v whole made h
    Step-Inv {s} v (other clients pool same) = record {
      common =
          Common-clients worker s.batch_map s.clients clients s.next_channel (λ i. (same i).0)
            (λ i. omega (arith, (same i).1)) v.common;
      dispatching =
          DispatcherOk-clients worker s.batch_map s.clients clients s.dispatcher
            (λ i. omega (arith, (same i).1)) v.dispatching;
      broadcasting = v.broadcasting;
      played = v.played;
    }
    Step-Inv {s} v (wake e h) =
        let v' =
          wake-Inv worker s v (seconds_of cfg s.is_first_broadcast)
            (seconds_small s.is_first_broadcast) e h in
        record {
          common = v'.common;
          dispatching = v'.dispatching;
          broadcasting = v'.broadcasting;
          played = v'.played;
        }
    Step-Inv {s} v (greet e _ h) = record {
      common = v.common;
      dispatching = v.dispatching;
      broadcasting = v.broadcasting;
      played = v.played;
    }
    Step-Inv {s} v (copy_frames {seconds} {frames} e _ h) =
        copy_frames-Inv worker s v seconds frames e h
    Step-Inv {s} v (send {seconds} {frames} e) = send-Inv worker s v seconds frames e
    Step-Inv {s} v (remove {seconds} {fb} e h) = remove-Inv worker s v seconds fb e h

    pub Reach-Inv : {s : Pipeline} → Reach fl prepare cfg worker s → Inv worker s
    Reach-Inv begin = start-Inv worker
    Reach-Inv (follow reached step) = Step-Inv (Reach-Inv reached) step

    -- At every moment and for every order of the steps, what has been broadcast is a whole number of
    -- batches, and they are the batches of the animation in order, from its first frame on, round and
    -- round the ring: the batch number `i` is what a worker returned for the frame at byte
    -- `i * batch_size`. No batch is left out, repeated, cut or mixed with another, though workers finish in
    -- any order, results come late or twice, and tasks are retried and switched between clients. The
    -- seconds to broadcast are below 2 ^ 32; the steps give a client fewer than 2 ^ 32 tasks and keep the
    -- head below 2 ^ 63.
    pub Reach-Batches :
        (s : Pipeline)
        → Reach fl prepare cfg worker s
        → (k : ℕ) × (length s.stream ≡ k * batch_size) × Batches worker 0 k s.stream
    Reach-Batches s reached = (Reach-Inv reached).played

    -- The calls that may panic do not, in every state that the loops reach: whatever a client returns of the
    -- size of a batch is saved without an error or a panic; the broadcaster gets frames when it copies them,
    -- and `RemoveSentFramesFromBuffer` removes what it sent; and a task whose wait timed out is assigned
    -- again without a panic of `SwitchRenderTaskExecutor`, whichever client was picked. The seconds to
    -- broadcast are below 2 ^ 32; the steps give a client fewer than 2 ^ 32 tasks and keep the head below
    -- 2 ^ 63.
    pub Reach-never_panics :
        (s : Pipeline) (c : ℕ) (r : RenderResult) (j : ℕ)
        → Reach fl prepare cfg worker s
        → length r.frames ≡ batch_size
        → ((bm : FrameBatchMap) × (save_render_result s.batch_map c r ≡ ok bm))
          × GoesOn s.batch_map.buffer s.broadcaster
          × TaskGoesOn s.batch_map s.clients (task_of s.dispatcher j)
    Reach-never_panics s c r j reached whole =
        let v = Reach-Inv reached in
        (
          elim (save_render_result_lem s.batch_map c r v.common.discipline whole) [
            | inl (_, e) ↦ (s.batch_map, e)
            | inr (inl (_, _, _, e)) ↦ (s.batch_map, e)
            | inr (inr (meta, ch, _, _, _, _, e, _)) ↦ (saved s.batch_map c r meta ch, e)
          ],
          BroadcasterOk-GoesOn worker s.batch_map s.clients s.stream s.broadcaster v.common.ring
              v.broadcasting,
          DispatcherOk-TaskGoesOn worker s.batch_map s.clients v.common.ids s.dispatcher j
              v.dispatching,
        )
