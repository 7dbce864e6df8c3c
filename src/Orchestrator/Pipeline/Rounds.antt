-- ===== src/Orchestrator/Pipeline/Rounds.antt =====
-- The dispatcher's own steps keep the invariant: the start, the wait for room, the start of a round and
-- the advance of the head at its end.
use distributed_donut.Prelude.{
  ℕ, ◌+◌, ◌-◌, ◌*◌, ◌/◌, ◌%◌, ◌≤◌, ◌<◌, ◌≡◌, ◌^◌, refl, subst, List, some, false, inl, inr, arith,
  u32, dec_lt, Option-cases,
}
use distributed_donut.Protocol.{batch_size}
use distributed_donut.Buffer.{
  FrameBuffer, new_frame_buffer, get_next_frame_number, wait_for_room, advance_head,
}
use distributed_donut.Buffer.Floats.{Float64}
use distributed_donut.Buffer.Ring
use distributed_donut.Buffer.Ring.Write.{frame_at, advance_head_eq, contents-advance_head}
use distributed_donut.Buffer.Waits.{wait_for_room_iff}
use distributed_donut.Client.{Client}
use distributed_donut.Orchestrator.BatchMap.{FrameBatchMap, new_frame_batch_map}
use distributed_donut.Orchestrator.BatchMap.View.{find, find-nil}
use distributed_donut.Orchestrator.Pipeline.{
  Pipeline, Task, spawned, finished, parked, admitted, running, Broadcaster, resting, ready, copied,
  sent, start,
}
use distributed_donut.Orchestrator.Pipeline.Batches.{Filled}
use distributed_donut.Orchestrator.Pipeline.Steps.{with_buffer}
use distributed_donut.Orchestrator.Pipeline.Invariant.{
  Owns, TaskOk, Common, Round, Vacant, DispatcherOk, BroadcasterOk, Inv,
}

pub start-Inv : (worker : ℕ → List ℕ → Type 0) → Inv worker start
unfolding start new_frame_batch_map new_frame_buffer
start-Inv worker = record {
  common = record {
    ring = omega arith;
    discipline = record {
      batch = λ c t meta e. ground (arith, find-nil c t);
      has_channel = λ c t meta e. ground (arith, find-nil c t);
      flagged = λ c t ch meta e. ground (arith, find-nil c t);
      own = λ c t c' t' ch meta meta' e. ground (arith, find-nil c t);
    };
    ids = λ i. refl;
    opened = λ ch le. refl;
    used = λ c t ch meta e. ground (arith, find-nil c t);
    issued = λ c t meta e. ground (arith, find-nil c t);
    stored = λ p al lo hi. absurd (omega arith);
  };
  dispatching = λ c t. find-nil c t;
  broadcasting = refl;
  played = (0, refl, refl);
}

spawned_frame : (fb : FrameBuffer) → u32 (get_next_frame_number fb) ≡ frame_at fb.head
unfolding get_next_frame_number
spawned_frame fb = omega arith

module _ (worker : ℕ → List ℕ → Type 0) (bm : FrameBatchMap) (clients : ℕ → Client) where
  BroadcasterOk-advance :
      (fb : FrameBuffer) (stream : List ℕ) (b : Broadcaster)
      → fb.tail ≡ bm.buffer.tail
      → bm.buffer.head ≤ fb.head
      → BroadcasterOk worker bm clients stream b
      → BroadcasterOk worker (record bm { buffer = fb }) clients stream b
  BroadcasterOk-advance fb stream resting tail le o = omega (arith, o)
  BroadcasterOk-advance fb stream (ready k) tail le (small, e, enough) =
      (small, omega arith, omega arith)
  BroadcasterOk-advance fb stream (copied k frames) tail le (small, e, enough, whole, made) =
      (small, omega arith, omega arith, whole, rw tail made)
  BroadcasterOk-advance fb stream (sent k) tail le (small, e, enough) =
      (small, omega arith, omega arith)

  stored-advance :
      (m n current : ℕ) (tasks : ℕ → Task)
      → Common worker bm clients m
      → Round worker bm clients n current tasks
      → ((j : ℕ) → j < n → tasks j ≡ finished)
      → (p : ℕ) → p % batch_size ≡ 0
      → bm.buffer.tail ≤ p
      → p + batch_size ≤ bm.buffer.head + n * batch_size
      → Filled worker bm.buffer.buffer p
  stored-advance m n current tasks v r over p al lo hi =
      let j = (p - bm.buffer.head) / batch_size in
      elim (dec_lt p bm.buffer.head) [
        | yes lt ↦ v.stored p al lo (omega (arith, v.ring.head_aligned))
        | no ge ↦
            let here : bm.buffer.head + j * batch_size ≡ p = omega (arith, v.ring.head_aligned) in
            let lt : j < n = omega (arith, v.ring.head_aligned) in
            let o : TaskOk worker bm clients (bm.buffer.head + j * batch_size) finished =
              rw (over j lt) at (r.agree j lt) in
            subst (Filled worker bm.buffer.buffer) here o
      ]

  vacant-advance :
      (n current : ℕ) (tasks : ℕ → Task)
      → Round worker bm clients n current tasks
      → ((j : ℕ) → j < n → tasks j ≡ finished)
      → Vacant worker bm clients
  vacant-advance n current tasks r over c t = elim (Option-cases (find bm.frame_batches c t)) [
    | inl e ↦ e
    | inr (meta, e) ↦
        let (j, lt, owns) = r.owned c t meta e in
        let none_left : Owns finished c t = subst (λ task. Owns task c t) (over j lt) owns in
        absurd none_left
  ]

module _ (worker : ℕ → List ℕ → Type 0) (s : Pipeline) (v : Inv worker s) where
  pub admit-Inv :
      (fl : Float64) (k max_sleep sleep : ℕ)
      → s.dispatcher ≡ parked
      → wait_for_room fl s.batch_map.buffer k max_sleep ≡ some sleep
      → Inv worker (record s { dispatcher = admitted k })
  admit-Inv fl k max_sleep sleep at_rest h = record {
    common = v.common;
    dispatching = (
      rw at_rest at v.dispatching,
      ground (arith, (wait_for_room_iff fl s.batch_map.buffer k max_sleep v.common.ring).1),
    );
    broadcasting = v.broadcasting;
    played = v.played;
  }

  pub spawn-Inv :
      (n : ℕ)
      → s.dispatcher ≡ admitted n
      → Inv worker (record s {
        dispatcher = running n (u32 (get_next_frame_number s.batch_map.buffer)) (λ _. spawned);
      })
  spawn-Inv n woke =
      let (vacant, room) : DispatcherOk worker s.batch_map s.clients (admitted n) =
        rw woke at v.dispatching in
      record {
        common = v.common;
        dispatching = record {
          fits = room;
          starts = spawned_frame s.batch_map.buffer;
          agree = λ j lt. tt;
          owned = λ c t meta e. ground (arith, vacant c t);
          once = λ j j' w id lt lt' e. ground arith;
        };
        broadcasting = v.broadcasting;
        played = v.played;
      }

  pub advance-Inv :
      (n current : ℕ) (tasks : ℕ → Task)
      → s.dispatcher ≡ running n current tasks
      → ((j : ℕ) → j < n → tasks j ≡ finished)
      → s.batch_map.buffer.head + n * batch_size < 2 ^ 63
      → Inv worker (record s {
        batch_map = with_buffer s (advance_head s.batch_map.buffer n);
        dispatcher = parked;
        is_first_round = false;
      })
  advance-Inv n current tasks ran over small =
      let r : Round worker s.batch_map s.clients n current tasks = rw ran at v.dispatching in
      let fb = s.batch_map.buffer in
      rw (advance_head_eq fb n small) (record {
        common = record {
          ring =
              subst Ring.IsValid (advance_head_eq fb n small)
                (contents-advance_head fb n v.common.ring r.fits small).1;
          discipline = record {
            batch = v.common.discipline.batch;
            has_channel = v.common.discipline.has_channel;
            flagged = v.common.discipline.flagged;
            own = v.common.discipline.own;
          };
          ids = v.common.ids;
          opened = v.common.opened;
          used = v.common.used;
          issued = v.common.issued;
          stored =
              stored-advance worker s.batch_map s.clients s.next_channel n current tasks v.common r
                over;
        };
        dispatching = vacant-advance worker s.batch_map s.clients n current tasks r over;
        broadcasting =
            BroadcasterOk-advance worker s.batch_map s.clients
              (record fb { head = fb.head + n * batch_size }) s.stream s.broadcaster refl
              (omega arith) v.broadcasting;
        played = v.played;
      })
