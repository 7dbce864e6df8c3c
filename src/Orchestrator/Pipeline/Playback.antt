-- ===== src/Orchestrator/Pipeline/Playback.antt =====
-- The broadcaster's steps keep the invariant.
use distributed_donut.Prelude.{
  ℕ, ◌+◌, ◌-◌, ◌*◌, ◌≤◌, ◌<◌, ◌≡◌, ◌^◌, sym, ap, subst, List, ◌++◌, length, length-append, Option,
  some, false, inl, inr, arith, ok,
}
use distributed_donut.Protocol.{batch_size}
use distributed_donut.Buffer.{
  FrameBuffer, get_frames_to_broadcast, remove_sent_frames_from_buffer,
  wait_until_buffer_size_enough_for_broadcast,
}
use distributed_donut.Buffer.Ring
use distributed_donut.Buffer.Ring.{window, contents}
use distributed_donut.Buffer.Ring.Window.{take-window, length-window}
use distributed_donut.Buffer.Ring.Read.{get_frames_to_broadcast_lem}
use distributed_donut.Buffer.Waits.{wait_until_iff}
use distributed_donut.Client.{Client}
use distributed_donut.Orchestrator.BatchMap.{FrameBatchMap}
use distributed_donut.Orchestrator.Pipeline.{
  Pipeline, Dispatcher, parked, admitted, running, resting, ready, copied, sent,
}
use distributed_donut.Orchestrator.Pipeline.Batches.{
  Batches, Filled, Batches-append, Batches-window,
}
use distributed_donut.Orchestrator.Pipeline.Steps.{or_nil, with_buffer}
use distributed_donut.Orchestrator.Pipeline.Invariant.{Common, DispatcherOk, BroadcasterOk, Inv}

module _ (worker : ℕ → List ℕ → Type 0) where
  copied-Batches :
      (bm : FrameBatchMap) (clients : ℕ → Client) (m k : ℕ) (frames : Option (List ℕ))
      → Common worker bm clients m
      → k < 2 ^ 32
      → bm.buffer.tail + k * batch_size ≤ bm.buffer.head
      → get_frames_to_broadcast bm.buffer k ≡ ok frames
      → (length (or_nil frames) ≡ k * batch_size) × Batches worker bm.buffer.tail k (or_nil frames)
  unfolding contents
  copied-Batches bm clients m k frames v small enough h =
      elim (get_frames_to_broadcast_lem bm.buffer k v.ring small) [
        | inl (short, _) ↦ absurd (omega arith)
        | inr (_, e) ↦
            let taken =
              take-window mem tail (k * batch_size) (bm.buffer.head - tail) (omega arith) in
            let same : window mem tail (k * batch_size) ≡ or_nil frames = cc (e, h, taken) in
            subst (λ xs. (length xs ≡ k * batch_size) × Batches worker tail k xs) same
              (length-window mem tail (k * batch_size), Batches-window worker mem tail k filled)
      ]
    where
      mem : ℕ → ℕ
      mem = bm.buffer.buffer

      tail : ℕ
      tail = bm.buffer.tail

      filled : (j : ℕ) → j < k → Filled worker mem (tail + j * batch_size)
      filled j lt =
          v.stored (tail + j * batch_size) (omega (arith, v.ring.tail_aligned)) (omega arith)
            (omega arith)

removed_eq :
    (fb fb' : FrameBuffer) (k : ℕ)
    → Ring.IsValid fb
    → k < 2 ^ 32
    → fb.tail + k * batch_size ≤ fb.head
    → remove_sent_frames_from_buffer fb k ≡ ok fb'
    → (fb' ≡ record fb { tail = fb.tail + k * batch_size }) × Ring.IsValid fb'
unfolding remove_sent_frames_from_buffer
removed_eq fb fb' k v small enough h =
    let e : fb' ≡ record fb { tail = fb.tail + k * batch_size } = ground arith in
    (e, subst Ring.IsValid (sym e) (omega arith))

woken :
    (fb : FrameBuffer) (k : ℕ)
    → Ring.IsValid fb
    → k < 2 ^ 32
    → wait_until_buffer_size_enough_for_broadcast fb k ≡ some tt
    → fb.tail + k * batch_size ≤ fb.head
woken fb k v small h = ground (arith, (wait_until_iff fb k v small).1)

module _ (worker : ℕ → List ℕ → Type 0) (bm : FrameBatchMap) (clients : ℕ → Client) where
  -- Where the tail has moved up, the dispatcher has what it had.
  DispatcherOk-remove :
      (fb : FrameBuffer) (d : Dispatcher)
      → fb.buffer ≡ bm.buffer.buffer
      → fb.head ≡ bm.buffer.head
      → bm.buffer.tail ≤ fb.tail
      → DispatcherOk worker bm clients d
      → DispatcherOk worker (record bm { buffer = fb }) clients d
  DispatcherOk-remove fb parked mem head le o = o
  DispatcherOk-remove fb (admitted n) mem head le o = (o.0, omega (arith, o.1))
  DispatcherOk-remove fb (running n current tasks) mem head le o = record {
    fits = omega (arith, o.fits);
    starts = rw head o.starts;
    agree = rw (mem, head) o.agree;
    owned = o.owned;
    once = o.once;
  }

  Common-remove :
      (fb : FrameBuffer) (m : ℕ)
      → fb.buffer ≡ bm.buffer.buffer
      → fb.head ≡ bm.buffer.head
      → bm.buffer.tail ≤ fb.tail
      → Ring.IsValid fb
      → Common worker bm clients m
      → Common worker (record bm { buffer = fb }) clients m
  Common-remove fb m mem head le valid v = record {
    ring = valid;
    discipline = record {
      batch = v.discipline.batch;
      has_channel = v.discipline.has_channel;
      flagged = v.discipline.flagged;
      own = v.discipline.own;
    };
    ids = v.ids;
    opened = v.opened;
    used = v.used;
    issued = v.issued;
    stored = λ p al lo hi. rw mem (v.stored p al (omega arith) (omega arith));
  }

module _ (worker : ℕ → List ℕ → Type 0) (s : Pipeline) (v : Inv worker s) where
  pub wake-Inv :
      (k : ℕ)
      → k < 2 ^ 32
      → s.broadcaster ≡ resting
      → wait_until_buffer_size_enough_for_broadcast s.batch_map.buffer k ≡ some tt
      → Inv worker (record s { broadcaster = ready k })
  wake-Inv k small at_rest h = record {
    common = v.common;
    dispatching = v.dispatching;
    broadcasting =
        (small, rw at_rest at v.broadcasting, woken s.batch_map.buffer k v.common.ring small h);
    played = v.played;
  }

  pub copy_frames-Inv :
      (k : ℕ) (frames : Option (List ℕ))
      → s.broadcaster ≡ ready k
      → get_frames_to_broadcast s.batch_map.buffer k ≡ ok frames
      → Inv worker (record s { broadcaster = copied k (or_nil frames) })
  copy_frames-Inv k frames woke h =
      let (small, length_ok, enough) : BroadcasterOk worker s.batch_map s.clients s.stream
          (ready k) =
        rw woke at v.broadcasting in
      let (whole, made) =
        copied-Batches worker s.batch_map s.clients s.next_channel k frames v.common small enough
          h in
      record {
        common = v.common;
        dispatching = v.dispatching;
        broadcasting = (small, length_ok, enough, whole, made);
        played = v.played;
      }

  pub send-Inv :
      (k : ℕ) (frames : List ℕ)
      → s.broadcaster ≡ copied k frames
      → Inv worker (record s { broadcaster = sent k; stream = s.stream ++ frames })
  send-Inv k frames held =
      let (small, length_ok, enough, whole, made) : BroadcasterOk worker s.batch_map s.clients
          s.stream (copied k frames) =
        rw held at v.broadcasting in
      let (m, count, batches) = v.played in
      let all : length (s.stream ++ frames) ≡ length s.stream + length frames =
        length-append s.stream frames in
      record {
        common = v.common;
        dispatching = v.dispatching;
        broadcasting = (small, omega arith, enough);
        played = (
          m + k,
          omega arith,
          Batches-append worker 0 s.batch_map.buffer.tail m k s.stream frames (omega arith) batches
              made,
        );
      }

  pub remove-Inv :
      (k : ℕ) (fb : FrameBuffer)
      → s.broadcaster ≡ sent k
      → remove_sent_frames_from_buffer s.batch_map.buffer k ≡ ok fb
      → Inv worker (record s {
        batch_map = with_buffer s fb;
        broadcaster = resting;
        is_first_broadcast = false;
      })
  remove-Inv k fb done h =
      let (small, length_ok, enough) : BroadcasterOk worker s.batch_map s.clients s.stream
          (sent k) =
        rw done at v.broadcasting in
      let (e, valid) = removed_eq s.batch_map.buffer fb k v.common.ring small enough h in
      let mem : fb.buffer ≡ s.batch_map.buffer.buffer = ap FrameBuffer.buffer e in
      let head : fb.head ≡ s.batch_map.buffer.head = ap FrameBuffer.head e in
      let tail : fb.tail ≡ s.batch_map.buffer.tail + k * batch_size = ap FrameBuffer.tail e in
      record {
        common =
            Common-remove worker s.batch_map s.clients fb s.next_channel mem head (omega arith)
              valid v.common;
        dispatching =
            DispatcherOk-remove worker s.batch_map s.clients fb s.dispatcher mem head (omega arith)
              v.dispatching;
        broadcasting = omega arith;
        played = v.played;
      }
