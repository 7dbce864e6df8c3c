-- ===== src/Orchestrator/Pipeline/Calls.antt =====
-- What the broadcaster's next call comes to, where its program counter and the ring agree.
use distributed_donut.Prelude.{
  u32, dec_lt, lt→ltb, ltb, if◌then◌else◌, refl, sym, subst, ◌+◌, ℕ, ◌*◌, List, take, some, ok, ◌≡◌,
  inl, inr, arith, ◌⊎◌, ◌≢◌, ◌==◌, true, false, ℕ_discrete, Outcome, err, panic, ◌>>=◌,
}
use distributed_donut.Protocol.{batch_size}
use distributed_donut.Client.{Client}
use distributed_donut.Buffer.{FrameBuffer, get_frames_to_broadcast, remove_sent_frames_from_buffer}
use distributed_donut.Buffer.Ring.{contents, IsValid}
use distributed_donut.Buffer.Ring.Read.{
  get_frames_to_broadcast_lem, remove_sent_frames_from_buffer_lem,
}
use distributed_donut.Orchestrator.BatchMap.{FrameBatchMap, switch_render_task_executor}
use distributed_donut.Orchestrator.Pipeline.{
  Broadcaster, resting, ready, copied, sent, reassign, Task, spawned, picked, numbered, waiting,
  timed_out, finished, Dispatcher, parked, admitted, running,
}
use distributed_donut.Orchestrator.Pipeline.Invariant.{BroadcasterOk, Pending, TaskOk, DispatcherOk}
use distributed_donut.Orchestrator.BatchMap.View.{find, switch_moves}

-- Before GetFramesToBroadcast there are frames to copy, and before RemoveSentFramesFromBuffer there is what
-- it removes.
pub data GoesOn (fb : FrameBuffer) : Broadcaster → Type 0 where
  may_rest : GoesOn fb resting
  can_copy :
      {k : ℕ} (frames : List ℕ)
      → get_frames_to_broadcast fb k ≡ ok (some frames)
      → GoesOn fb (ready k)
  may_send : {k : ℕ} {frames : List ℕ} → GoesOn fb (copied k frames)
  can_remove :
      {k : ℕ} (fb' : FrameBuffer)
      → remove_sent_frames_from_buffer fb k ≡ ok fb'
      → GoesOn fb (sent k)

pub BroadcasterOk-GoesOn :
    (worker : ℕ → List ℕ → Type 0) (bm : FrameBatchMap) (clients : ℕ → Client) (stream : List ℕ)
    (b : Broadcaster)
    → IsValid bm.buffer
    → BroadcasterOk worker bm clients stream b
    → GoesOn bm.buffer b
BroadcasterOk-GoesOn worker bm clients stream resting ring v = may_rest
BroadcasterOk-GoesOn worker bm clients stream (ready k) ring (small, _, enough) =
    elim (get_frames_to_broadcast_lem bm.buffer k ring small) [
      | inl (short, _) ↦ absurd (omega arith)
      | inr (_, e) ↦ can_copy (take (k * batch_size) (contents bm.buffer)) e
    ]
BroadcasterOk-GoesOn worker bm clients stream (copied k frames) ring v = may_send
BroadcasterOk-GoesOn worker bm clients stream (sent k) ring (small, _, enough) =
    elim (remove_sent_frames_from_buffer_lem bm.buffer k ring small) [
      | inl (short, _) ↦ absurd (omega arith)
      | inr (fb, e, _, _, _, _) ↦ can_remove fb e
    ]

abbrev pub Reassigned : Type 0
Reassigned = ℕ × ℕ × FrameBatchMap × Client

abbrev switched_to : ℕ → ℕ × FrameBatchMap × Client → Outcome Reassigned
switched_to next (id, bm, c) = ok (next, id, bm, c)

switched_cases :
    (next : ℕ) (o : Outcome (ℕ × FrameBatchMap × Client)) (w' id' : ℕ) (bm' : FrameBatchMap)
    (c' : Client)
    → (o >>= switched_to next) ≡ ok (w', id', bm', c')
    → (next ≡ w') × (o ≡ ok (id', bm', c'))
switched_cases next (ok (id, bm, c)) w' id' bm' c' h = (cc h, cc h)
switched_cases next (err e) w' id' bm' c' h = absurd cc
switched_cases next (panic p) w' id' bm' c' h = absurd cc

-- The two ways of going on after a timeout.
pub reassign_cases :
    (bm : FrameBatchMap) (clients : ℕ → Client) (w id next w' id' : ℕ) (bm' : FrameBatchMap)
    (c' : Client)
    → reassign bm clients w id next ≡ ok (w', id', bm', c')
    → (((clients next).id ≡ (clients w).id)
        × (◌≡◌ {A = Reassigned} (w, id, bm, clients w) (w', id', bm', c')))
      ⊎ (((clients next).id ≢ (clients w).id)
          × (next ≡ w')
          × (switch_render_task_executor bm id (clients w).id (clients next) ≡ ok (id', bm', c')))
unfolding reassign
reassign_cases bm clients w id next w' id' bm' c' h =
    elim (ℕ_discrete (clients next).id (clients w).id) [
      | yes same ↦
          let t : ((clients next).id == (clients w).id) ≡ true = ground arith in
          let h' : ok (w, id, bm, clients w) ≡ ok (w', id', bm', c') = rw t at h in
          inl (same, cc h')
      | no ne ↦
          let t : ((clients next).id == (clients w).id) ≡ false = ground arith in
          let o = switch_render_task_executor bm id (clients w).id (clients next) in
          let h' : (o >>= switched_to next) ≡ ok (w', id', bm', c') = rw t at h in
          let (a, b) = switched_cases next o w' id' bm' c' h' in inr (ne, a, b)
    ]

-- A task whose wait timed out can be assigned again.
pub data TaskGoesOn (bm : FrameBatchMap) (clients : ℕ → Client) : Task → Type 0 where
  may_pick : TaskGoesOn bm clients spawned
  may_number : {w : ℕ} → TaskGoesOn bm clients (picked w)
  may_assign : {w id : ℕ} → TaskGoesOn bm clients (numbered w id)
  may_wait : {w id ch : ℕ} → TaskGoesOn bm clients (waiting w id ch)
  can_assign :
      {w id ch next : ℕ} (r : Reassigned)
      → reassign bm clients w id next ≡ ok r
      → TaskGoesOn bm clients (timed_out w id ch next)
  over : TaskGoesOn bm clients finished

-- the goroutine of task `j`, where there is one
abbrev pub task_of : Dispatcher → ℕ → Task
task_of parked j = finished
task_of (admitted n) j = finished
task_of (running n current tasks) j = if ltb j n then tasks j else finished

-- Whichever client was picked, a pending task is assigned again.
pub Pending-reassign :
    (worker : ℕ → List ℕ → Type 0) (bm : FrameBatchMap) (clients : ℕ → Client)
    → ((i : ℕ) → (clients i).id ≡ i)
    → (p w id ch next : ℕ) → Pending worker bm clients p w id ch
    → (r : Reassigned) × (reassign bm clients w id next ≡ ok r)
unfolding reassign
Pending-reassign worker bm clients ids p w id ch next (meta, there, _, _, _) =
    elim (ℕ_discrete (clients next).id (clients w).id) [
      | yes same ↦
          let t : ((clients next).id == (clients w).id) ≡ true = ground arith in
          ((w, id, bm, clients w), rw t refl)
      | no ne ↦
          let t : ((clients next).id == (clients w).id) ≡ false = ground arith in
          let there' : find bm.frame_batches (clients w).id id ≡ some meta =
            subst (λ k. find bm.frame_batches k id ≡ some meta) (sym (ids w)) there in
          let (map', eq, _, _, _, _) =
            switch_moves bm id (clients w).id (clients next) meta (λ k. ne (sym k)) there' in
          let new_id = (clients next).num_render_tasks in
          (
            (next, new_id, map', record (clients next) { num_render_tasks = u32 (new_id + 1) }),
            rw (t, eq) refl,
          )
    ]

TaskOk-TaskGoesOn :
    (worker : ℕ → List ℕ → Type 0) (bm : FrameBatchMap) (clients : ℕ → Client)
    → ((i : ℕ) → (clients i).id ≡ i)
    → (p : ℕ) (t : Task) → TaskOk worker bm clients p t
    → TaskGoesOn bm clients t
TaskOk-TaskGoesOn worker bm clients ids p spawned ok_ = may_pick
TaskOk-TaskGoesOn worker bm clients ids p (picked w) ok_ = may_number
TaskOk-TaskGoesOn worker bm clients ids p (numbered w id) ok_ = may_assign
TaskOk-TaskGoesOn worker bm clients ids p (waiting w id ch) ok_ = may_wait
TaskOk-TaskGoesOn worker bm clients ids p (timed_out w id ch next) ok_ =
    let (r, e) = Pending-reassign worker bm clients ids p w id ch next ok_ in can_assign r e
TaskOk-TaskGoesOn worker bm clients ids p finished ok_ = over

pub DispatcherOk-TaskGoesOn :
    (worker : ℕ → List ℕ → Type 0) (bm : FrameBatchMap) (clients : ℕ → Client)
    → ((i : ℕ) → (clients i).id ≡ i)
    → (d : Dispatcher) (j : ℕ) → DispatcherOk worker bm clients d
    → TaskGoesOn bm clients (task_of d j)
DispatcherOk-TaskGoesOn worker bm clients ids parked j v = over
DispatcherOk-TaskGoesOn worker bm clients ids (admitted n) j v = over
DispatcherOk-TaskGoesOn worker bm clients ids (running n current tasks) j v = elim (dec_lt j n) [
  | yes lt ↦ rw (lt→ltb j n lt) (
      TaskOk-TaskGoesOn worker bm clients ids (bm.buffer.head + j * batch_size) (tasks j)
        (v.agree j lt))
  | no ge ↦ let t : ltb j n ≡ false = ground arith in rw t over
]
