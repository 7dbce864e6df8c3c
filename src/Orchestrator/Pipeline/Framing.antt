-- ===== src/Orchestrator/Pipeline/Framing.antt =====
-- What a step of one task leaves to the other tasks of the round.
use distributed_donut.Prelude.{
  ℕ, ◌+◌, ◌*◌, ◌≤◌, ◌<◌, ◌≡◌, ◌≢◌, refl, sym, ap, subst, ◌∙◌, List, none, some, inl, inr, ◌⊎◌,
  arith, ℕ_discrete,
}
use distributed_donut.Protocol.{batch_size}
use distributed_donut.Buffer.{FrameBuffer}
use distributed_donut.Buffer.Ring.Write.{frame_at}
use distributed_donut.Client.{Client}
use distributed_donut.Orchestrator.BatchMap.{FrameBatchMap, FrameBatchMetadata}
use distributed_donut.Orchestrator.BatchMap.View.{find}
use distributed_donut.Orchestrator.Pipeline.{
  Task, spawned, picked, numbered, waiting, timed_out, finished, update, Dispatcher, parked,
  admitted, running, Broadcaster, resting, ready, copied, sent,
}
use distributed_donut.Orchestrator.Pipeline.Invariant.{
  Owns, TaskOk, Round, BroadcasterOk, DispatcherOk,
}

module _ {ℓ} {A : Type ℓ} (f : ℕ → A) (j : ℕ) (a : A) where
  pub update_same : update f j a j ≡ a
  update_same = ground arith

  pub update_other : (i : ℕ) → i ≢ j → update f j a i ≡ f i
  update_other i ne = ground arith

module _ (worker : ℕ → List ℕ → Type 0) (bm bm' : FrameBatchMap)
    (clients clients' : ℕ → Client) where
  -- A task keeps what it has if its own entry, or the place for it, is left alone.
  abbrev pub Spares : ℕ → Task → Type 0
  Spares p task =
      ((w id : ℕ)
        → task ≡ numbered w id
        → find bm.frame_batches w id ≡ none
        → find bm'.frame_batches w id ≡ none)
      × ((c t : ℕ) (meta : FrameBatchMetadata)
          → Owns task c t
          → find bm.frame_batches c t ≡ some meta
          → meta.render_task.start_frame ≡ frame_at p
          → find bm'.frame_batches c t ≡ some meta)

  pub BroadcasterOk-buffer :
      (stream : List ℕ) (b : Broadcaster)
      → bm'.buffer.head ≡ bm.buffer.head
      → bm'.buffer.tail ≡ bm.buffer.tail
      → BroadcasterOk worker bm clients stream b
      → BroadcasterOk worker bm' clients' stream b
  BroadcasterOk-buffer stream resting head tail o = rw tail o
  BroadcasterOk-buffer stream (ready k) head tail o = rw (head, tail) o
  BroadcasterOk-buffer stream (copied k frames) head tail o = rw (head, tail) o
  BroadcasterOk-buffer stream (sent k) head tail o = rw (head, tail) o

  TaskOk-Spares :
      (p : ℕ) (task : Task)
      → bm'.buffer ≡ bm.buffer
      → ((c : ℕ) → (clients c).num_render_tasks ≤ (clients' c).num_render_tasks)
      → Spares p task
      → TaskOk worker bm clients p task
      → TaskOk worker bm' clients' p task
  TaskOk-Spares p spawned same more spares o = tt
  TaskOk-Spares p (picked w) same more spares o = tt
  TaskOk-Spares p (numbered w id) same more spares (lt, free) =
      (omega (arith, more w), spares.0 w id refl free)
  TaskOk-Spares p (waiting w id ch) same more spares (meta, e, d, first, filled) =
      (meta, spares.1 w id meta (refl, refl) e first, d, first, rw same filled)
  TaskOk-Spares p (timed_out w id ch next) same more spares (meta, e, d, first, filled) =
      (meta, spares.1 w id meta (refl, refl) e first, d, first, rw same filled)
  TaskOk-Spares p finished same more spares o = rw same o

  -- The round after a step of task `j`.
  pub Round-update :
      (n current j : ℕ) (tasks : ℕ → Task) (next : Task)
      → Round worker bm clients n current tasks
      → bm'.buffer ≡ bm.buffer
      → ((c : ℕ) → (clients c).num_render_tasks ≤ (clients' c).num_render_tasks)
      → j < n
      → TaskOk worker bm' clients' (bm.buffer.head + j * batch_size) next
      → ((i : ℕ) → i < n → i ≢ j → Spares (bm.buffer.head + i * batch_size) (tasks i))
      → ((c t : ℕ) (meta' : FrameBatchMetadata)
          → find bm'.frame_batches c t ≡ some meta'
          → Owns next c t
            ⊎ ((meta : FrameBatchMetadata) × (find bm.frame_batches c t ≡ some meta)
                × (Owns (tasks j) c t → Owns next c t)))
      → ((w id : ℕ) → next ≡ numbered w id → (i : ℕ) → i < n → i ≢ j → tasks i ≢ numbered w id)
      → Round worker bm' clients' n current (update tasks j next)
  Round-update n current j tasks next r same more lt o spares left fresh = record {
    fits = rw same r.fits;
    starts = rw same r.starts;
    agree = λ i below.
        subst (λ h. TaskOk worker bm' clients' (h + i * batch_size) (update tasks j next i))
          (sym (ap FrameBuffer.head same)) (agrees i below);
    owned = λ c t meta' e. elim (left c t meta' e) [
      | inl own ↦ (j, lt, subst (λ task. Owns task c t) (sym (update_same tasks j next)) own)
      | inr (meta, old, kept) ↦
          let (i, below, his) = r.owned c t meta old in
          elim (ℕ_discrete i j) [
            | yes a ↦
                let own : Owns (tasks j) c t = subst (λ k. Owns (tasks k) c t) a his in
                (j, lt, subst (λ task. Owns task c t) (sym (update_same tasks j next)) (kept own))
            | no ne ↦
                (i, below, subst (λ task. Owns task c t) (sym (update_other tasks j next i ne)) his)
          ]
    ];
    once = λ i i' w id below below' e e'. elim (ℕ_discrete i j) [
      | yes a ↦ elim (ℕ_discrete i' j) [
        | yes b ↦ a ∙ sym b
        | no b ↦ absurd (fresh w id (mine i a w id e) i' below' b (theirs i' b w id e'))
      ]
      | no a ↦ elim (ℕ_discrete i' j) [
        | yes b ↦ absurd (fresh w id (mine i' b w id e') i below a (theirs i a w id e))
        | no b ↦ r.once i i' w id below below' (theirs i a w id e) (theirs i' b w id e')
      ]
    ];
  }
    where
      mine :
          (i : ℕ)
          → i ≡ j
          → (w id : ℕ) → update tasks j next i ≡ numbered w id
          → next ≡ numbered w id
      mine i a w id e = sym (update_same tasks j next) ∙ ap (update tasks j next) (sym a) ∙ e

      theirs :
          (i : ℕ)
          → i ≢ j
          → (w id : ℕ) → update tasks j next i ≡ numbered w id
          → tasks i ≡ numbered w id
      theirs i a w id e = sym (update_other tasks j next i a) ∙ e

      agrees :
          (i : ℕ)
          → i < n
          → TaskOk worker bm' clients' (bm.buffer.head + i * batch_size) (update tasks j next i)
      agrees i below = elim (ℕ_discrete i j) [
        | yes e ↦
            subst
              (λ k.
                TaskOk worker bm' clients' (bm.buffer.head + k * batch_size)
                  (update tasks j next k))
              (sym e)
              (subst (TaskOk worker bm' clients' (bm.buffer.head + j * batch_size))
                (sym (update_same tasks j next)) o)
        | no ne ↦
            subst (TaskOk worker bm' clients' (bm.buffer.head + i * batch_size))
              (sym (update_other tasks j next i ne))
              (TaskOk-Spares (bm.buffer.head + i * batch_size) (tasks i) same more
                (spares i below ne) (r.agree i below))
      ]

pub DispatcherOk-clients :
    (worker : ℕ → List ℕ → Type 0) (bm : FrameBatchMap) (clients clients' : ℕ → Client)
    (d : Dispatcher)
    → ((c : ℕ) → (clients c).num_render_tasks ≤ (clients' c).num_render_tasks)
    → DispatcherOk worker bm clients d
    → DispatcherOk worker bm clients' d
DispatcherOk-clients worker bm clients clients' parked more o = o
DispatcherOk-clients worker bm clients clients' (admitted n) more o = o
DispatcherOk-clients worker bm clients clients' (running n current tasks) more o = record {
  fits = o.fits;
  starts = o.starts;
  agree = λ i below.
      TaskOk-Spares worker bm bm clients clients' (bm.buffer.head + i * batch_size) (tasks i) refl
        more (λ w id e free. free, λ c t meta o' e first. e) (o.agree i below);
  owned = o.owned;
  once = o.once;
}
