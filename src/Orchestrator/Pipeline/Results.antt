-- ===== src/Orchestrator/Pipeline/Results.antt =====
-- A result that is saved keeps the invariant.
mod Saved
use distributed_donut.Prelude.{
  ℕ, ◌+◌, ◌*◌, ◌%◌, ◌<◌, ◌≡◌, ◌≢◌, refl, sym, ap, subst, ◌∙◌, List, length, some, true, inl, inr,
  arith, ok, dec_lt,
}
use distributed_donut.Protocol.{RenderResult, batch_size, frame_size}
use distributed_donut.Buffer.{buffer_size, copy_slice}
use distributed_donut.Buffer.Ring.Write.{
  frame_at, written, Apart, window-written, window-written-Apart,
}
use distributed_donut.Client.{Client}
use distributed_donut.Orchestrator.BatchMap.{FrameBatchMap, FrameBatchMetadata, save_render_result}
use distributed_donut.Orchestrator.BatchMap.View.{find}
use distributed_donut.Orchestrator.BatchMap.Save
use distributed_donut.Orchestrator.BatchMap.Save.{saved, find-saved, save_render_result_lem}
use distributed_donut.Orchestrator.Pipeline.{
  Pipeline, Task, spawned, picked, numbered, waiting, timed_out, finished, Dispatcher, parked,
  admitted, running,
}
use distributed_donut.Orchestrator.Pipeline.Batches.{Filled}
use distributed_donut.Orchestrator.Pipeline.Invariant.{
  Owns, Pending, TaskOk, Common, Round, DispatcherOk, Inv,
}
use distributed_donut.Orchestrator.Pipeline.Framing.{BroadcasterOk-buffer}
use distributed_donut.Orchestrator.Pipeline.Slots.{key-cases, frame_at_inj}
use distributed_donut.Orchestrator.Pipeline.Results.Saved.{Common-saved, Round-saved}

owned_start :
    (worker : ℕ → List ℕ → Type 0) (bm : FrameBatchMap) (clients : ℕ → Client) (p : ℕ) (task : Task)
    (c t : ℕ) (meta : FrameBatchMetadata)
    → TaskOk worker bm clients p task
    → Owns task c t
    → find bm.frame_batches c t ≡ some meta
    → meta.render_task.start_frame ≡ frame_at p
owned_start worker bm clients p spawned c t meta o owns e = absurd owns
owned_start worker bm clients p (picked w) c t meta o owns e = absurd owns
owned_start worker bm clients p (numbered w id) c t meta o owns e = absurd owns
owned_start worker bm clients p (waiting w id ch) c t meta (meta', e', d, first, _) (a, b) e =
    ground arith
owned_start worker bm clients p (timed_out w id ch next) c t meta (meta', e', d, first, _) (a, b)
      e =
    ground arith
owned_start worker bm clients p finished c t meta o owns e = absurd owns

saved_dispatcher :
    (worker : ℕ → List ℕ → Type 0) (bm : FrameBatchMap) (clients : ℕ → Client) (m : ℕ)
    (d : Dispatcher) (c ch : ℕ) (result : RenderResult) (meta : FrameBatchMetadata)
    → Common worker bm clients m
    → DispatcherOk worker bm clients d
    → length result.frames ≡ batch_size
    → find bm.frame_batches c result.id ≡ some meta
    → meta.done ≡ some ch
    → worker meta.render_task.start_frame result.frames
    → Save.IsValid (saved bm c result meta ch)
    → DispatcherOk worker (saved bm c result meta ch) clients d
      × Common worker (saved bm c result meta ch) clients m
saved_dispatcher worker bm clients m parked c ch result meta v o whole there d made valid =
    absurd (ground (arith, o c result.id))
saved_dispatcher worker bm clients m (admitted n) c ch result meta v o whole there d made valid =
    absurd (ground (arith, o.0 c result.id))
saved_dispatcher worker bm clients m (running n current tasks) c ch result meta v o whole there d
      made valid =
    let (j, lt, owns) = o.owned c result.id meta there in
    let first =
      owned_start worker bm clients (bm.buffer.head + j * batch_size) (tasks j) c result.id meta
        (o.agree j lt) owns there in
    (
      Round-saved worker bm clients m n current tasks v o c ch j result meta lt owns whole there d
          first made,
      Common-saved worker bm clients m n current tasks v o c ch j result meta lt owns whole there d
          first made valid,
    )

pub result-Inv :
    (worker : ℕ → List ℕ → Type 0) (s : Pipeline) (c : ℕ) (result : RenderResult)
    (bm : FrameBatchMap)
    → Inv worker s
    → length result.frames ≡ batch_size
    → ((meta : FrameBatchMetadata)
        → find s.batch_map.frame_batches c result.id ≡ some meta
        → worker meta.render_task.start_frame result.frames)
    → save_render_result s.batch_map c result ≡ ok bm
    → Inv worker (record s { batch_map = bm })
result-Inv worker s c result bm v whole made h =
    elim (save_render_result_lem s.batch_map c result v.common.discipline whole) [
      | inl (_, e) ↦
          let same : s.batch_map ≡ bm = cc (e, h) in
          subst (λ b. Inv worker (record s { batch_map = b })) same v
      | inr (inl (_, _, _, e)) ↦
          let same : s.batch_map ≡ bm = cc (e, h) in
          subst (λ b. Inv worker (record s { batch_map = b })) same v
      | inr (inr (meta, ch, there, _, d, _, e, valid)) ↦
          let same : saved s.batch_map c result meta ch ≡ bm = cc (e, h) in
          let (dispatching, common) =
            saved_dispatcher worker s.batch_map s.clients s.next_channel s.dispatcher c ch result
              meta v.common v.dispatching whole there d (made meta there) valid in
          subst (λ b. Inv worker (record s { batch_map = b })) same
            (record {
              common = common;
              dispatching = dispatching;
              broadcasting =
                  BroadcasterOk-buffer worker s.batch_map (saved s.batch_map c result meta ch)
                    s.clients s.clients s.stream s.broadcaster refl refl v.broadcasting;
              played = v.played;
            })
    ]
