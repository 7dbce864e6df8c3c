-- ===== src/Orchestrator/Pipeline/Results/Saved.antt =====
-- What the map after a saved result is to the tasks of the round.
use distributed_donut.Prelude.{
  ℕ, ◌+◌, ◌*◌, ◌%◌, ◌<◌, ◌≡◌, ◌≢◌, refl, sym, ap, subst, ◌∙◌, List, length, some, true, inl, inr,
  arith, dec_lt,
}
use distributed_donut.Protocol.{RenderResult, batch_size, frame_size}
use distributed_donut.Buffer.{buffer_size, copy_slice}
use distributed_donut.Buffer.Ring.Write.{
  frame_at, written, Apart, window-written, window-written-Apart,
}
use distributed_donut.Client.{Client}
use distributed_donut.Orchestrator.BatchMap.{FrameBatchMap, FrameBatchMetadata}
use distributed_donut.Orchestrator.BatchMap.View.{find}
use distributed_donut.Orchestrator.BatchMap.Save
use distributed_donut.Orchestrator.BatchMap.Save.{saved, find-saved, save_render_result_lem}
use distributed_donut.Orchestrator.Pipeline.{
  Task, spawned, picked, numbered, waiting, timed_out, finished,
}
use distributed_donut.Orchestrator.Pipeline.Batches.{Filled}
use distributed_donut.Orchestrator.Pipeline.Invariant.{Owns, Pending, TaskOk, Common, Round}
use distributed_donut.Orchestrator.Pipeline.Slots.{key-cases, frame_at_inj}

written-frame_at :
    (mem : ℕ → ℕ) (p : ℕ) (frames : List ℕ)
    → p % batch_size ≡ 0
    → written mem (frame_at p * frame_size) frames ≡ written mem p frames
written-frame_at mem p frames aligned =
    let same : frame_at p * frame_size % buffer_size ≡ p % buffer_size = omega arith in
    ap (λ k. copy_slice mem k (k + batch_size) frames) same

module _ (worker : ℕ → List ℕ → Type 0) (mem : ℕ → ℕ) (p : ℕ) (frames : List ℕ)
    (aligned : p % batch_size ≡ 0) (whole : length frames ≡ batch_size) where
  Filled-here : worker (frame_at p) frames → Filled worker (written mem p frames) p
  Filled-here made =
      subst (worker (frame_at p)) (sym (window-written mem p frames aligned whole)) made

  Filled-Apart :
      (q : ℕ) → Apart p q batch_size → Filled worker mem q → Filled worker (written mem p frames) q
  Filled-Apart q apart filled =
      subst (worker (frame_at q))
        (sym (window-written-Apart mem p frames aligned whole q batch_size apart)) filled

module _ (worker : ℕ → List ℕ → Type 0) (bm : FrameBatchMap) (clients : ℕ → Client)
    (m n current : ℕ) (tasks : ℕ → Task) (v : Common worker bm clients m)
    (r : Round worker bm clients n current tasks) (c ch j : ℕ) (result : RenderResult)
    (meta : FrameBatchMetadata) (lt : j < n) (owns : Owns (tasks j) c result.id)
    (whole : length result.frames ≡ batch_size)
    (there : find bm.frame_batches c result.id ≡ some meta) (d : meta.done ≡ some ch)
    (first : meta.render_task.start_frame ≡ frame_at (bm.buffer.head + j * batch_size))
    (made : worker meta.render_task.start_frame result.frames) where
  abbrev slot : ℕ → ℕ
  slot i = bm.buffer.head + i * batch_size

  memory :
      (saved bm c result meta ch).buffer.buffer ≡ written bm.buffer.buffer (slot j) result.frames
  memory =
      ap (λ k. written bm.buffer.buffer (k * frame_size) result.frames) first
      ∙ written-frame_at bm.buffer.buffer (slot j) result.frames
          (omega (arith, v.ring.head_aligned))

  stays :
      (q : ℕ)
      → Apart (slot j) q batch_size
      → Filled worker bm.buffer.buffer q
      → Filled worker (saved bm c result meta ch).buffer.buffer q
  stays q apart filled =
      subst (λ mem. Filled worker mem q) (sym memory)
        (Filled-Apart worker bm.buffer.buffer (slot j) result.frames
          (omega (arith, v.ring.head_aligned)) whole q apart filled)

  comes : Filled worker (saved bm c result meta ch).buffer.buffer (slot j)
  comes =
      subst (λ mem. Filled worker mem (slot j)) (sym memory)
        (Filled-here worker bm.buffer.buffer (slot j) result.frames
          (omega (arith, v.ring.head_aligned)) whole
          (subst (λ f. worker f result.frames) first made))

  others : (i : ℕ) → i < n → i ≢ j → Apart (slot j) (slot i) batch_size
  others i below ne = elim (dec_lt i j) [
    | yes before ↦ inl (omega arith, omega (arith, r.fits, v.ring.ordered))
    | no after ↦ inr (omega arith, omega (arith, r.fits, v.ring.ordered))
  ]

  abbrev saved_memory : ℕ → ℕ
  saved_memory = (saved bm c result meta ch).buffer.buffer

  pub Common-saved :
      Save.IsValid (saved bm c result meta ch) → Common worker (saved bm c result meta ch) clients m
  Common-saved valid = record {
    ring = omega (arith, v.ring);
    discipline = valid;
    ids = v.ids;
    opened = λ ch' le. ground (arith, v.opened ch' le, v.used c result.id ch meta there d);
    used = λ c' t ch' meta' e d'. ground (
      arith,
      find-saved bm c ch result meta c' t,
      v.used c' t ch' meta',
      v.used c result.id ch' meta there,
    );
    issued = λ c' t meta' e. ground (
      arith,
      find-saved bm c ch result meta c' t,
      v.issued c' t meta',
      v.issued c result.id meta there,
    );
    stored = λ p al lo hi. stays p (inl (omega arith, omega (arith, r.fits))) (v.stored p al lo hi);
  }

  Pending-saved :
      (i w id ch' : ℕ)
      → i < n
      → ((c' t : ℕ) → Owns (tasks i) c' t → (w ≡ c') × (id ≡ t))
      → Pending worker bm clients (slot i) w id ch'
      → Pending worker (saved bm c result meta ch) clients (slot i) w id ch'
  Pending-saved i w id ch' below only (meta', there', d', first', filled) =
      elim (key-cases c result.id w id) [
        | inl (a, b) ↦
            let one : meta ≡ meta' = ground arith in
            let start : meta.render_task.start_frame ≡ frame_at (slot i) = ground arith in
            let ij : i ≡ j =
              frame_at_inj bm.buffer n i j v.ring r.fits below lt (sym start ∙ first) in
            (
              record meta { completed = true },
              ground (arith, find-saved bm c ch result meta w id),
              ground arith,
              start,
              λ done. subst (λ k. Filled worker saved_memory (slot k)) (sym ij) comes,
            )
        | inr other ↦ (
          meta',
          ground (arith, find-saved bm c ch result meta w id),
          d',
          first',
          λ done.
              stays (slot i)
                (others i below λ ij.
                  let o =
                    only c result.id (subst (λ k. Owns (tasks k) c result.id) (sym ij) owns) in
                  let same_client : w ≡ c = o.0 in
                  let same_task : id ≡ result.id = o.1 in ground arith)
                (filled done),
        )
      ]

  TaskOk-saved :
      (i : ℕ) (task : Task)
      → i < n
      → tasks i ≡ task
      → TaskOk worker bm clients (slot i) task
      → TaskOk worker (saved bm c result meta ch) clients (slot i) task
  TaskOk-saved i spawned below e o = tt
  TaskOk-saved i (picked w) below e o = tt
  TaskOk-saved i (numbered w id) below e (less, free) =
      (less, ground (arith, find-saved bm c ch result meta w id))
  TaskOk-saved i (waiting w id ch') below e o =
      Pending-saved i w id ch' below (λ c' t o'. subst (λ task. Owns task c' t) e o') o
  TaskOk-saved i (timed_out w id ch' next) below e o =
      Pending-saved i w id ch' below (λ c' t o'. subst (λ task. Owns task c' t) e o') o
  TaskOk-saved i finished below e o =
      stays (slot i)
        (others i below λ ij.
          subst (λ task. Owns task c result.id) e
            (subst (λ k. Owns (tasks k) c result.id) (sym ij) owns))
        o

  pub Round-saved : Round worker (saved bm c result meta ch) clients n current tasks
  Round-saved = record {
    fits = r.fits;
    starts = r.starts;
    agree = λ i below. TaskOk-saved i (tasks i) below refl (r.agree i below);
    owned = λ c' t meta' e. elim (key-cases c result.id c' t) [
      | inl (a, b) ↦ (
        j,
        lt,
        subst (λ k. Owns (tasks j) c' k) b (subst (λ k. Owns (tasks j) k result.id) a owns),
      )
      | inr other ↦ r.owned c' t meta' (ground (arith, find-saved bm c ch result meta c' t, other))
    ];
    once = r.once;
  }
