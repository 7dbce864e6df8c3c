-- ===== src/Orchestrator/BatchMap/Save.antt =====
-- What `SaveRenderResult` of internal/orchestrator/batch_map.go does on each of its branches, and that it
-- keeps the channel discipline (`Validity`).
mod Validity
pub use Validity.*
use distributed_donut.Prelude.{
  ℕ, ◌+◌, ◌*◌, ◌%◌, ◌<◌, ◌≡◌, ◌≢◌, refl, ◌∙◌, ap, ◌⊎◌, inl, inr, none, some, true, false, ◌==◌,
  ◌&&◌, if◌then◌else◌, arith, length, ok, ℕ_discrete, subst, Option-cases, Bool-cases,
}
use distributed_donut.Protocol.{RenderTask, RenderResult, batch_size, frame_size}
use distributed_donut.Buffer.{max_frames, add_frames_to_buffer}
use distributed_donut.Buffer.Ring.Write.{written, add_frames_to_buffer-eq}
use distributed_donut.Client.{Client}
use distributed_donut.Orchestrator.BatchMap.{
  FrameBatchMetadata, FrameBatchMap, put, add_frame_batch, delete_render_task,
  switch_render_task_executor, save_render_result,
}
use distributed_donut.Orchestrator.BatchMap.View.{
  find, find-put, find-add_frame_batch, find-delete_render_task, switch_moves, switch_same_client,
}

-- A result for a task that is not assigned to the client, or that is already stored, changes nothing.
save_unknown :
    (fbm : FrameBatchMap) (c : ℕ) (result : RenderResult)
    → find fbm.frame_batches c result.id ≡ none
    → save_render_result fbm c result ≡ ok fbm
unfolding save_render_result find
save_unknown fbm c result e = rw (e, save_render_result)

save_duplicate :
    (fbm : FrameBatchMap) (c : ℕ) (result : RenderResult) (meta : FrameBatchMetadata)
    → find fbm.frame_batches c result.id ≡ some meta
    → meta.completed ≡ true
    → save_render_result fbm c result ≡ ok fbm
unfolding save_render_result find
save_duplicate fbm c result meta e done = ground arith

-- the map after the first result for a pending task
abbrev pub saved : FrameBatchMap → ℕ → RenderResult → FrameBatchMetadata → ℕ → FrameBatchMap
saved fbm c result meta ch = record {
  frame_batches = put fbm.frame_batches c result.id (record meta { completed = true });
  buffer = record fbm.buffer {
    buffer = written fbm.buffer.buffer (meta.render_task.start_frame * frame_size) result.frames;
  };
  closed = λ k. if ch == k then true else fbm.closed k;
}

save_first :
    (fbm : FrameBatchMap) (c ch : ℕ) (result : RenderResult) (meta : FrameBatchMetadata)
    → IsBatch meta.render_task
    → length result.frames ≡ batch_size
    → find fbm.frame_batches c result.id ≡ some meta
    → meta.completed ≡ false
    → meta.done ≡ some ch
    → fbm.closed ch ≡ false
    → save_render_result fbm c result ≡ ok (saved fbm c result meta ch)
unfolding save_render_result find
save_first fbm c ch result meta b whole e pending d opened = ground (arith, stored)
  where
    start : ℕ
    start = meta.render_task.start_frame

    stored :
        add_frames_to_buffer fbm.buffer start (start + 59) result.frames
        ≡ ok (saved fbm c result meta ch).buffer
    stored =
        subst
          (λ n.
            add_frames_to_buffer fbm.buffer n (n + 59) result.frames
            ≡ ok (saved fbm c result meta ch).buffer)
          (omega arith)
          (add_frames_to_buffer-eq fbm.buffer.buffer (start * frame_size) result.frames
            (omega arith) whole fbm.buffer refl)

pub find-saved :
    (fbm : FrameBatchMap) (c ch : ℕ) (result : RenderResult) (meta : FrameBatchMetadata) (c' t' : ℕ)
    → find (saved fbm c result meta ch).frame_batches c' t' ≡ (
        if c == c' && result.id == t'
        then some (record meta { completed = true })
        else find fbm.frame_batches c' t')
find-saved fbm c ch result meta c' t' =
    find-put fbm.frame_batches c result.id (record meta { completed = true }) c' t'

saved-IsValid :
    (fbm : FrameBatchMap) (c ch : ℕ) (result : RenderResult) (meta : FrameBatchMetadata)
    → IsValid fbm
    → find fbm.frame_batches c result.id ≡ some meta
    → meta.done ≡ some ch
    → IsValid (saved fbm c result meta ch)
saved-IsValid fbm c ch result meta v held d = record {
  batch = λ c' t' meta' e.
      ground (
        arith,
        find-saved fbm c ch result meta c' t',
        v.batch c result.id meta,
        v.batch c' t' meta',
      );
  has_channel = λ c' t' meta' e.
      ground (arith, find-saved fbm c ch result meta c' t', v.has_channel c' t' meta');
  flagged = λ c' t' ch' meta' e d'. ground (
    arith,
    find-saved fbm c ch result meta c' t',
    v.flagged c' t' ch' meta',
    v.own c result.id c' t' ch meta meta',
  );
  own = λ c' t' c'' t'' ch' meta' meta'' e e' d' d''. ground (
    arith,
    find-saved fbm c ch result meta c' t',
    find-saved fbm c ch result meta c'' t'',
    v.own c result.id c'' t'' ch' meta meta'',
    v.own c' t' c result.id ch' meta' meta,
    v.own c' t' c'' t'' ch' meta' meta'',
  );
}

-- `SaveRenderResult` on a map that keeps the discipline, for any client, task id and batch of frames: a
-- result for a task not assigned to the client and one for a completed task change nothing; the first
-- result for a pending task writes its frames at the task's slot, marks the entry completed and closes
-- its channel, which was open. It returns no error and never panics, and the discipline is kept.
pub save_render_result_lem :
    (fbm : FrameBatchMap) (c : ℕ) (result : RenderResult)
    → IsValid fbm
    → length result.frames ≡ batch_size
    → ((find fbm.frame_batches c result.id ≡ none) × (save_render_result fbm c result ≡ ok fbm))
      ⊎ ((meta : FrameBatchMetadata) × (find fbm.frame_batches c result.id ≡ some meta)
          × (meta.completed ≡ true)
          × (save_render_result fbm c result ≡ ok fbm))
      ⊎ ((meta : FrameBatchMetadata) × (ch : ℕ) × (find fbm.frame_batches c result.id ≡ some meta)
          × (meta.completed ≡ false)
          × (meta.done ≡ some ch)
          × (fbm.closed ch ≡ false)
          × (save_render_result fbm c result ≡ ok (saved fbm c result meta ch))
          × IsValid (saved fbm c result meta ch))
save_render_result_lem fbm c result v whole =
    elim (Option-cases (find fbm.frame_batches c result.id)) [
      | inl e ↦ inl (e, save_unknown fbm c result e)
      | inr (meta, e) ↦ elim (Bool-cases meta.completed) [
        | inl done ↦ inr (inl (meta, e, done, save_duplicate fbm c result meta e done))
        | inr pending ↦ elim (Option-cases meta.done) [
          | inl nil ↦ absurd (v.has_channel c result.id meta e nil)
          | inr (ch, d) ↦
              let opened : fbm.closed ch ≡ false = v.flagged c result.id ch meta e d ∙ pending in
              inr (
                inr (
                  meta,
                  ch,
                  e,
                  pending,
                  d,
                  opened,
                  save_first fbm c ch result meta (v.batch c result.id meta e) whole e pending d
                      opened,
                  saved-IsValid fbm c ch result meta v e d,
                ))
        ]
      ]
    ]

-- A second result for the same task, whatever its frames, changes nothing.
pub save_twice :
    (fbm fbm' : FrameBatchMap) (c : ℕ) (result again : RenderResult)
    → IsValid fbm
    → length result.frames ≡ batch_size
    → again.id ≡ result.id
    → save_render_result fbm c result ≡ ok fbm'
    → save_render_result fbm' c again ≡ ok fbm'
save_twice fbm fbm' c result again v whole same h =
    elim (save_render_result_lem fbm c result v whole) [
      | inl (e, r) ↦
          let eq : fbm ≡ fbm' = cc (r, h) in
          subst (λ m. save_render_result m c again ≡ ok m) eq (save_unknown fbm c again (rw same e))
      | inr (inl (meta, e, done, r)) ↦
          let eq : fbm ≡ fbm' = cc (r, h) in
          subst (λ m. save_render_result m c again ≡ ok m) eq
            (save_duplicate fbm c again meta (rw same e) done)
      | inr (inr (meta, ch, e, pending, d, opened, r, _)) ↦
          let eq : saved fbm c result meta ch ≡ fbm' = cc (r, h) in
          subst (λ m. save_render_result m c again ≡ ok m) eq
            (save_duplicate (saved fbm c result meta ch) c again (record meta { completed = true })
              (rw (same, find-saved fbm c ch result meta c result.id) (ground arith)) refl)
    ]
