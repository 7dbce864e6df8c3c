-- ===== src/Orchestrator/BatchMap/Tests.antt =====
-- internal/orchestrator/batch_map.go on a map with two pending tasks.
use distributed_donut.Prelude.{
  ℕ, ◌+◌, ◌≡◌, ◌⊎◌, inl, inr, refl, [], ◌∷◌, length-replicate, replicate, ok, none, some, true,
  false, if◌then◌else◌, ◌==◌, ◌&&◌, arith, u32,
}
use distributed_donut.Prelude.Map.{lookup}
use distributed_donut.Protocol.{RenderResult, batch_size}
use distributed_donut.Client.{Client}
use distributed_donut.Orchestrator.BatchMap.{
  FrameBatchMetadata, FrameBatchMap, switch_render_task_executor, save_render_result, get_length,
}
use distributed_donut.Orchestrator.BatchMap.View.{find, switch_render_task_executor_lem}
use distributed_donut.Orchestrator.BatchMap.Save.{IsValid, saved, save_render_result_lem}

abbrev first_task : FrameBatchMetadata
first_task = record {
  render_task = record { id = 0; start_frame = 0; end_frame = 59 };
  completed = false;
  done = some 0;
}

abbrev second_task : FrameBatchMetadata
second_task = record {
  render_task = record { id = 4; start_frame = 60; end_frame = 119 };
  completed = false;
  done = some 1;
}

-- Client 1 has task 0.
abbrev one_pending : FrameBatchMap
one_pending = record {
  frame_batches = (1, (0, first_task) ∷ []) ∷ [];
  buffer = record { buffer = λ _. 0; head = 0; tail = 0 };
  closed = λ _. false;
}

abbrev second_client : Client
second_client = record {
  id = 2;
  conn_open = true;
  num_render_tasks = 8;
  send = [];
  quit = false;
  closed = false;
  pooled = true;
}

abbrev one_result : RenderResult
one_result = record { id = 0; frames = replicate batch_size 7 }

one_task : get_length one_pending 1 ≡ 1
unfolding get_length lookup
one_task = refl

one_pending-find :
    (c t : ℕ) (meta : FrameBatchMetadata)
    → find one_pending.frame_batches c t ≡ some meta
    → (c ≡ 1) × (t ≡ 0) × (meta ≡ first_task)
unfolding find lookup
one_pending-find c t meta e = ground arith

one_pending-IsValid : IsValid one_pending
one_pending-IsValid = record {
  batch = λ c t meta e. ground (arith, one_pending-find c t meta);
  has_channel = λ c t meta e. ground (arith, one_pending-find c t meta);
  flagged = λ c t ch meta e d. ground (arith, one_pending-find c t meta);
  own = λ c t c' t' ch meta meta' e e' d d'.
      ground (arith, one_pending-find c t meta, one_pending-find c' t' meta');
}

found : find one_pending.frame_batches 1 0 ≡ some first_task
unfolding find lookup
found = refl

save_render_result_lem_example :
    ((find one_pending.frame_batches 1 0 ≡ none)
      × (save_render_result one_pending 1 one_result ≡ ok one_pending))
    ⊎ ((meta : FrameBatchMetadata) × (find one_pending.frame_batches 1 0 ≡ some meta)
        × (meta.completed ≡ true)
        × (save_render_result one_pending 1 one_result ≡ ok one_pending))
    ⊎ ((meta : FrameBatchMetadata) × (ch : ℕ) × (find one_pending.frame_batches 1 0 ≡ some meta)
        × (meta.completed ≡ false)
        × (meta.done ≡ some ch)
        × (one_pending.closed ch ≡ false)
        × (save_render_result one_pending 1 one_result
            ≡ ok (saved one_pending 1 one_result meta ch))
        × IsValid (saved one_pending 1 one_result meta ch))
save_render_result_lem_example =
    save_render_result_lem one_pending 1 one_result one_pending-IsValid
      (length-replicate batch_size 7)

first_save : (fbm : FrameBatchMap) × (save_render_result one_pending 1 one_result ≡ ok fbm)
first_save =
    elim (save_render_result_lem one_pending 1 one_result one_pending-IsValid
      (length-replicate batch_size 7)) [
        | inl (_, e) ↦ (_, e)
        | inr (inl (_, _, _, e)) ↦ (_, e)
        | inr (inr (_, _, _, _, _, _, e, _)) ↦ (_, e)
      ]

switch_render_task_executor_lem_example :
    (fbm' : FrameBatchMap) × (switch_render_task_executor one_pending 0 1 second_client
      ≡ ok (8, fbm', record second_client { num_render_tasks = u32 (8 + 1) }))
    × ((c' t' : ℕ)
        → find fbm'.frame_batches c' t' ≡ (
            if 1 == c' && 0 == t'
            then none
            else if 2 == c' && 8 == t'
            then some first_task
            else find one_pending.frame_batches c' t'))
    × (fbm'.buffer ≡ one_pending.buffer)
    × (fbm'.closed ≡ one_pending.closed)
switch_render_task_executor_lem_example =
    switch_render_task_executor_lem one_pending 0 1 second_client first_task (omega arith) found

one_switch :
    (fbm : FrameBatchMap) × (switch_render_task_executor one_pending 0 1 second_client
      ≡ ok (8, fbm, record second_client { num_render_tasks = u32 (8 + 1) }))
one_switch =
    let (fbm, e, _, _, _) =
      switch_render_task_executor_lem one_pending 0 1 second_client first_task (omega arith)
        found in
    (fbm, e)
