-- ===== src/Server/Safety.antt =====
-- No sequence of messages can break the orchestrator.
use distributed_donut.Prelude.{
  ℕ, ◌≡◌, ◌≢◌, ◌∙◌, List, [], ◌∷◌, some, ok, err, Panic, inl, inr, ◌⊎◌, Error,
}
use distributed_donut.Client.{Client, handle_received_message}
use distributed_donut.Client.Messages.{handle_received_message_cases}
use distributed_donut.Orchestrator.BatchMap.{FrameBatchMap, handle_result}
use distributed_donut.Orchestrator.BatchMap.Save
use distributed_donut.Orchestrator.BatchMap.Save.{save_render_result_lem, saved}
use distributed_donut.Server.{Read, cancelled, failed, message, panicked, serve}

-- One message, of any bytes, ends in an error or in a map that keeps the discipline.
handled_cases :
    (c : Client) (bm : FrameBatchMap) (m : List ℕ)
    → Save.IsValid bm
    → ((e : Error) × (handle_received_message (some handle_result) c m bm ≡ err e))
      ⊎ ((bm' : FrameBatchMap) × (handle_received_message (some handle_result) c m bm ≡ ok bm')
          × Save.IsValid bm')
unfolding handle_result
handled_cases c bm m v = elim (handle_received_message_cases handle_result c bm m) [
  | inl (e, _, bad) ↦ inl (e, bad)
  | inr (inl (_, _, _, _, passed)) ↦ inr (bm, passed, v)
  | inr (inr (r, _, whole, given)) ↦ elim (save_render_result_lem bm c.id r v whole) [
    | inl (_, e) ↦ inr (bm, given ∙ e, v)
    | inr (inl (_, _, _, e)) ↦ inr (bm, given ∙ e, v)
    | inr (inr (meta, ch, _, _, _, _, e, v')) ↦ inr (saved bm c.id r meta ch, given ∙ e, v')
  ]
]

-- Whatever a client sends, of any bytes and in any order, serving it with the orchestrator's HandleResult
-- never panics, and the batch map keeps its discipline: every channel is closed once, when its entry is
-- completed.
pub serve-IsValid :
    (c : Client) (bm : FrameBatchMap) (reads : List Read)
    → Save.IsValid bm
    → Save.IsValid (serve (some handle_result) c bm reads).1
      × ((p : Panic) → (serve (some handle_result) c bm reads).0 ≢ panicked p)
unfolding serve
serve-IsValid c bm [] v = (v, λ p. cc)
serve-IsValid c bm (cancelled ∷ later) v = (v, λ p. cc)
serve-IsValid c bm (failed ∷ later) v = (v, λ p. cc)
serve-IsValid c bm (message m ∷ later) v = elim (handled_cases c bm m v) [
  | inl (e, bad) ↦ rw (bad, serve) (v, λ p. cc)
  | inr (bm', good, v') ↦ rw (good, serve) (serve-IsValid c bm' later v')
]
