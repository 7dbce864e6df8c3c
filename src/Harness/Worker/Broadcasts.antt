-- ===== src/Harness/Worker/Broadcasts.antt =====
-- What a worker that only watches collects.
use distributed_donut.Prelude.{
  ℕ, ◌+◌, ◌≡◌, refl, sym, ap, ◌∙◌, List, [], ◌∷◌, ◌++◌, append-nil, append_assoc, arith, ok, true,
  false, ◌==◌, if◌then◌else◌, Bool-cases, inl, inr,
}
use distributed_donut.Protocol.{
  message_type_render_task, message_type_frame_broadcast, encode_frame_broadcast,
}
use distributed_donut.Protocol.RoundTrip.{encode_frame_broadcast_layout}
use distributed_donut.Protocol.Errors.{decode_render_task_cases}
use distributed_donut.Harness.Worker.{
  Worker, WorkerConfig, Chance, handle_task, answer_task, collect_broadcast, on_message, run,
}

-- the frames that one message broadcasts
abbrev pub payload : List ℕ → List ℕ
payload [] = []
payload (tag ∷ body) = if tag == message_type_frame_broadcast then body else []

-- the frames that the messages broadcast, one after the other
unfoldable pub payloads : List (List ℕ × Chance) → List ℕ
payloads [] = []
payloads ((msg, chance) ∷ reads) = payload msg ++ payloads reads

-- A worker that watches: it returns nothing and keeps all.
pub record Watches (w : Worker) : Type 0 where
  pub stays : w.cfg.disconnect_after ≡ 0
  pub silent : w.cfg.silent ≡ true
  pub collects : w.cfg.collect_broadcasts ≡ true
  pub connected : w.conn_open ≡ true

-- After one message: nothing is sent, and the broadcast is appended.
abbrev Watched : Worker → List ℕ → Worker → Type 0
Watched w msg w' =
    (w'.received ≡ w.received ++ payload msg)
    × (w'.cfg ≡ w.cfg)
    × (w'.conn_open ≡ w.conn_open)
    × (w'.results_sent ≡ w.results_sent)
    × (w'.tasks_received + w.results_dropped ≡ w'.results_dropped + w.tasks_received)

handle_task-Watches :
    (w : Worker) (body : List ℕ) (chance : Chance)
    → Watches w
    → (w' : Worker) × (handle_task w body chance ≡ ok (w', []))
      × (w'.received ≡ w.received)
      × (w'.cfg ≡ w.cfg)
      × (w'.conn_open ≡ w.conn_open)
      × (w'.results_sent ≡ w.results_sent)
      × (w'.tasks_received + w.results_dropped ≡ w'.results_dropped + w.tasks_received)
unfolding handle_task answer_task
handle_task-Watches w body chance v = elim (decode_render_task_cases body) [
  | inl (_, e) ↦ (w, rw (e, handle_task) refl, refl, refl, refl, refl, omega arith)
  | inr ((id, first, last), e) ↦ (
    record w { tasks_received = w.tasks_received + 1; results_dropped = w.results_dropped + 1 },
    rw (e, handle_task) (ground arith),
    refl,
    refl,
    refl,
    refl,
    omega arith,
  )
]

on_message-Watches :
    (w : Worker) (msg : List ℕ) (chance : Chance)
    → Watches w
    → (w' : Worker) × (on_message w msg chance ≡ ok (w', [])) × Watched w msg w'
unfolding on_message collect_broadcast
on_message-Watches w [] chance v =
    (w, refl, (sym (append-nil w.received), refl, refl, refl, omega arith))
on_message-Watches w (tag ∷ body) chance v = elim (Bool-cases (tag == message_type_render_task)) [
  | inl asked ↦
      let (w', e, kept, cfg, conn, sent, count) = handle_task-Watches w body chance v in
      let other : (tag == message_type_frame_broadcast) ≡ false = ground arith in
      (
        w',
        ground (arith, e),
        (rw other (kept ∙ sym (append-nil w.received)), cfg, conn, sent, count),
      )
  | inr passed ↦ elim (Bool-cases (tag == message_type_frame_broadcast)) [
    | inl hit ↦ (
      record w { received = w.received ++ body; notify = true },
      ground arith,
      (rw hit refl, refl, refl, refl, omega arith),
    )
    | inr miss ↦
        (w, ground arith, (rw miss (sym (append-nil w.received)), refl, refl, refl, omega arith))
  ]
]

-- A worker that watches takes every message and sends none: whatever the messages are, its loop ends
-- with the last, and what it has collected is what it had, then the frames of every broadcast, in order
-- and whole. Of the tasks it counts each once as received and once as dropped.
pub run-Watches :
    (w : Worker) (reads : List (List ℕ × Chance))
    → Watches w
    → (w' : Worker) × (run w reads ≡ ok (w', []))
      × (w'.received ≡ w.received ++ payloads reads)
      × (w'.done ≡ true)
      × (w'.results_sent ≡ w.results_sent)
      × (w'.tasks_received + w.results_dropped ≡ w'.results_dropped + w.tasks_received)
unfolding run payloads
run-Watches w [] v =
    (record w { done = true }, refl, sym (append-nil w.received), refl, refl, omega arith)
run-Watches w ((msg, chance) ∷ reads) v =
    let (w', e, (kept, cfg, conn, sent, count)) = on_message-Watches w msg chance v in
    let v' : Watches w' = record {
      stays = ap (λ (c : WorkerConfig). c.disconnect_after) cfg ∙ v.stays;
      silent = ap (λ (c : WorkerConfig). c.silent) cfg ∙ v.silent;
      collects = ap (λ (c : WorkerConfig). c.collect_broadcasts) cfg ∙ v.collects;
      connected = conn ∙ v.connected;
    } in
    let (w'', rest, kept', over, sent', count') = run-Watches w' reads v' in
    (
      w'',
      ground (arith, e, rest, v.connected),
      kept'
          ∙ ap (λ (t : List ℕ). t ++ payloads reads) kept
          ∙ append_assoc w.received (payload msg) (payloads reads),
      over,
      sent' ∙ sent,
      omega arith,
    )

-- what the server broadcasts, as the messages that a worker reads
pub broadcasts : List (List ℕ) → Chance → List (List ℕ × Chance)
broadcasts [] chance = []
broadcasts (frames ∷ more) chance = (encode_frame_broadcast frames, chance) ∷ broadcasts more chance

unfoldable pub concat : List (List ℕ) → List ℕ
concat [] = []
concat (frames ∷ more) = frames ++ concat more

pub payloads-broadcasts :
    (batches : List (List ℕ)) (chance : Chance)
    → payloads (broadcasts batches chance) ≡ concat batches
unfolding payloads broadcasts concat
payloads-broadcasts [] chance = refl
payloads-broadcasts (frames ∷ more) chance =
    rw (encode_frame_broadcast_layout frames)
      (ap (λ (t : List ℕ). frames ++ t) (payloads-broadcasts more chance))
