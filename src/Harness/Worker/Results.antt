-- ===== src/Harness/Worker/Results.antt =====
-- What the server makes of what a worker sends.
use distributed_donut.Prelude.{
  ℕ, suc, ◌+◌, ◌-◌, ◌^◌, ◌≤◌, ◌<◌, ◌≡◌, ◌≢◌, refl, sym, ap, ◌∙◌, List, [], ◌∷◌, ◌++◌, length, take,
  drop, copy, copy_at, leb, ◌/◌, ◌%◌, replicate, length-take, length-replicate, arith, Outcome, ok,
  err, panic, render_result_too_short, invalid_frame_batch_size, some, true, false, ◌&&◌, ◌==◌, inl,
  inr,
}
use distributed_donut.Protocol.{
  encode_render_result, encode_render_task, decode_render_task, message_type_render_result,
  batch_size, frames_per_batch, big_endian, slice,
}
use distributed_donut.Protocol.RoundTrip.{
  encode_render_result_layout, encode_render_task_layout, decode_render_task-encode_render_task,
}
use distributed_donut.Protocol.Errors.{new_render_result-total}
use distributed_donut.Client.{
  ResultHandler, Client, handle_received_message, max_incoming_message_bytes,
}
use distributed_donut.Client.Messages.{handle_received_message-encode_render_result}
use distributed_donut.Harness.Worker.{
  Corruption, corrupt_none, corrupt_wrong_size, corrupt_truncated, corrupt_oversized,
  corrupt_garbage, corrupt_unassigned_id, encode_result, junk_from, Worker, Chance, on_message,
  handle_task, answer_task, renderer_of,
}

slice_front : (xs : List ℕ) (n : ℕ) → n ≤ length xs → slice xs 0 n ≡ ok (take n xs)
unfolding slice drop
slice_front xs n le =
    let inside : (leb 0 n && leb n (length xs)) ≡ true = ground arith in
    let all : n - 0 ≡ n = omega arith in rw (inside, all) refl

first_set : (t n : ℕ) → copy_at 0 (replicate (suc n) 0) (t ∷ []) ≡ t ∷ replicate n 0
unfolding copy_at copy replicate
first_set t n = refl

answer_task-eq :
    (w : Worker) (chance : Chance) (id start end : ℕ) (frames : List ℕ)
    → w.cfg.disconnect_after ≡ 0
    → w.cfg.silent ≡ false
    → w.cfg.can_drop ≡ false
    → w.cfg.corruption ≡ corrupt_none
    → chance.write_ok ≡ true
    → renderer_of w.cfg start end ≡ ok frames
    → answer_task w id start end chance
      ≡ ok (
        record w { tasks_received = w.tasks_received + 1; results_sent = w.results_sent + 1 },
        encode_render_result id frames ∷ [],
      )
unfolding answer_task
answer_task-eq w chance id start end frames stays loud keeps honest writes rendered =
    let made : encode_result w.cfg.corruption chance.draw id frames
        ≡ ok (encode_render_result id frames) =
      ap (λ k. encode_result k chance.draw id frames) honest ∙ unfold encode_result in refl in
    ground (arith, made)

garbage :
    (draw : ℕ → ℕ)
    → encode_result corrupt_garbage draw 0 []
      ≡ ok (message_type_render_result ∷ junk_from draw 1 15)
unfolding encode_result junk_from copy_at copy
garbage draw = refl

module _ {ℓ} {S : Type ℓ} (handle : ResultHandler S) (c : Client) (s : S) where
  abbrev received : List ℕ → Outcome S
  received msg = handle_received_message (some handle) c msg s

  -- a body of the wrong length
  wrong_length :
      (body : List ℕ)
      → 4 ≤ length body
      → length body ≢ 4 + batch_size
      → received (message_type_render_result ∷ body) ≡ err invalid_frame_batch_size
  unfolding handle_received_message
  wrong_length body long wrong = elim (new_render_result-total body) [
    | inl (short, _) ↦ absurd (omega arith)
    | inr (inl (_, _, e)) ↦ rw e refl
    | inr (inr (_, right, _, _)) ↦ absurd (wrong (omega arith))
  ]

  too_short :
      (body : List ℕ)
      → length body < 4
      → received (message_type_render_result ∷ body) ≡ err render_result_too_short
  unfolding handle_received_message
  too_short body short = elim (new_render_result-total body) [
    | inl (_, e) ↦ rw e refl
    | inr (inl (long, _, _)) ↦ absurd (omega arith)
    | inr (inr (_, right, _, _)) ↦ absurd (omega arith)
  ]

  -- what the server does with a message of a worker that is asked for task `id` and renders `frames`
  abbrev pub Verdict : Corruption → ℕ → List ℕ → List ℕ → Type ℓ
  Verdict corrupt_none id frames msg =
      received msg ≡ handle s c.id (record { id = id; frames = frames })
  Verdict corrupt_wrong_size id frames msg = received msg ≡ err invalid_frame_batch_size
  Verdict corrupt_truncated id frames msg = received msg ≡ err render_result_too_short
  Verdict corrupt_oversized id frames msg =
      (max_incoming_message_bytes < length msg) × (received msg ≡ err invalid_frame_batch_size)
  Verdict corrupt_garbage id frames msg = received msg ≡ err invalid_frame_batch_size
  Verdict corrupt_unassigned_id id frames msg =
      received msg ≡ handle s c.id (record { id = id + 1_000_000; frames = frames })

  -- The server survives every worker of the harness. For each corruption, of any task and any batch of
  -- frames, the message that the worker sends is made, and the server does with it what `Verdict` says:
  -- the batch that is a byte short, the truncated message and the garbage are errors, and so is the
  -- oversized one, which is also past the read limit; a result for another task id reaches the handler
  -- under that id; and an honest result reaches it as it was rendered. The id is 1,000,000 below 2 ^ 32.
  pub encode_result_lem :
      (corruption : Corruption) (draw : ℕ → ℕ) (id : ℕ) (frames : List ℕ)
      → id + 1_000_000 < 2 ^ 32
      → length frames ≡ batch_size
      → (msg : List ℕ) × (encode_result corruption draw id frames ≡ ok msg)
        × Verdict corruption id frames msg
  unfolding encode_result
  encode_result_lem corrupt_none draw id frames small whole = (
    encode_render_result id frames,
    refl,
    handle_received_message-encode_render_result handle c s id frames (omega arith) whole,
  )
  encode_result_lem corrupt_wrong_size draw id frames small whole =
      let short : List ℕ = take (length frames - 1) frames in
      let cut : slice frames 0 (length frames - 1) ≡ ok short =
        slice_front frames (length frames - 1) (omega arith) in
      let some_left : (length frames == 0) ≡ false = ground arith in
      (
        encode_render_result id short,
        rw (some_left, cut) refl,
        ap received (encode_render_result_layout id short)
            ∙ wrong_length (big_endian id ++ short) (omega arith)
                (omega (arith, length-take (length frames - 1) frames)),
      )
  encode_result_lem corrupt_truncated draw id frames small whole = (
    message_type_render_result ∷ id / 2 ^ 24 % 256 ∷ id / 2 ^ 16 % 256 ∷ [],
    ap (λ (t : List ℕ). slice t 0 3) (encode_render_result_layout id frames)
        ∙ slice_front (message_type_render_result ∷ (big_endian id ++ frames)) 3 (omega arith)
        ∙ unfold take in refl,
    too_short (id / 2 ^ 24 % 256 ∷ id / 2 ^ 16 % 256 ∷ []) (omega arith),
  )
  encode_result_lem corrupt_oversized draw id frames small whole = (
    message_type_render_result ∷ replicate (4 + batch_size + 1) 0,
    ap ok (first_set message_type_render_result (4 + batch_size + 1)),
    (
      omega (arith, length-replicate {A = ℕ} (4 + batch_size + 1) 0),
      wrong_length (replicate (4 + batch_size + 1) 0)
          (omega (arith, length-replicate {A = ℕ} (4 + batch_size + 1) 0))
          (omega (arith, length-replicate {A = ℕ} (4 + batch_size + 1) 0)),
    ),
  )
  encode_result_lem corrupt_garbage draw id frames small whole = (
    message_type_render_result ∷ junk_from draw 1 15,
    garbage draw,
    wrong_length (junk_from draw 1 15) (omega arith) (omega arith),
  )
  encode_result_lem corrupt_unassigned_id draw id frames small whole = (
    encode_render_result (id + 1_000_000) frames,
    ap (λ k. ok (encode_render_result k frames)) (omega arith),
    handle_received_message-encode_render_result handle c s (id + 1_000_000) frames small whole,
  )

  -- A well-behaved worker answers: on the message that asks for a batch it renders the frames of the
  -- batch, counts the task and the result, and sends one message, of which the server's handler is given
  -- the task's id and exactly the rendered frames.
  pub on_message-encode_render_task :
      (w : Worker) (chance : Chance) (id start : ℕ) (frames : List ℕ)
      → w.cfg.disconnect_after ≡ 0
      → w.cfg.silent ≡ false
      → w.cfg.can_drop ≡ false
      → w.cfg.corruption ≡ corrupt_none
      → chance.write_ok ≡ true
      → id < 2 ^ 32
      → start + (frames_per_batch - 1) < 2 ^ 32
      → renderer_of w.cfg start (start + (frames_per_batch - 1)) ≡ ok frames
      → length frames ≡ batch_size
      → (w' : Worker) × (msg : List ℕ) × (on_message w
            (encode_render_task id start (start + (frames_per_batch - 1)))
            chance
          ≡ ok (w', msg ∷ []))
        × (w'.tasks_received ≡ w.tasks_received + 1)
        × (w'.results_sent ≡ w.results_sent + 1)
        × (w'.results_dropped ≡ w.results_dropped)
        × (received msg ≡ handle s c.id (record { id = id; frames = frames }))
  unfolding on_message handle_task
  on_message-encode_render_task w chance id start frames stays loud keeps honest writes small below
        rendered whole =
      let task_body = big_endian id ++ big_endian start ++ big_endian (start + 59) in
      let decoded : decode_render_task task_body ≡ ok (id, start, start + (frames_per_batch - 1)) =
        unfold drop in
        ap (λ (t : List ℕ). decode_render_task (drop 1 t))
          (sym (encode_render_task_layout id start (start + 59)))
        ∙ decode_render_task-encode_render_task id start (start + 59) small (omega arith) below in
      (
        record w { tasks_received = w.tasks_received + 1; results_sent = w.results_sent + 1 },
        encode_render_result id frames,
        ap (λ (t : List ℕ). on_message w t chance) (encode_render_task_layout id start (start + 59))
            ∙ ap
                (λ (o : Outcome (ℕ × ℕ × ℕ)). elim o [
                  | ok (a, b, d) ↦ answer_task w a b d chance
                  | err _ ↦ ok (w, [])
                  | panic p ↦ panic p
                ])
                decoded
            ∙ answer_task-eq w chance id start (start + 59) frames stays loud keeps honest writes
                rendered,
        refl,
        refl,
        refl,
        handle_received_message-encode_render_result handle c s id frames small whole,
      )
