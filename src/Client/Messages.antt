-- ===== src/Client/Messages.antt =====
-- What internal/client/client.go does with the messages that come in and go out.
use distributed_donut.Prelude.{
  ℕ, ◌^◌, ◌<◌, ◌≤◌, ◌≡◌, ◌≢◌, refl, List, [], ◌∷◌, ◌++◌, length, drop, arith, some, true, false,
  ◌==◌, Bool-cases, ℕ_discrete, ap, sym, ◌∙◌, inl, inr, ◌⊎◌, ok, err, empty_message,
  render_result_too_short, invalid_frame_batch_size, Error,
}
use distributed_donut.Protocol.{
  RenderResult, encode_render_result, message_type_render_result, batch_size,
}
use distributed_donut.Protocol.RoundTrip.{
  encode_render_result_layout, new_render_result-encode_render_result,
}
use distributed_donut.Protocol.Errors.{
  Bytes, new_render_result-total, encode_render_result-new_render_result,
}
use distributed_donut.Client.{
  ResultHandler, Client, handle_received_message, max_incoming_message_bytes, write_pump, Ready,
  Write, on_quit, on_send, on_ping, deadline_failed, write_failed, written, close,
}

module _ {ℓ} {S : Type ℓ} (handle : ResultHandler S) (c : Client) (s : S) where
  abbrev pub Handled : List ℕ → Type ℓ
  Handled msg =
      ((msg ≡ []) × (handle_received_message (some handle) c msg s ≡ err empty_message))
      ⊎ ((tag : ℕ) × (body : List ℕ) × (msg ≡ tag ∷ body)
          × (tag ≢ message_type_render_result)
          × (handle_received_message (some handle) c msg s ≡ ok s))
      ⊎ ((body : List ℕ) × (msg ≡ message_type_render_result ∷ body)
          × (length body < 4)
          × (handle_received_message (some handle) c msg s ≡ err render_result_too_short))
      ⊎ ((body : List ℕ) × (msg ≡ message_type_render_result ∷ body)
          × (4 ≤ length body)
          × (length msg ≢ max_incoming_message_bytes)
          × (handle_received_message (some handle) c msg s ≡ err invalid_frame_batch_size))
      ⊎ ((r : RenderResult) × (msg ≡ encode_render_result r.id r.frames)
          × (length msg ≡ max_incoming_message_bytes)
          × (length r.frames ≡ batch_size)
          × (handle_received_message (some handle) c msg s ≡ handle s c.id r))

  -- Every message, of bytes, is one of five. An empty one is an error; one of another type changes
  -- nothing; a render result without a whole task id, and one whose frames are not one batch, are errors of
  -- their own; and any other is the encoding of a result with one batch of frames, is of exactly the read
  -- limit, and the handler is called on that result with the client's id.
  pub handle_received_message_lem : (msg : List ℕ) → Bytes msg → Handled msg
  unfolding handle_received_message
  handle_received_message_lem [] h = inl (refl, refl)
  handle_received_message_lem (tag ∷ body) h = elim (ℕ_discrete tag message_type_render_result) [
    | no other ↦
        let miss : (tag == message_type_render_result) ≡ false = ground arith in
        inr (inl (tag, body, refl, other, rw miss refl))
    | yes hit ↦
        let same : tag ∷ body ≡ message_type_render_result ∷ body = ap (λ t. t ∷ body) hit in
        let eq : (tag == message_type_render_result) ≡ true = ground arith in
        elim (new_render_result-total body) [
          | inl (short, e) ↦ inr (inr (inl (body, same, short, rw (eq, e) refl)))
          | inr (inl (id, wrong, e)) ↦
              inr (inr (inr (inl (body, same, id, omega arith, rw (eq, e) refl))))
          | inr (inr (r, long, whole, e)) ↦ inr (
              inr (
                inr (
                  inr (
                    r,
                    same ∙ sym (encode_render_result-new_render_result body r h.1 e),
                    omega arith,
                    whole,
                    rw (eq, e) refl,
                  ))))
        ]
  ]

  -- An error, no change, or a call of the handler on one batch of frames: for a message that may be of
  -- anything.
  pub handle_received_message_cases :
      (msg : List ℕ)
      → ((e : Error) × (length msg ≢ max_incoming_message_bytes)
          × (handle_received_message (some handle) c msg s ≡ err e))
        ⊎ ((tag : ℕ) × (body : List ℕ) × (msg ≡ tag ∷ body)
            × ((tag == message_type_render_result) ≡ false)
            × (handle_received_message (some handle) c msg s ≡ ok s))
        ⊎ ((r : RenderResult) × (length msg ≡ max_incoming_message_bytes)
            × (length r.frames ≡ batch_size)
            × (handle_received_message (some handle) c msg s ≡ handle s c.id r))
  unfolding handle_received_message
  handle_received_message_cases [] = inl (empty_message, omega arith, refl)
  handle_received_message_cases (tag ∷ body) =
      elim (Bool-cases (tag == message_type_render_result)) [
        | inr passed ↦ inr (inl (tag, body, refl, passed, rw passed refl))
        | inl hit ↦ elim (new_render_result-total body) [
          | inl (short, e) ↦ inl (render_result_too_short, omega arith, rw (hit, e) refl)
          | inr (inl (_, wrong, e)) ↦ inl (invalid_frame_batch_size, omega arith, rw (hit, e) refl)
          | inr (inr (r, long, whole, e)) ↦ inr (inr (r, omega arith, whole, rw (hit, e) refl))
        ]
      ]

  -- What a worker encodes with `EncodeRenderResult` reaches the handler as it was.
  pub handle_received_message-encode_render_result :
      (id : ℕ) (frames : List ℕ)
      → id < 2 ^ 32
      → length frames ≡ batch_size
      → handle_received_message (some handle) c (encode_render_result id frames) s
        ≡ handle s c.id (record { id = id; frames = frames })
  unfolding handle_received_message drop
  handle_received_message-encode_render_result id frames h whole =
      let body = new_render_result-encode_render_result id frames h whole in
      ground (arith, body, encode_render_result_layout id frames)

-- The deadline or the write of a case failed.
pub data Failed : Ready → Type 0 where
  send_failed : {w : Write} → w ≢ written → Failed (on_send w)
  ping_failed : {w : Write} → w ≢ written → Failed (on_ping w)

-- The four ways a step goes: told to quit, the first message written, a failed write, nothing to do.
abbrev pub Pumped : Client → Ready → Type 0
Pumped c r =
    let (running, c', sent) = write_pump c r in
    ((r ≡ on_quit) × (c.quit ≡ true) × (running ≡ false) × (sent ≡ []) × (c' ≡ c))
    ⊎ ((msg : List ℕ) × (rest : List (List ℕ)) × (r ≡ on_send written)
        × (c.send ≡ msg ∷ rest)
        × (running ≡ true)
        × (sent ≡ msg ∷ [])
        × (c' ≡ record c { send = rest }))
    ⊎ (Failed r × (running ≡ false) × (sent ≡ []) × (c'.closed ≡ true))
    ⊎ (((r ≡ on_ping written)
          ⊎ ((r ≡ on_quit) × (c.quit ≡ false))
          ⊎ ((w : Write) × (r ≡ on_send w) × (c.send ≡ [])))
        × (running ≡ true)
        × (sent ≡ [])
        × (c' ≡ c))

queue_cases :
    (queue : List (List ℕ))
    → (queue ≡ []) ⊎ ((msg : List ℕ) × (rest : List (List ℕ)) × (queue ≡ msg ∷ rest))
queue_cases [] = inl refl
queue_cases (msg ∷ rest) = inr (msg, rest, refl)

close-closed : (c : Client) → (close c).1.closed ≡ true
unfolding close
close-closed c = ground arith

write_pump_sends :
    (c : Client) (w : Write) (msg : List ℕ) (rest : List (List ℕ))
    → c.send ≡ msg ∷ rest
    → Pumped c (on_send w)
unfolding write_pump close
write_pump_sends c written msg rest e =
    inr (inl (msg, rest, refl, e, rw e refl, rw e refl, rw e refl))
write_pump_sends c deadline_failed msg rest e = inr (
    inr (
      inl (
        send_failed (λ e. cc),
        rw e refl,
        rw e refl,
        rw e (close-closed (record c { send = rest })),
      )))
write_pump_sends c write_failed msg rest e = inr (
    inr (
      inl (
        send_failed (λ e. cc),
        rw e refl,
        rw e refl,
        rw e (close-closed (record c { send = rest })),
      )))

-- A step of WritePump on whatever its select finds. Told to quit, it returns and leaves the client as it is.
-- With a message to send it takes the first: written, it is what was sent, the rest stays queued in order, and
-- the goroutine goes on; if the deadline or the write fails, as for a ping, nothing is sent, the client is
-- closed and the goroutine returns. A ping that is written, and a case that is not ready, change nothing and
-- the goroutine goes on.
pub write_pump_lem : (c : Client) (r : Ready) → Pumped c r
unfolding write_pump close
write_pump_lem c on_quit = elim (Bool-cases c.quit) [
  | inl e ↦ inl (refl, e, rw e refl, rw e refl, rw e refl)
  | inr e ↦ inr (inr (inr (inr (inl (refl, e)), rw e refl, rw e refl, rw e refl)))
]
write_pump_lem c (on_ping written) = inr (inr (inr (inl refl, refl, refl, refl)))
write_pump_lem c (on_ping deadline_failed) =
    inr (inr (inl (ping_failed (λ e. cc), refl, refl, close-closed c)))
write_pump_lem c (on_ping write_failed) =
    inr (inr (inl (ping_failed (λ e. cc), refl, refl, close-closed c)))
write_pump_lem c (on_send w) = elim (queue_cases c.send) [
  | inl e ↦ inr (inr (inr (inr (inr (w, refl, e)), rw e refl, rw e refl, rw e refl)))
  | inr (msg, rest, e) ↦ write_pump_sends c w msg rest e
]

-- The messages that a step sends and those that stay queued make up the queue before.
pub write_pump_queue :
    (c : Client) (r : Ready)
    → let (running, c', sent) = write_pump c r in
      ((running ≡ true) × (sent ++ c'.send ≡ c.send) × (c'.closed ≡ c.closed))
      ⊎ ((running ≡ false) × (c.quit ≡ true) × (sent ≡ []) × (c' ≡ c))
      ⊎ ((running ≡ false) × (sent ≡ []) × (c'.closed ≡ true))
unfolding write_pump close
write_pump_queue c on_quit = ground arith
write_pump_queue c (on_send deadline_failed) = ground arith
write_pump_queue c (on_send write_failed) = ground arith
write_pump_queue c (on_send written) = ground arith
write_pump_queue c (on_ping w) = ground arith
