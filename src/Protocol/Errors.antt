-- ===== src/Protocol/Errors.antt =====
-- What the decoders of internal/protocol do with any bytes at all: they never read out of range, they
-- refuse by the length alone, and what `new_render_result` accepts is what the encoder writes.
use distributed_donut.Prelude.{
  Error, ℕ, ◌+◌, ◌≤◌, ◌<◌, ◌≡◌, refl, ap, ◌⊎◌, inl, inr, List, [], ◌∷◌, ◌++◌, length, drop, Outcome,
  Bool, true, false, take, ok, err, arith, ◌==◌, if◌then◌else◌, invalid_frame_batch_size,
  render_result_too_short, render_task_too_short, Bool-cases, ◌≢◌, ◌∙◌, sym,
}
use distributed_donut.Protocol.{
  batch_size, big_endian, word, encode_render_result, new_render_result, decode_render_task,
  encode_render_task, message_type_render_task, RenderResult, message_type_render_result,
}
use distributed_donut.Protocol.RoundTrip.{
  new_render_result_step, encode_render_task_layout, encode_render_result_layout,
}

-- bytes, not just numbers
abbrev pub Bytes : List ℕ → Type 0
Bytes [] = Unit
Bytes (b ∷ bs) = (b < 256) × Bytes bs

big_endian_of_bytes :
    (a b c d : ℕ) (rest : List ℕ)
    → a < 256
    → b < 256
    → c < 256
    → d < 256
    → big_endian (word a b c d) ++ rest ≡ a ∷ b ∷ c ∷ d ∷ rest
big_endian_of_bytes a b c d rest ha hb hc hd = ground arith

-- `new_render_result` refuses a body that is not a task id and exactly one batch, with the error of
-- its length, and reads any other; it never panics.
pub new_render_result-total :
    (body : List ℕ)
    → ((length body < 4) × (new_render_result body ≡ err render_result_too_short))
      ⊎ ((4 ≤ length body)
          × (length body ≢ 4 + batch_size)
          × (new_render_result body ≡ err invalid_frame_batch_size))
      ⊎ ((r : RenderResult) × (length body ≡ 4 + batch_size)
          × (length r.frames ≡ batch_size)
          × (new_render_result body ≡ ok r))
unfolding new_render_result
new_render_result-total [] = inl (omega arith, refl)
new_render_result-total (a ∷ []) = inl (omega arith, refl)
new_render_result-total (a ∷ b ∷ []) = inl (omega arith, refl)
new_render_result-total (a ∷ b ∷ c ∷ []) = inl (omega arith, refl)
new_render_result-total (a ∷ b ∷ c ∷ d ∷ rest) = elim (Bool-cases (length rest == batch_size)) [
  | inl e ↦ inr (inr (accepted, ground arith, ground arith, rw (new_render_result_step, e)))
  | inr e ↦ inr (inl (omega arith, ground arith, rw (new_render_result_step, e)))
]
  where
    accepted : RenderResult
    accepted = record { id = word a b c d; frames = rest }

accepted_of_ok :
    (test : Bool) (r s : RenderResult)
    → ◌≡◌ {A = Outcome RenderResult} (if test then ok s else err invalid_frame_batch_size) (ok r)
    → s ≡ r
accepted_of_ok true r s e = cc
accepted_of_ok false r s e = cc

-- Of bytes, what is accepted is the message that `encode_render_result` would have written.
pub encode_render_result-new_render_result :
    (body : List ℕ) (r : RenderResult)
    → Bytes body
    → new_render_result body ≡ ok r
    → encode_render_result r.id r.frames ≡ message_type_render_result ∷ body
unfolding new_render_result
encode_render_result-new_render_result (a ∷ b ∷ c ∷ d ∷ rest) r h e =
    let accepted =
      accepted_of_ok (length rest == batch_size) r _
        (sym (new_render_result_step a b c d rest) ∙ e) in
    rw (encode_render_result_layout, ← accepted)
      (ap (λ (t : List ℕ). message_type_render_result ∷ t)
        (big_endian_of_bytes a b c d rest h.0 h.1.0 h.1.1.0 h.1.1.1.0))
encode_render_result-new_render_result _ r h e = ground arith

-- Of bytes, a render task is refused exactly when there are fewer than twelve, and is otherwise the
-- task whose encoding the bytes begin with; any bytes after the twelfth are ignored.
pub decode_render_task-total :
    (body : List ℕ)
    → Bytes body
    → ((length body < 12) × (decode_render_task body ≡ err render_task_too_short))
      ⊎ ((id : ℕ) × (s : ℕ) × (e : ℕ) × (decode_render_task body ≡ ok (id, s, e))
          × (encode_render_task id s e ++ drop 12 body ≡ message_type_render_task ∷ body))
unfolding decode_render_task drop take
decode_render_task-total (a ∷ b ∷ c ∷ d ∷ e ∷ f ∷ g ∷ h ∷ i ∷ j ∷ k ∷ l ∷ rest) hb =
    inr (word a b c d, word e f g h, word i j k l, ground arith, layout)
  where
    layout :
        encode_render_task (word a b c d) (word e f g h) (word i j k l) ++ rest
        ≡ message_type_render_task ∷ a ∷ b ∷ c ∷ d ∷ e ∷ f ∷ g ∷ h ∷ i ∷ j ∷ k ∷ l ∷ rest
    layout = ground (
      arith,
      encode_render_task_layout (word a b c d) (word e f g h) (word i j k l),
      big_endian_of_bytes a b c d [],
      big_endian_of_bytes e f g h [],
      big_endian_of_bytes i j k l [],
    )
decode_render_task-total _ hb = inl (omega arith, ground arith)

-- Decoding a task never panics.
pub decode_render_task_cases :
    (body : List ℕ)
    → ((e : Error) × (decode_render_task body ≡ err e))
      ⊎ ((r : ℕ × ℕ × ℕ) × (decode_render_task body ≡ ok r))
unfolding decode_render_task take drop
decode_render_task_cases (a ∷ b ∷ c ∷ d ∷ e ∷ f ∷ g ∷ h ∷ i ∷ j ∷ k ∷ l ∷ rest) =
    inr ((word a b c d, word e f g h, word i j k l), ground arith)
decode_render_task_cases _ = inl (render_task_too_short, ground arith)
