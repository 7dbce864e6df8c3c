-- ===== src/Protocol/Tests.antt =====
-- internal/protocol on concrete messages.
use distributed_donut.Prelude.{
  ℕ, zero, suc, ◌+◌, ◌≤◌, ◌<◌, ◌≡◌, ◌≢◌, ◌⊎◌, refl, List, [], ◌∷◌, ◌++◌, length, length-replicate,
  replicate, drop, ok, err, render_task_too_short, arith, render_result_too_short,
  invalid_frame_batch_size, client_count_too_short,
}
use distributed_donut.Protocol.{
  encode_render_task, decode_render_task, encode_render_result, new_render_result, RenderResult,
  message_type_render_task, batch_size, message_type_render_result, decode_client_count,
}
use distributed_donut.Protocol.RoundTrip.{
  encode_render_result_layout, new_render_result-encode_render_result,
}
use distributed_donut.Protocol.Errors.{
  Bytes, new_render_result-total, encode_render_result-new_render_result, decode_render_task-total,
}

encode_render_task_bytes :
    encode_render_task 1 60 0x01020304 ≡ 0 ∷ 0 ∷ 0 ∷ 0 ∷ 1 ∷ 0 ∷ 0 ∷ 0 ∷ 60 ∷ 1 ∷ 2 ∷ 3 ∷ 4 ∷ []
unfolding encode_render_task
encode_render_task_bytes = refl

buffer_fullness_short : decode_client_count (1 ∷ 2 ∷ []) ≡ err client_count_too_short
unfolding decode_client_count
buffer_fullness_short = refl

abbrev one_batch : List ℕ
one_batch = replicate batch_size 7

new_render_result-encode_render_result_example :
    new_render_result (drop 1 (encode_render_result 9 one_batch))
    ≡ ok (record { id = 9; frames = one_batch })
new_render_result-encode_render_result_example =
    new_render_result-encode_render_result 9 one_batch (omega arith) (length-replicate batch_size 7)

abbrev short_body : List ℕ
short_body = 0 ∷ 0 ∷ 0 ∷ 9 ∷ 1 ∷ []

new_render_result-total_example :
    ((length short_body < 4) × (new_render_result short_body ≡ err render_result_too_short))
    ⊎ ((4 ≤ length short_body)
        × (length short_body ≢ 4 + batch_size)
        × (new_render_result short_body ≡ err invalid_frame_batch_size))
    ⊎ ((r : RenderResult) × (length short_body ≡ 4 + batch_size)
        × (length r.frames ≡ batch_size)
        × (new_render_result short_body ≡ ok r))
new_render_result-total_example = new_render_result-total short_body

Bytes-replicate : (n b : ℕ) → b < 256 → Bytes (replicate n b)
unfolding replicate
Bytes-replicate zero b h = tt
Bytes-replicate (suc n) b h = (h, Bytes-replicate n b h)

encoded-Bytes : Bytes (drop 1 (encode_render_result 9 one_batch))
unfolding drop
encoded-Bytes = rw (encode_render_result_layout 9 one_batch) (
  omega arith,
  (omega arith, (omega arith, (omega arith, Bytes-replicate batch_size 7 (omega arith)))),
)

encode_render_result-new_render_result_example :
    encode_render_result 9 one_batch
    ≡ message_type_render_result ∷ drop 1 (encode_render_result 9 one_batch)
encode_render_result-new_render_result_example =
    encode_render_result-new_render_result (drop 1 (encode_render_result 9 one_batch))
      (record { id = 9; frames = one_batch }) encoded-Bytes
      (new_render_result-encode_render_result 9 one_batch (omega arith)
        (length-replicate batch_size 7))

abbrev task_body : List ℕ
task_body = 0 ∷ 0 ∷ 0 ∷ 1 ∷ 0 ∷ 0 ∷ 0 ∷ 60 ∷ 0 ∷ 0 ∷ 0 ∷ 119 ∷ 5 ∷ []

decode_render_task-total_example :
    ((length task_body < 12) × (decode_render_task task_body ≡ err render_task_too_short))
    ⊎ ((id : ℕ) × (s : ℕ) × (e : ℕ) × (decode_render_task task_body ≡ ok (id, s, e))
        × (encode_render_task id s e ++ drop 12 task_body ≡ message_type_render_task ∷ task_body))
decode_render_task-total_example = decode_render_task-total task_body (omega arith)
