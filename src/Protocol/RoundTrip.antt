-- ===== src/Protocol/RoundTrip.antt =====
-- What a message says survives the wire: internal/protocol's encoders against its decoders.
use distributed_donut.Prelude.{
  ℕ, suc, ◌+◌, ◌-◌, ◌*◌, ◌/◌, ◌%◌, ◌^◌, ◌<◌, ◌≡◌, refl, ap, List, ◌∷◌, ◌++◌, [], length, take, drop,
  ok, arith, copy-replicate, ◌==◌, err, invalid_frame_batch_size, if◌then◌else◌, take_of_length-le,
}
use distributed_donut.Protocol.{
  batch_size, big_endian, encode_render_task, decode_render_task, encode_render_result,
  new_render_result, encode_frame_broadcast, encode_client_count, decode_client_count,
  encode_buffer_fullness, decode_buffer_fullness, message_type_render_task,
  message_type_render_result, message_type_frame_broadcast, message_type_client_count,
  message_type_buffer_fullness,
}

-- the four bytes of a word make up the word
pub word_of_bytes :
    (v : ℕ)
    → v < 2 ^ 32
    → v / 2 ^ 24 % 256 * 2 ^ 24 + v / 2 ^ 16 % 256 * 2 ^ 16 + v / 2 ^ 8 % 256 * 2 ^ 8 + v % 256 ≡ v
word_of_bytes v h = omega arith

-- The layouts: a tag, then the fields in order.
pub encode_render_task_layout :
    (id s e : ℕ)
    → encode_render_task id s e
      ≡ message_type_render_task ∷ (big_endian id ++ big_endian s ++ big_endian e)
unfolding encode_render_task
encode_render_task_layout id s e = refl

pub encode_render_result_layout :
    (id : ℕ) (frames : List ℕ)
    → encode_render_result id frames ≡ message_type_render_result ∷ (big_endian id ++ frames)
unfolding encode_render_result
encode_render_result_layout id frames =
    let e : 5 + length frames ≡ suc (suc (suc (suc (suc (length frames))))) = omega arith in
    rw e (
      ap (λ (t : List ℕ). message_type_render_result ∷ (big_endian id ++ t))
        (copy-replicate frames 0))

pub encode_client_count_layout :
    (n : ℕ) → encode_client_count n ≡ message_type_client_count ∷ big_endian n
unfolding encode_client_count
encode_client_count_layout n = refl

pub encode_buffer_fullness_layout :
    (n : ℕ) → encode_buffer_fullness n ≡ message_type_buffer_fullness ∷ n ∷ []
unfolding encode_buffer_fullness
encode_buffer_fullness_layout n = refl

pub encode_frame_broadcast_layout :
    (frames : List ℕ) → encode_frame_broadcast frames ≡ message_type_frame_broadcast ∷ frames
unfolding encode_frame_broadcast
encode_frame_broadcast_layout frames =
    let e : length frames + 1 ≡ suc (length frames) = omega arith in
    rw e (ap (λ (t : List ℕ). message_type_frame_broadcast ∷ t) (copy-replicate frames 0))

pub decode_client_count-encode :
    (n : ℕ) → n < 2 ^ 32 → decode_client_count (drop 1 (encode_client_count n)) ≡ ok n
unfolding decode_client_count encode_client_count take drop
decode_client_count-encode n h = ap ok (word_of_bytes n h)

-- A fullness is decoded to the byte that was encoded.
pub decode_buffer_fullness-encode :
    (n : ℕ) → decode_buffer_fullness (drop 1 (encode_buffer_fullness n)) ≡ ok n
unfolding decode_buffer_fullness encode_buffer_fullness drop
decode_buffer_fullness-encode n = refl

-- A render task of three uint32s is decoded to the three that were encoded.
pub decode_render_task-encode_render_task :
    (id s e : ℕ)
    → id < 2 ^ 32
    → s < 2 ^ 32
    → e < 2 ^ 32
    → decode_render_task (drop 1 (encode_render_task id s e)) ≡ ok (id, s, e)
unfolding decode_render_task encode_render_task take drop
decode_render_task-encode_render_task id s e hi hs he =
    rw (word_of_bytes id hi, word_of_bytes s hs, word_of_bytes e he)

-- what `new_render_result` does with a body that holds a task id
pub new_render_result_step :
    (a b c d : ℕ) (rest : List ℕ)
    → new_render_result (a ∷ b ∷ c ∷ d ∷ rest) ≡ (
        if length rest == batch_size
        then ok (record { id = a * 2 ^ 24 + b * 2 ^ 16 + c * 2 ^ 8 + d; frames = rest })
        else err invalid_frame_batch_size)
unfolding new_render_result take drop
new_render_result_step a b c d rest =
    let e : suc (suc (suc (suc (length rest)))) - 4 ≡ length rest = omega arith in
    let t = take_of_length-le rest (length rest) (omega arith) in rw (e, t) (ground arith)

-- A result with a uint32 id and exactly one batch of frames is read as it was encoded.
pub new_render_result-encode_render_result :
    (id : ℕ) (frames : List ℕ)
    → id < 2 ^ 32
    → length frames ≡ batch_size
    → new_render_result (drop 1 (encode_render_result id frames))
      ≡ ok (record { id = id; frames = frames })
unfolding drop
new_render_result-encode_render_result id frames h e =
    rw (encode_render_result_layout id frames, new_render_result_step, e, word_of_bytes id h)
