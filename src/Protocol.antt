-- ===== src/Protocol.antt =====
-- internal/protocol: the sizes, the message tags, and the encoders and decoders of each message.
-- A byte slice is the list of its bytes; a byte is below 2 ^ 8 and a uint32 below 2 ^ 32 wherever a
-- theorem needs it. `make` gives zeros, a write to an index or a sub-slice is `copy_at`, and reading a
-- slice out of range is a panic.
pub mod RoundTrip
pub mod Errors
mod Tests
use distributed_donut.Prelude.{
  ℕ, ◌+◌, ◌-◌, ◌*◌, ◌/◌, ◌%◌, ◌^◌, List, [], ◌∷◌, length, take, drop, replicate, copy_at, Outcome,
  ok, err, panic, Error, out_of_range, render_task_too_short, render_result_too_short,
  invalid_frame_batch_size, client_count_too_short, buffer_fullness_too_short, ◌>>=◌, ltb, leb,
  ◌==◌, if◌then◌else◌, Bool, true, false, ◌&&◌, not,
}

abbrev pub frame_size : ℕ
frame_size = 880

abbrev pub frames_per_batch : ℕ
frames_per_batch = 60

abbrev pub batch_size : ℕ
batch_size = frame_size * frames_per_batch

-- the tag that each message begins with
abbrev pub message_type_render_task : ℕ
message_type_render_task = 0x0

abbrev pub message_type_render_result : ℕ
message_type_render_result = 0x1

abbrev pub message_type_frame_broadcast : ℕ
message_type_frame_broadcast = 0x2

abbrev pub message_type_client_count : ℕ
message_type_client_count = 0x3

abbrev pub message_type_buffer_fullness : ℕ
message_type_buffer_fullness = 0x4

-- the bytes that `binary.BigEndian.PutUint32` writes
abbrev pub big_endian : ℕ → List ℕ
big_endian v = v / 2 ^ 24 % 256 ∷ v / 2 ^ 16 % 256 ∷ v / 2 ^ 8 % 256 ∷ v % 256 ∷ []

-- `binary.BigEndian.PutUint32(b[i:], v)`
abbrev pub put_uint32 : List ℕ → ℕ → ℕ → List ℕ
put_uint32 b i v = copy_at i b (big_endian v)

-- the number that four bytes stand for, the first the highest
abbrev pub word : ℕ → ℕ → ℕ → ℕ → ℕ
word a b c d = a * 2 ^ 24 + b * 2 ^ 16 + c * 2 ^ 8 + d

-- `binary.BigEndian.Uint32(b)`, which panics on fewer than 4 bytes
unfoldable pub uint32 : List ℕ → Outcome ℕ
uint32 (a ∷ b ∷ c ∷ d ∷ _) = ok (word a b c d)
uint32 _ = panic out_of_range

-- `b[i:j]`. (Go's bound is the capacity of b; here it is the length, which is never above it.)
unfoldable pub slice : List ℕ → ℕ → ℕ → Outcome (List ℕ)
slice b i j =
    if leb i j && leb j (length b) then ok (take (j - i) (drop i b)) else panic out_of_range

-- `b[i]`
unfoldable pub index : List ℕ → ℕ → Outcome ℕ
index b i = elim (drop i b) [ [] ↦ panic out_of_range | x ∷ _ ↦ ok x ]

pub encode_render_task : ℕ → ℕ → ℕ → List ℕ
unfolding replicate copy_at
encode_render_task id start_frame end_frame =
    let msg = replicate 13 0 in
    let msg = copy_at 0 msg (message_type_render_task ∷ []) in
    let msg = put_uint32 msg 1 id in
    let msg = put_uint32 msg 5 start_frame in put_uint32 msg 9 end_frame

pub encode_frame_broadcast : List ℕ → List ℕ
unfolding replicate copy_at
encode_frame_broadcast frames =
    let msg = replicate (length frames + 1) 0 in
    let msg = copy_at 0 msg (message_type_frame_broadcast ∷ []) in copy_at 1 msg frames

pub encode_render_result : ℕ → List ℕ → List ℕ
unfolding replicate copy_at
encode_render_result id frames =
    let msg = replicate (5 + length frames) 0 in
    let msg = copy_at 0 msg (message_type_render_result ∷ []) in
    let msg = put_uint32 msg 1 id in copy_at 5 msg frames

pub encode_client_count : ℕ → List ℕ
unfolding replicate copy_at
encode_client_count count =
    let msg = replicate 5 0 in
    let msg = copy_at 0 msg (message_type_client_count ∷ []) in put_uint32 msg 1 count

pub decode_client_count : List ℕ → Outcome ℕ
unfolding slice uint32
decode_client_count bytes =
    if ltb (length bytes) 4 then err client_count_too_short else (do b ← slice bytes 0 4; uint32 b)

pub encode_buffer_fullness : ℕ → List ℕ
encode_buffer_fullness percent = message_type_buffer_fullness ∷ percent ∷ []

pub decode_buffer_fullness : List ℕ → Outcome ℕ
unfolding index
decode_buffer_fullness bytes =
    if ltb (length bytes) 1 then err buffer_fullness_too_short else index bytes 0

-- render_task.go
pub record RenderTask : Type 0 where
  pub id : ℕ
  pub start_frame : ℕ
  pub end_frame : ℕ

unfoldable pub new_render_task : ℕ → ℕ → ℕ → RenderTask
new_render_task id start_frame end_frame = record {
  id = id;
  start_frame = start_frame;
  end_frame = end_frame;
}

pub decode_render_task : List ℕ → Outcome (ℕ × ℕ × ℕ)
unfolding slice uint32
decode_render_task bytes = if ltb (length bytes) 12 then err render_task_too_short else (do
  a ← slice bytes 0 4
  id ← uint32 a
  b ← slice bytes 4 8
  start_frame ← uint32 b
  c ← slice bytes 8 12
  end_frame ← uint32 c
  ok (id, start_frame, end_frame))

-- render_result.go
pub record RenderResult : Type 0 where
  pub id : ℕ
  pub frames : List ℕ

pub new_render_result : List ℕ → Outcome RenderResult
unfolding slice uint32
new_render_result bytes = if ltb (length bytes) 4 then err render_result_too_short else (do
  a ← slice bytes 0 4
  id ← uint32 a
  frames ← slice bytes 4 (length bytes)
  if not (length frames == batch_size)
      then err invalid_frame_batch_size
      else ok (record { id = id; frames = frames }))
