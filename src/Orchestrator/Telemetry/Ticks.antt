-- ===== src/Orchestrator/Telemetry/Ticks.antt =====
-- What a tick of the telemetry loop tells the fleet, and when there are none.
use distributed_donut.Prelude.{
  ℕ, ◌^◌, ◌<◌, List, [], ◌∷◌, length, drop, Option, some, false, ◌≡◌, refl, if◌then◌else◌, Outcome,
  ok, arith, u32, sym, ap, ◌∙◌,
}
use distributed_donut.Protocol.{
  message_type_client_count, message_type_buffer_fullness, encode_client_count, decode_client_count,
  encode_buffer_fullness, decode_buffer_fullness,
}
use distributed_donut.Protocol.RoundTrip.{
  encode_client_count_layout, encode_buffer_fullness_layout, decode_client_count-encode,
  decode_buffer_fullness-encode,
}
use distributed_donut.Buffer.{FrameBuffer, fullness_percent}
use distributed_donut.Client.{enqueue}
use distributed_donut.Client.Pool.{
  ClientPool, contains, get_client_count, broadcast_client_count, broadcast_buffer_fullness,
}
use distributed_donut.Client.Pool.Capacity.{IsValid}
use distributed_donut.Client.Pool.Fanout.{broadcast_encoded_lem}
use distributed_donut.Orchestrator.{Config}
use distributed_donut.Orchestrator.Telemetry.{
  Ticker, client_count, buffer_fullness, is_armed, tick_telemetry, telemetry_broadcaster,
}

-- The type under which a worker is told what a ticker is about, and how it decodes the rest.
unfoldable pub message_type : Ticker → ℕ
message_type client_count = message_type_client_count
message_type buffer_fullness = message_type_buffer_fullness

unfoldable pub decode : Ticker → List ℕ → Outcome ℕ
decode client_count body = decode_client_count body
decode buffer_fullness body = decode_buffer_fullness body

-- What a ticker is about.
unfoldable pub measure : FrameBuffer → ClientPool → Ticker → ℕ
unfolding fullness_percent
measure fb p client_count = length p.clients
measure fb p buffer_fullness = fullness_percent fb

u32_of_small : (n : ℕ) → n < 2 ^ 32 → u32 n ≡ n
u32_of_small n h = omega arith

-- In a valid pool of fewer than 2 ^ 32 clients, and with a message that is prepared, a tick hands every
-- client of the pool, and nobody else, one message as `enqueue` does. It has the type of the client count or of
-- the buffer fullness, and the number of clients or the fullness of the ring is decoded from what follows.
-- Who is in the pool stays as it is.
pub tick_telemetry_lem :
    (fb : FrameBuffer) (t : Ticker) (p : ClientPool)
    → IsValid p
    → length p.clients < 2 ^ 32
    → (msg body : List ℕ) × (msg ≡ message_type t ∷ body)
      × (decode t body ≡ ok (measure fb p t))
      × ((b : ℕ)
          → (tick_telemetry some fb t p).store b
            ≡ (if contains p.clients b then enqueue (p.store b) msg else p.store b))
      × ((tick_telemetry some fb t p).clients ≡ p.clients)
unfolding tick_telemetry message_type decode measure drop broadcast_client_count
    broadcast_buffer_fullness get_client_count
tick_telemetry_lem fb client_count p v h =
    let sent = broadcast_encoded_lem some p (encode_client_count (u32 (length p.clients))) v in
    (
      encode_client_count (u32 (length p.clients)),
      drop 1 (encode_client_count (u32 (length p.clients))),
      encode_client_count_layout _
          ∙ ap (λ x. message_type_client_count ∷ x)
              (sym (ap (λ x. drop 1 x) (encode_client_count_layout _))),
      ap (λ n. decode_client_count (drop 1 (encode_client_count n)))
            (u32_of_small (length p.clients) h)
          ∙ decode_client_count-encode (length p.clients) h,
      sent.1 _ refl,
      sent.2,
    )
tick_telemetry_lem fb buffer_fullness p v h =
    let sent = broadcast_encoded_lem some p (encode_buffer_fullness (fullness_percent fb)) v in
    (
      encode_buffer_fullness (fullness_percent fb),
      drop 1 (encode_buffer_fullness (fullness_percent fb)),
      encode_buffer_fullness_layout _
          ∙ ap (λ x. message_type_buffer_fullness ∷ x)
              (sym (ap (λ x. drop 1 x) (encode_buffer_fullness_layout _))),
      decode_buffer_fullness-encode (fullness_percent fb),
      sent.1 _ refl,
      sent.2,
    )

-- With no ticker armed the loop does nothing to the pool.
pub telemetry_broadcaster-none :
    (prepare : List ℕ → Option (List ℕ)) (cfg : Config) (ticks : List (Ticker × FrameBuffer))
    (p : ClientPool)
    → is_armed cfg client_count ≡ false
    → is_armed cfg buffer_fullness ≡ false
    → telemetry_broadcaster prepare cfg (λ q. q) ticks p ≡ p
unfolding telemetry_broadcaster
telemetry_broadcaster-none prepare cfg [] p h h' = refl
telemetry_broadcaster-none prepare cfg ((client_count, fb) ∷ ticks) p h h' =
    rw h (telemetry_broadcaster-none prepare cfg ticks p h h')
telemetry_broadcaster-none prepare cfg ((buffer_fullness, fb) ∷ ticks) p h h' =
    rw h' (telemetry_broadcaster-none prepare cfg ticks p h h')
