-- ===== src/Client.antt =====
-- internal/client/client.go: one connected worker. A client's outbound queue holds the encoded messages;
-- the websocket library is a parameter where a function calls it: `prepare` stands for
-- websocket.NewPreparedMessage, and a `Write` says how the calls of one write ended. The goroutine of
-- WritePump is a step for each case of its `select`.
pub mod Pool
pub mod Messages
mod Tests
use distributed_donut.Prelude.{
  ℕ, ◌+◌, ◌*◌, ◌/◌, ◌%◌, ◌^◌, List, [], ◌∷◌, ◌++◌, length, Outcome, ok, err, empty_message, Option,
  none, some, Bool, true, false, not, ◌>>=◌, ltb, ◌==◌, if◌then◌else◌, u32, drop,
}
use distributed_donut.Protocol.{
  batch_size, RenderResult, new_render_result, encode_render_task, message_type_render_result,
}

-- seconds
abbrev pub write_timeout : ℕ
write_timeout = 30

abbrev pub client_send_queue_size : ℕ
client_send_queue_size = 15

abbrev pub pong_wait : ℕ
pong_wait = 60

abbrev pub ping_period : ℕ
ping_period = pong_wait * 9 / 10

abbrev pub max_incoming_message_bytes : ℕ
max_incoming_message_bytes = 1 + 4 + batch_size

-- `closed` is whether `closeOnce` has run; `pooled` whether `pool` is set.
pub record Client : Type 0 where
  pub id : ℕ
  pub conn_open : Bool
  pub num_render_tasks : ℕ
  pub send : List (List ℕ)
  pub quit : Bool
  pub closed : Bool
  pub pooled : Bool

-- The counter of the package, and the client with the next id.
unfoldable pub new_client : ℕ → ℕ × Client
new_client client_id_counter =
    let id = u32 (client_id_counter + 1) in
    (
      id,
      record {
        id = id;
        conn_open = true;
        num_render_tasks = 0;
        send = [];
        quit = false;
        closed = false;
        pooled = false;
      },
    )

unfoldable pub enqueue : Client → List ℕ → Client
enqueue c msg =
    if ltb (length c.send) client_send_queue_size then record c { send = c.send ++ msg ∷ [] } else c

unfoldable pub generate_new_render_task_id : Client → ℕ × Client
generate_new_render_task_id c =
    (c.num_render_tasks, record c { num_render_tasks = u32 (c.num_render_tasks + 1) })

unfoldable pub request_work : (List ℕ → Option (List ℕ)) → Client → ℕ → ℕ → ℕ → Client
unfolding enqueue
request_work prepare c render_task_id start_frame end_frame =
    elim (prepare (encode_render_task render_task_id start_frame end_frame)) [
      | none ↦ c
      | some prepared ↦ enqueue c prepared
    ]

-- The handler works on a state `S` of the orchestrator's, which it returns changed.
abbrev pub ResultHandler {ℓ} : Type ℓ → Type ℓ
ResultHandler S = S → ℕ → RenderResult → Outcome S

unfoldable pub handle_received_message {ℓ} :
    {S : Type ℓ} → Option (ResultHandler S) → Client → List ℕ → S → Outcome S
handle_received_message on_result c [] s = err empty_message
handle_received_message on_result c (message_type ∷ body) s =
    if not (message_type == message_type_render_result) then ok s else (do
      render_result ← new_render_result body
      elim on_result [ none ↦ ok s | some handle ↦ handle s c.id render_result ])

-- `Close`, up to the removal from the pool: whether this call is the one that tears down, and the client.
unfoldable pub close : Client → Bool × Client
close c =
    if c.closed
    then (false, c)
    else (true, record c { quit = true; conn_open = false; closed = true })

-- How the calls of one write ended: the deadline, then the write itself.
pub data Write : Type 0 where
  deadline_failed : Write
  write_failed : Write
  written : Write

-- What the `select` of WritePump found ready.
pub data Ready : Type 0 where
  on_quit : Ready
  on_send : Write → Ready
  on_ping : Write → Ready

-- A step of WritePump. `false`: the goroutine has returned. A case that is not ready is not taken.
unfoldable pub write_pump : Client → Ready → Bool × Client × List (List ℕ)
unfolding close
write_pump c on_quit = if c.quit then (false, c, []) else (true, c, [])
write_pump c (on_send w) = elim c.send [
  | [] ↦ (true, c, [])
  | msg ∷ rest ↦
      let c' = record c { send = rest } in
      elim w [
        | deadline_failed ↦ (false, (close c').1, [])
        | write_failed ↦ (false, (close c').1, [])
        | written ↦ (true, c', msg ∷ [])
      ]
]
write_pump c (on_ping w) = elim w [
  | deadline_failed ↦ (false, (close c).1, [])
  | write_failed ↦ (false, (close c).1, [])
  | written ↦ (true, c, [])
]
