-- ===== src/Server.antt =====
-- internal/server/server.go: the life of one connection. What the websocket library does is given: whether
-- the upgrade succeeds, and a `Read` for each turn of the loop. The new client stands at an address of the
-- pool's store that nobody else has. What other goroutines do to the pool while the connection is served
-- is a function, `meanwhile`. The HTTP server around it is not modelled.
pub mod Connection
pub mod Http
pub mod Safety
mod Tests
use distributed_donut.Prelude.{
  ℕ, List, [], ◌∷◌, Option, Outcome, ok, err, panic, Error, Panic, Bool, true, false, if◌then◌else◌,
  not,
}
use distributed_donut.Protocol.{RenderResult}
use distributed_donut.Client.{ResultHandler, Client, new_client, handle_received_message}
use distributed_donut.Client.Pool.{ClientPool, update, add_client, close_client}

-- What one turn of the loop finds: the context is cancelled, ReadMessage fails, or it returns a message.
pub data Read : Type 0 where
  cancelled : Read
  failed : Read
  message : (bytes : List ℕ) → Read

-- How the handler came to its end, or that it has not yet.
pub data Ending : Type 0 where
  not_upgraded : Ending
  refused : Ending
  shut_down : Ending
  disconnected : Ending
  invalid : (e : Error) → Ending
  panicked : (p : Panic) → Ending
  still_open : Ending

module _ {ℓ} {S : Type ℓ} (on_result : Option (ResultHandler S)) where
  -- the read loop
  unfoldable pub serve : Client → S → List Read → Ending × S
  serve c s [] = (still_open, s)
  serve c s (cancelled ∷ reads) = (shut_down, s)
  serve c s (failed ∷ reads) = (disconnected, s)
  serve c s (message bytes ∷ reads) = elim (handle_received_message on_result c bytes s) [
    | ok s' ↦ serve c s' reads
    | err e ↦ (invalid e, s)
    | panic p ↦ (panicked p, s)
  ]

  pub record Served : Type ℓ where
    pub ending : Ending
    pub client_id_counter : ℕ
    pub pool : ClientPool
    pub state : S

  -- `handleNewConnection`. The deferred Close runs however the loop ends.
  unfoldable pub handle_new_connection :
      (upgraded : Bool) (a client_id_counter : ℕ)
      → ClientPool
      → S
      → List Read
      → (meanwhile : ClientPool → ClientPool) → Served
  unfolding new_client add_client close_client serve
  handle_new_connection upgraded a client_id_counter p s reads meanwhile =
      if not upgraded
      then record {
        ending = not_upgraded;
        client_id_counter = client_id_counter;
        pool = p;
        state = s;
      }
      else (let (counter, c) = new_client client_id_counter in
          let (admitted, p') = add_client (record p { store = update p.store a c }) a in
          if not admitted
          then record {
            ending = refused;
            client_id_counter = counter;
            pool = record p' { store = update p'.store a (record c { conn_open = false }) };
            state = s;
          }
          else (let (ending, s') = serve c s reads in
              let pool = meanwhile p' in
              record {
                ending = ending;
                client_id_counter = counter;
                pool = elim ending [ still_open ↦ pool | _ ↦ close_client pool a ];
                state = s';
              }))
