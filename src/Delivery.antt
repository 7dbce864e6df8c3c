-- ===== src/Delivery.antt =====
-- What one client of the pool is sent, through internal/client/pool.go and internal/client/client.go, while
-- the goroutines that share its queue take turns: Broadcast and the telemetry of the orchestrator,
-- RequestWork, the client's own WritePump, and whatever happens to other clients. A prepared message stands
-- for its bytes, and what WritePump hands to the connection arrives in order.
pub mod Queue
pub mod Steps
pub mod Whole
pub mod Prompt
mod Tests
use distributed_donut.Prelude.{
  ℕ, List, [], ◌∷◌, ◌++◌, length, Option, some, Bool, true, false, ltb, ◌==◌, if◌then◌else◌, ◌≡◌,
}
use distributed_donut.Protocol.{message_type_frame_broadcast}
use distributed_donut.Buffer.{FrameBuffer}
use distributed_donut.Client.{Client, client_send_queue_size, request_work, Ready, write_pump}
use distributed_donut.Client.Pool.{ClientPool, contains, update, broadcast}
use distributed_donut.Client.Pool.Capacity.{IsValid}
use distributed_donut.Orchestrator.Telemetry.{Ticker, tick_telemetry}

-- There is room in the queue: `enqueue` does not drop.
abbrev pub accepts : Client → Bool
accepts c = ltb (length c.send) client_send_queue_size

-- `log` has the frames of every broadcast so far, each with whether the client's queue took them, and
-- `written` every message that its WritePump has written.
pub record Fleet : Type 0 where
  pub pool : ClientPool
  pub log : List (Bool × List ℕ)
  pub written : List (List ℕ)

-- A turn of one goroutine, as the client at `a` sees it.
pub data FleetStep (a : ℕ) (f : Fleet) : Fleet → Type 0 where
  frames_out :
      (frames : List ℕ)
      → FleetStep a f (record f {
        pool = broadcast some f.pool frames;
        log = f.log ++ (accepts (f.pool.store a), frames) ∷ [];
      })
  stats_out :
      (fb : FrameBuffer) (t : Ticker)
      → FleetStep a f (record f { pool = tick_telemetry some fb t f.pool })
  task_out :
      (b id first last : ℕ)
      → FleetStep a f (record f {
        pool = record (f.pool) {
          store = update f.pool.store b (request_work some (f.pool.store b) id first last);
        };
      })
  -- WritePump of the client at `a`, as long as it runs
  pump :
      {c' : Client} {sent : List (List ℕ)} (r : Ready)
      → write_pump (f.pool.store a) r ≡ (true, c', sent)
      → FleetStep a f (record f {
        pool = record (f.pool) { store = update f.pool.store a c' };
        written = f.written ++ sent;
      })
  -- arrivals, departures and the writers of other clients
  others :
      (p' : ClientPool)
      → p'.store a ≡ f.pool.store a
      → contains p'.clients a ≡ true
      → IsValid p'
      → FleetStep a f (record f { pool = p' })

-- the frames of the broadcasts among some messages
abbrev pub body_of : List ℕ → List (List ℕ)
body_of [] = []
body_of (tag ∷ body) = if tag == message_type_frame_broadcast then body ∷ [] else []

unfoldable pub frames_of : List (List ℕ) → List (List ℕ)
frames_of [] = []
frames_of (msg ∷ msgs) = body_of msg ++ frames_of msgs

-- the broadcasts that the queue took, and those that there were
unfoldable pub accepted : List (Bool × List ℕ) → List (List ℕ)
accepted [] = []
accepted ((taken, frames) ∷ log) = let rest = accepted log in if taken then frames ∷ rest else rest

unfoldable pub broadcasts_of : List (Bool × List ℕ) → List (List ℕ)
broadcasts_of [] = []
broadcasts_of ((taken, frames) ∷ log) = frames ∷ broadcasts_of log
