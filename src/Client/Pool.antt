-- ===== src/Client/Pool.antt =====
-- internal/client/pool.go, and `Client.Close` and `RequestWork` through a pointer: the connected clients.
-- A `*Client` is an address into a store; the pool's map is the list of the addresses in it, each once.
-- `max_clients` is a Go int as a 64-bit word. rand.Intn is the argument `choose`, and the websocket
-- library's NewPreparedMessage is `prepare`. A wait on the condition variable is the test of its loop.
pub mod Capacity
pub mod Fanout
pub mod Order
use distributed_donut.Prelude.{
  ℕ, ◌+◌, ◌^◌, List, [], ◌∷◌, ◌++◌, length, get_or, Option, none, some, Bool, true, false, not,
  ◌&&◌, ltb, leb, ◌==◌, if◌then◌else◌,
}
use distributed_donut.Protocol.{encode_frame_broadcast, encode_client_count, encode_buffer_fullness}
use distributed_donut.Client.{Client, enqueue, close}

abbrev pub default_max_clients : ℕ
default_max_clients = 10000

pub record ClientPool : Type 0 where
  pub store : ℕ → Client
  pub clients : List ℕ
  pub max_clients : ℕ

unfoldable pub new_client_pool : (ℕ → Client) → ℕ → ClientPool
new_client_pool store max_clients = record {
  store = store;
  clients = [];
  max_clients = max_clients;
}

-- `p.store[a] = c`
abbrev pub update : (ℕ → Client) → ℕ → Client → ℕ → Client
update store a c b = if a == b then c else store b

unfoldable pub contains : List ℕ → ℕ → Bool
contains [] a = false
contains (x ∷ xs) a = if x == a then true else contains xs a

-- `delete(p.clients, client)`
unfoldable pub without : ℕ → List ℕ → List ℕ
without a [] = []
without a (x ∷ xs) = let rest = without a xs in if x == a then rest else x ∷ rest

-- `p.maxClients > 0`, of a signed int
abbrev pub is_capped : ClientPool → Bool
is_capped p = ltb 0 p.max_clients && ltb p.max_clients (2 ^ 63)

unfoldable pub add_client : ClientPool → ℕ → Bool × ClientPool
unfolding contains
add_client p a = if is_capped p && leb p.max_clients (length p.clients) then (false, p) else (
  true,
  record p {
    store = update p.store a (record (p.store a) { pooled = true });
    clients = if contains p.clients a then p.clients else a ∷ p.clients;
  },
)

unfoldable pub remove_client : ClientPool → ℕ → ClientPool
unfolding without
remove_client p a = record p { clients = without a p.clients }

unfoldable pub get_client_count : ClientPool → ℕ
get_client_count p = length p.clients

-- `some` once the caller may go on.
unfoldable pub wait_for_at_least_one : ClientPool → Option (Unit {0})
wait_for_at_least_one p = if length p.clients == 0 then none else some tt

unfoldable pub snapshot : ClientPool → List ℕ
snapshot p = p.clients

-- `none` while the caller is parked.
unfoldable pub pick_new_client : (ℕ → ℕ) → ClientPool → Option ℕ
unfolding get_or
pick_new_client choose p =
    if length p.clients == 0
    then none
    else (let keys = p.clients in some (get_or keys (choose (length keys)) 0))

-- the loop over the snapshot
unfoldable pub enqueue_all : (ℕ → Client) → List ℕ → List ℕ → ℕ → Client
enqueue_all store [] prepared = store
enqueue_all store (a ∷ as') prepared =
    enqueue_all (update store a (enqueue (store a) prepared)) as' prepared

unfoldable pub broadcast_encoded : (List ℕ → Option (List ℕ)) → ClientPool → List ℕ → ClientPool
unfolding snapshot enqueue_all
broadcast_encoded prepare p encoded =
    let clients = snapshot p in
    if length clients == 0 then p else elim (prepare encoded) [
      | none ↦ p
      | some prepared ↦ record p { store = enqueue_all p.store clients prepared }
    ]

unfoldable pub broadcast : (List ℕ → Option (List ℕ)) → ClientPool → List ℕ → ClientPool
unfolding broadcast_encoded
broadcast prepare p frames = broadcast_encoded prepare p (encode_frame_broadcast frames)

unfoldable pub broadcast_client_count : (List ℕ → Option (List ℕ)) → ClientPool → ℕ → ClientPool
unfolding broadcast_encoded
broadcast_client_count prepare p count = broadcast_encoded prepare p (encode_client_count count)

unfoldable pub broadcast_buffer_fullness : (List ℕ → Option (List ℕ)) → ClientPool → ℕ → ClientPool
unfolding broadcast_encoded
broadcast_buffer_fullness prepare p percent =
    broadcast_encoded prepare p (encode_buffer_fullness percent)

-- `Close` of the client at `a`, its removal from the pool included.
unfoldable pub close_client : ClientPool → ℕ → ClientPool
unfolding close remove_client
close_client p a =
    let (first, c) = close (p.store a) in
    let p' = record p { store = update p.store a c } in
    if first && (p.store a).pooled then remove_client p' a else p'
