-- ===== src/Client/Tests.antt =====
-- internal/client on concrete clients and pools.
use distributed_donut.Prelude.{
  ℕ, ◌<◌, ◌≡◌, ◌⊎◌, ◌↔◌, refl, List, [], ◌∷◌, length, Outcome, ok, Option, some, true, false,
  if◌then◌else◌, ◌==◌, arith,
}
use distributed_donut.Protocol.{RenderResult}
use distributed_donut.Client.{Client, new_client, enqueue, on_send, written}
use distributed_donut.Client.Messages.{Handled, Pumped, handle_received_message_lem, write_pump_lem}
use distributed_donut.Client.Pool.{
  ClientPool, contains, is_capped, add_client, close_client, broadcast_encoded, get_client_count,
  wait_for_at_least_one,
}
use distributed_donut.Client.Pool.Capacity.{IsValid, add_client_lem}
use distributed_donut.Client.Pool.Order.{SamePool, MayPick, operations-SamePool}

abbrev fresh : Client
fresh = record {
  id = 1;
  conn_open = true;
  num_render_tasks = 0;
  send = (5 ∷ []) ∷ (6 ∷ []) ∷ [];
  quit = false;
  closed = false;
  pooled = true;
}

first_client : (new_client 0).0 ≡ 1
unfolding new_client
first_client = refl

-- Two clients under a cap of two.
abbrev full_pool : ClientPool
full_pool = record { store = λ _. fresh; clients = 4 ∷ 9 ∷ []; max_clients = 2 }

full_pool-IsValid : IsValid full_pool
unfolding contains
full_pool-IsValid = record { once = (refl, (refl, tt)); capped = λ _. omega arith }

abbrev two_bytes : List ℕ
two_bytes = 1 ∷ 2 ∷ []

abbrev prepared : Option (List ℕ)
prepared = some two_bytes

-- A handler that keeps the ids of the tasks it is given.
abbrev keep_ids : List ℕ → ℕ → RenderResult → Outcome (List ℕ)
keep_ids ids c r = ok (r.id ∷ ids)

handle_received_message_lem_example : Handled keep_ids fresh [] two_bytes
handle_received_message_lem_example =
    handle_received_message_lem keep_ids fresh [] two_bytes (omega arith, (omega arith, tt))

write_pump_lem_example : Pumped (enqueue fresh two_bytes) (on_send written)
write_pump_lem_example = write_pump_lem (enqueue fresh two_bytes) (on_send written)

add_client_lem_example :
    ((is_capped full_pool ≡ true)
      × (length full_pool.clients ≡ full_pool.max_clients)
      × (add_client full_pool 7 ≡ (false, full_pool)))
    ⊎ (((is_capped full_pool ≡ false) ⊎ (length full_pool.clients < full_pool.max_clients))
        × ((add_client full_pool 7).0 ≡ true)
        × ((b : ℕ)
            → contains (add_client full_pool 7).1.clients b
              ≡ (if 7 == b then true else contains full_pool.clients b))
        × IsValid (add_client full_pool 7).1)
add_client_lem_example = add_client_lem full_pool 7 full_pool-IsValid

abbrev other_order : ClientPool
other_order = record full_pool { clients = 9 ∷ 4 ∷ [] }

other_order-IsValid : IsValid other_order
unfolding contains
other_order-IsValid = record { once = (refl, (refl, tt)); capped = λ _. omega arith }

reordered : SamePool full_pool other_order
unfolding contains
reordered = record { store = λ a. refl; members = λ a. ground arith; max_clients = refl }

operations-SamePool_example :
    SamePool
      (broadcast_encoded some full_pool two_bytes)
      (broadcast_encoded some other_order two_bytes)
    × ((a : ℕ)
        → ((add_client full_pool a).0 ≡ (add_client other_order a).0)
          × SamePool (add_client full_pool a).1 (add_client other_order a).1)
    × ((a : ℕ) → SamePool (close_client full_pool a) (close_client other_order a))
    × (get_client_count full_pool ≡ get_client_count other_order)
    × (wait_for_at_least_one full_pool ≡ wait_for_at_least_one other_order)
    × ((a : ℕ) → MayPick full_pool a ↔ MayPick other_order a)
operations-SamePool_example =
    operations-SamePool full_pool other_order some two_bytes full_pool-IsValid other_order-IsValid
      reordered
