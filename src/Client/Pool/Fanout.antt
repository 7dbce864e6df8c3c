-- ===== src/Client/Pool/Fanout.antt =====
-- A broadcast of internal/client/pool.go reaches every client of the pool once, and no queue grows past
-- its bound.
use distributed_donut.Prelude.{
  ℕ, ◌≤◌, ◌≡◌, refl, List, [], ◌∷◌, ◌++◌, length, length-append, arith, Option, none, some, false,
  ltb, if◌then◌else◌,
}
use distributed_donut.Client.{Client, enqueue, client_send_queue_size}
use distributed_donut.Client.Pool.{
  ClientPool, contains, update, enqueue_all, snapshot, broadcast_encoded,
}
use distributed_donut.Client.Pool.Capacity.{IsNodup, IsValid}

-- `enqueue` changes the queue alone: it appends the message if there is room, and drops it if not.
pub enqueue_lem :
    (c : Client) (msg : List ℕ)
    → enqueue c msg ≡ record c {
      send = if ltb (length c.send) client_send_queue_size then c.send ++ msg ∷ [] else c.send;
    }
unfolding enqueue
enqueue_lem c msg = ground arith

-- No queue is ever longer than `clientSendQueueSize`.
pub enqueue-bounded :
    (c : Client) (msg : List ℕ)
    → length c.send ≤ client_send_queue_size
    → length (enqueue c msg).send ≤ client_send_queue_size
unfolding enqueue
enqueue-bounded c msg h = ground (arith, length-append c.send (msg ∷ []))

enqueue_all-others :
    (store : ℕ → Client) (xs : List ℕ) (msg : List ℕ) (b : ℕ)
    → contains xs b ≡ false
    → enqueue_all store xs msg b ≡ store b
unfolding enqueue_all contains
enqueue_all-others store [] msg b h = refl
enqueue_all-others store (x ∷ xs) msg b h =
    ground (arith, enqueue_all-others (update store x (enqueue (store x) msg)) xs msg b)

pub enqueue_all_lem :
    (store : ℕ → Client) (xs : List ℕ) (msg : List ℕ) (b : ℕ)
    → IsNodup xs
    → enqueue_all store xs msg b ≡ (if contains xs b then enqueue (store b) msg else store b)
unfolding enqueue_all contains
enqueue_all_lem store [] msg b h = refl
enqueue_all_lem store (x ∷ xs) msg b h =
    let store' = update store x (enqueue (store x) msg) in
    ground (arith, enqueue_all-others store' xs msg b, enqueue_all_lem store' xs msg b h.1)

contains_of_empty : (xs : List ℕ) (b : ℕ) → length xs ≡ 0 → contains xs b ≡ false
unfolding contains
contains_of_empty [] b e = refl
contains_of_empty (x ∷ xs) b e = absurd (omega arith)

-- A broadcast hands the message to each client of the pool exactly once, as `enqueue` does, and changes
-- nobody else, nor who is in the pool; if the message cannot be prepared it changes nothing.
pub broadcast_encoded_lem :
    (prepare : List ℕ → Option (List ℕ)) (p : ClientPool) (encoded : List ℕ)
    → IsValid p
    → ((prepare encoded ≡ none) → broadcast_encoded prepare p encoded ≡ p)
      × ((msg : List ℕ)
          → prepare encoded ≡ some msg
          → (b : ℕ)
          → (broadcast_encoded prepare p encoded).store b
            ≡ (if contains p.clients b then enqueue (p.store b) msg else p.store b))
      × ((broadcast_encoded prepare p encoded).clients ≡ p.clients)
unfolding broadcast_encoded snapshot
broadcast_encoded_lem prepare p encoded v = (
  λ e. ground arith,
  λ msg e b.
      ground (arith, enqueue_all_lem p.store p.clients msg b v.once, contains_of_empty p.clients b),
  ground arith,
)
