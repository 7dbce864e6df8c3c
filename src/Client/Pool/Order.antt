-- ===== src/Client/Pool/Order.antt =====
-- Go's map has no order: the pool is the set of its clients. A ClientPool whose list has another order
-- is the same pool to every operation, and PickNewClient may return any of its clients.
use distributed_donut.Prelude.{
  ℕ, suc, ◌<◌, ◌≡◌, ◌↔◌, refl, sym, ap, ap₂, ◌∙◌, List, [], ◌∷◌, length, get_or, Option, none, some,
  Bool, true, false, ◌==◌, ltb, subst, if◌then◌else◌, arith, Bool-cases, Option-cases, inl, inr,
}
use mathlib.Core.Logic.{∥∥₁_elim}
use distributed_donut.Client.{enqueue, close}
use distributed_donut.Client.Pool.{
  ClientPool, contains, without, add_client, remove_client, get_client_count, wait_for_at_least_one,
  pick_new_client, snapshot, broadcast_encoded, close_client,
}
use distributed_donut.Client.Pool.Capacity.{
  IsNodup, IsValid, contains-without, without-IsNodup, pick_new_client_lem,
}
use distributed_donut.Client.Pool.Fanout.{broadcast_encoded_lem}

-- The same clients, in whatever order, in the same store.
pub record SamePool (p q : ClientPool) : Type 0 where
  pub store : (a : ℕ) → p.store a ≡ q.store a
  pub members : (a : ℕ) → contains p.clients a ≡ contains q.clients a
  pub max_clients : p.max_clients ≡ q.max_clients

without-absent : (a : ℕ) (xs : List ℕ) → contains xs a ≡ false → without a xs ≡ xs
unfolding contains without
without-absent a [] h = refl
without-absent a (x ∷ xs) h = ground (arith, without-absent a xs)

-- Taking out a member makes a list without duplicates one shorter.
length-without :
    (a : ℕ) (xs : List ℕ)
    → IsNodup xs
    → contains xs a ≡ true
    → length xs ≡ suc (length (without a xs))
unfolding contains without
length-without a [] n h = cc
length-without a (x ∷ xs) n h = ground (arith, length-without a xs n.1, without-absent a xs)

-- Lists of the same members, each once, are equally long.
length-members :
    (xs ys : List ℕ)
    → IsNodup xs
    → IsNodup ys
    → ((a : ℕ) → contains xs a ≡ contains ys a)
    → length xs ≡ length ys
unfolding contains
length-members [] [] n n' h = refl
length-members [] (y ∷ ys) n n' h = absurd (ground (arith, h y))
length-members (x ∷ xs) ys n n' h =
    let here : contains ys x ≡ true = ground (arith, h x) in
    let rest =
      length-members xs (without x ys) n.1 (without-IsNodup x ys n')
        (λ a. ground (arith, h a, contains-without x a ys)) in
    omega (arith, rest, length-without x ys n' here)

max_clients-broadcast :
    (prepare : List ℕ → Option (List ℕ)) (p : ClientPool) (msg : List ℕ)
    → (broadcast_encoded prepare p msg).max_clients ≡ p.max_clients
unfolding broadcast_encoded snapshot
max_clients-broadcast prepare p msg = ground arith

-- the pool in its valid states, and what its operations see of it
module _ (p q : ClientPool) (v : IsValid p) (w : IsValid q) (same : SamePool p q) where
  same_length : length p.clients ≡ length q.clients
  same_length = length-members p.clients q.clients v.once w.once same.members

  -- A broadcast puts the message into the same queues, once each.
  broadcast_encoded-SamePool :
      (prepare : List ℕ → Option (List ℕ)) (msg : List ℕ)
      → SamePool (broadcast_encoded prepare p msg) (broadcast_encoded prepare q msg)
  broadcast_encoded-SamePool prepare msg =
      let (none_p, some_p, clients_p) = broadcast_encoded_lem prepare p msg v in
      let (none_q, some_q, clients_q) = broadcast_encoded_lem prepare q msg w in
      elim (Option-cases (prepare msg)) [
        | inl e ↦ rw (none_p e, none_q e) same
        | inr (prepared, e) ↦ record {
          store = λ b.
              some_p prepared e b
              ∙ ap₂ (λ (x : Bool) c. if x then enqueue c prepared else c) (same.members b)
                  (same.store b)
              ∙ sym (some_q prepared e b);
          members = λ b.
              ap (λ (xs : List ℕ). contains xs b) clients_p
              ∙ same.members b
              ∙ ap (λ (xs : List ℕ). contains xs b) (sym clients_q);
          max_clients =
              max_clients-broadcast prepare p msg
              ∙ same.max_clients
              ∙ sym (max_clients-broadcast prepare q msg);
        }
      ]

  add_client-SamePool :
      (a : ℕ)
      → ((add_client p a).0 ≡ (add_client q a).0) × SamePool (add_client p a).1 (add_client q a).1
  unfolding add_client contains
  add_client-SamePool a = (
    ground (arith, same_length, same.max_clients),
    record {
      store = λ b. ground (arith, same_length, same.max_clients, same.store a, same.store b);
      members = λ b. ground (arith, same_length, same.max_clients, same.members a, same.members b);
      max_clients = ground (arith, same_length, same.max_clients);
    },
  )

  close_client-SamePool : (a : ℕ) → SamePool (close_client p a) (close_client q a)
  unfolding close_client close remove_client
  close_client-SamePool a = record {
    store = λ b. ground (arith, same.store a, same.store b);
    members = λ b. ground (
      arith,
      same.store a,
      same.members b,
      contains-without a b p.clients,
      contains-without a b q.clients,
    );
    max_clients = ground (arith, same.store a, same.max_clients);
  }

-- where in a list an address stands
position : ℕ → List ℕ → ℕ
position a [] = 0
position a (x ∷ xs) = if x == a then 0 else suc (position a xs)

get_or-position :
    (a : ℕ) (xs : List ℕ)
    → contains xs a ≡ true
    → (position a xs < length xs) × (get_or xs (position a xs) 0 ≡ a)
unfolding position contains get_or
get_or-position a [] h = absurd (ground arith)
get_or-position a (x ∷ xs) h = elim (Bool-cases (x == a)) [
  | inl here ↦ rw here (omega arith, ground arith)
  | inr later ↦
      let (below, there) = get_or-position a xs (ground arith) in rw later (omega arith, there)
]

-- a choice of rand.Intn that takes the index `i` where it can
abbrev choosing : ℕ → ℕ → ℕ
choosing i n = if ltb i n then i else 0

-- What PickNewClient may return, by some choice within rand.Intn's bound.
abbrev pub MayPick : ClientPool → ℕ → Type 0
MayPick p a =
    ∥ ((choose : ℕ → ℕ) × ((n : ℕ) → 0 < n → choose n < n) × (pick_new_client choose p ≡ some a)) ∥₁

-- `PickNewClient` may return a client exactly if it is in the pool: nobody else, and nobody in it is
-- passed over by every choice.
pub MayPick-iff : (p : ClientPool) (a : ℕ) → MayPick p a ↔ (contains p.clients a ≡ true)
unfolding pick_new_client
MayPick-iff p a = (
  λ may. ∥∥₁_elim may (hlevel) (λ (choose, bound, e). elim (pick_new_client_lem choose p bound) [
    | inl (_, parked) ↦ absurd (ground (arith, e, parked))
    | inr (b, picked, member) ↦
        let same : b ≡ a = cc (e, picked) in subst (λ x. contains p.clients x ≡ true) same member
  ]),
  λ member.
      let (below, there) = get_or-position a p.clients member in
      ∣ (
        choosing (position a p.clients),
        (λ n pos. ground arith),
        (ground (arith, below, there)),
      ) ∣₁,
)

-- The order in which a valid pool holds its clients shows in no operation: on two valid pools of the same
-- clients a broadcast, AddClient and Close come to the same pool again, AddClient with the same answer;
-- the count and the wait for a client are the same; and PickNewClient may return the same clients.
pub operations-SamePool :
    (p q : ClientPool) (prepare : List ℕ → Option (List ℕ)) (msg : List ℕ)
    → IsValid p
    → IsValid q
    → SamePool p q
    → SamePool (broadcast_encoded prepare p msg) (broadcast_encoded prepare q msg)
      × ((a : ℕ)
          → ((add_client p a).0 ≡ (add_client q a).0)
            × SamePool (add_client p a).1 (add_client q a).1)
      × ((a : ℕ) → SamePool (close_client p a) (close_client q a))
      × (get_client_count p ≡ get_client_count q)
      × (wait_for_at_least_one p ≡ wait_for_at_least_one q)
      × ((a : ℕ) → MayPick p a ↔ MayPick q a)
unfolding get_client_count wait_for_at_least_one
operations-SamePool p q prepare msg v w same =
    let count = same_length p q v w same in
    (
      broadcast_encoded-SamePool p q v w same prepare msg,
      add_client-SamePool p q v w same,
      close_client-SamePool p q v w same,
      count,
      ap (λ n. if n == 0 then none else some tt) count,
      λ a. (
        λ may. (MayPick-iff q a).1 (sym (same.members a) ∙ (MayPick-iff p a).0 may),
        λ may. (MayPick-iff p a).1 (same.members a ∙ (MayPick-iff q a).0 may),
      ),
    )
