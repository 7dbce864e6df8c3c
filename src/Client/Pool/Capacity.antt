-- ===== src/Client/Pool/Capacity.antt =====
-- Who is in the pool of internal/client/pool.go: never more than the cap, nobody twice, nobody closed.
use distributed_donut.Prelude.{
  ℕ, zero, suc, ◌≤◌, ◌<◌, ◌≡◌, refl, List, [], ◌∷◌, length, get_or, arith, none, some, true, false,
  ◌&&◌, ◌==◌, leb, if◌then◌else◌, Bool-cases, inl, inr, ◌⊎◌,
}
use distributed_donut.Client.{close}
use distributed_donut.Client.Pool.{
  ClientPool, contains, without, is_capped, add_client, remove_client, close_client,
  pick_new_client,
}

pub contains-without :
    (a b : ℕ) (xs : List ℕ) → contains (without a xs) b ≡ (if a == b then false else contains xs b)
unfolding contains without
contains-without a b [] = ground arith
contains-without a b (x ∷ xs) = ground (arith, contains-without a b xs)

length-without-le : (a : ℕ) (xs : List ℕ) → length (without a xs) ≤ length xs
unfolding without
length-without-le a [] = omega arith
length-without-le a (x ∷ xs) = ground (arith, length-without-le a xs)

-- every address at most once
abbrev pub IsNodup : List ℕ → Type 0
IsNodup [] = Unit
IsNodup (x ∷ xs) = (contains xs x ≡ false) × IsNodup xs

pub without-IsNodup : (a : ℕ) (xs : List ℕ) → IsNodup xs → IsNodup (without a xs)
unfolding without
without-IsNodup a [] h = tt
without-IsNodup a (x ∷ xs) h = ground (arith, without-IsNodup a xs h.1, contains-without a x xs)

-- The pool holds nobody twice, and no more than its cap if it has one.
pub record IsValid (p : ClientPool) : Type 0 where
  pub once : IsNodup p.clients
  pub capped : is_capped p ≡ true → length p.clients ≤ p.max_clients

-- `AddClient` refuses exactly when a cap is set and reached, and then changes nothing; otherwise the
-- client is in the pool with all who were, and the pool is within its cap.
pub add_client_lem :
    (p : ClientPool) (a : ℕ)
    → IsValid p
    → ((is_capped p ≡ true) × (length p.clients ≡ p.max_clients) × (add_client p a ≡ (false, p)))
      ⊎ (((is_capped p ≡ false) ⊎ (length p.clients < p.max_clients))
          × ((add_client p a).0 ≡ true)
          × ((b : ℕ)
              → contains (add_client p a).1.clients b
                ≡ (if a == b then true else contains p.clients b))
          × IsValid (add_client p a).1)
unfolding add_client contains
add_client_lem p a v = elim (Bool-cases (is_capped p && leb p.max_clients (length p.clients))) [
  | inl full ↦ inl (ground arith, ground arith, ground arith)
  | inr room ↦ inr (ground arith, rw room refl, λ b. ground arith, ground arith)
]

-- `Close` takes the client out of the pool for good, and nobody else; a second call changes nothing.
pub close_client_lem :
    (p : ClientPool) (a : ℕ)
    → IsValid p
    → ((p.store a).closed ≡ false)
    → ((p.store a).pooled ≡ true)
    → ((b : ℕ)
        → contains (close_client p a).clients b ≡ (if a == b then false else contains p.clients b))
      × (((close_client p a).store a).quit ≡ true)
      × (((close_client p a).store a).conn_open ≡ false)
      × (((close_client p a).store a).closed ≡ true)
      × IsValid (close_client p a)
unfolding close_client close remove_client
close_client_lem p a v opened pooled = (
  λ b. ground (arith, contains-without a b p.clients),
  ground arith,
  ground arith,
  ground arith,
  ground (arith, without-IsNodup a p.clients, length-without-le a p.clients),
)

-- A client that is closed is torn down once: closing it again leaves pool and client as they are.
pub close_client_twice :
    (p : ClientPool) (a b : ℕ)
    → ((close_client (close_client p a) a).clients ≡ (close_client p a).clients)
      × ((close_client (close_client p a) a).store b ≡ (close_client p a).store b)
unfolding close_client close remove_client
close_client_twice p a b = (ground arith, ground arith)

pub contains-get_or : (xs : List ℕ) (i : ℕ) → i < length xs → contains xs (get_or xs i 0) ≡ true
unfolding contains get_or
contains-get_or [] i h = absurd (omega arith)
contains-get_or (x ∷ xs) zero h = ground arith
contains-get_or (x ∷ xs) (suc i) h = ground (arith, contains-get_or xs i)

nil_of_length : (xs : List ℕ) → length xs ≡ 0 → xs ≡ []
nil_of_length [] e = refl
nil_of_length (x ∷ xs) e = absurd (omega arith)

-- `PickNewClient` parks exactly on the empty pool, and otherwise returns a client of the pool.
pub pick_new_client_lem :
    (choose : ℕ → ℕ) (p : ClientPool)
    → ((n : ℕ) → 0 < n → choose n < n)
    → ((p.clients ≡ []) × (pick_new_client choose p ≡ none))
      ⊎ ((a : ℕ) × (pick_new_client choose p ≡ some a) × (contains p.clients a ≡ true))
unfolding pick_new_client
pick_new_client_lem choose p h = elim (Bool-cases (length p.clients == 0)) [
  | inl e ↦ inl (nil_of_length p.clients (ground arith), rw e)
  | inr e ↦ inr (
    get_or p.clients (choose (length p.clients)) 0,
    rw e,
    contains-get_or p.clients (choose (length p.clients)) (h (length p.clients) (ground arith)),
  )
]
