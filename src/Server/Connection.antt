-- ===== src/Server/Connection.antt =====
-- How a connection is served: which messages are handled, and who is in the pool afterwards.
use distributed_donut.Prelude.{
  ℕ, ◌<◌, ◌≡◌, ◌≢◌, refl, sym, ap, ◌∙◌, subst, List, map, [], ◌∷◌, ◌++◌, length, arith, Option,
  Outcome, ok, err, panic, true, false, inl, inr, ◌⊎◌, ◌==◌, if◌then◌else◌,
}
use distributed_donut.Client.{ResultHandler, Client, new_client, handle_received_message, close}
use distributed_donut.Client.Pool.{
  ClientPool, update, contains, is_capped, add_client, close_client,
}
use distributed_donut.Client.Pool.Capacity
use distributed_donut.Client.Pool.Capacity.{add_client_lem, close_client_lem}
use distributed_donut.Server.{
  Read, cancelled, failed, message, Ending, not_upgraded, refused, shut_down, disconnected, invalid,
  panicked, still_open, serve, Served, handle_new_connection,
}

module _ {S : Type 0} (on_result : Option (ResultHandler S)) (c : Client) where
  -- All of the messages are accepted, each in the state that the one before it left.
  abbrev pub Accepts : S → List (List ℕ) → S → Type 0
  Accepts s [] s' = s ≡ s'
  Accepts s (m ∷ ms) s' =
      (t : S) × (handle_received_message on_result c m s ≡ ok t) × Accepts t ms s'

  -- What stands after the accepted messages when the loop ends as it does.
  abbrev pub EndsAt : Ending → S → List Read → Type 0
  EndsAt still_open s rest = rest ≡ []
  EndsAt shut_down s rest = (later : List Read) × (rest ≡ cancelled ∷ later)
  EndsAt disconnected s rest = (later : List Read) × (rest ≡ failed ∷ later)
  EndsAt (invalid e) s rest =
      (m : List ℕ) × (later : List Read) × (rest ≡ message m ∷ later)
      × (handle_received_message on_result c m s ≡ err e)
  EndsAt (panicked p) s rest =
      (m : List ℕ) × (later : List Read) × (rest ≡ message m ∷ later)
      × (handle_received_message on_result c m s ≡ panic p)
  EndsAt not_upgraded s rest = ⊥
  EndsAt refused s rest = ⊥

  -- by what the handler makes of the first message
  abbrev Looped : List Read → S → Ending × S → Type 0
  Looped reads s r =
      (ms : List (List ℕ)) × (rest : List Read) × (reads ≡ map message ms ++ rest)
      × Accepts s ms r.1
      × EndsAt r.0 r.1 rest

  handled :
      (s : S) (m : List ℕ) (later : List Read) (o : Outcome S)
      → handle_received_message on_result c m s ≡ o
      → ((t : S) → Looped later t (serve on_result c t later))
      → Looped (message m ∷ later) s (elim o [
        | ok s' ↦ serve on_result c s' later
        | err e ↦ (invalid e, s)
        | panic p ↦ (panicked p, s)
      ])
  handled s m later (ok t) e rec =
      let (ms, rest, split, accepted, ends) = rec t in
      (m ∷ ms, rest, ap (λ (x : List Read). message m ∷ x) split, (t, e, accepted), ends)
  handled s m later (err x) e rec = ([], message m ∷ later, refl, refl, (m, later, refl, e))
  handled s m later (panic x) e rec = ([], message m ∷ later, refl, refl, (m, later, refl, e))

  -- The loop accepts the messages in order up to the first turn that ends it, and nothing after that turn
  -- is looked at: it ends without having handled a message that it did not accept, on a cancelled
  -- context, on a failed read, or on the first message that is an error (or a panic) in the state that
  -- the accepted ones left; and that state is the one it leaves.
  pub serve_lem :
      (s : S) (reads : List Read)
      → (ms : List (List ℕ)) × (rest : List Read) × (reads ≡ map message ms ++ rest)
        × Accepts s ms (serve on_result c s reads).1
        × EndsAt (serve on_result c s reads).0 (serve on_result c s reads).1 rest
  unfolding serve
  serve_lem s [] = ([], [], refl, refl, refl)
  serve_lem s (cancelled ∷ later) = ([], cancelled ∷ later, refl, refl, (later, refl))
  serve_lem s (failed ∷ later) = ([], failed ∷ later, refl, refl, (later, refl))
  serve_lem s (message m ∷ later) =
      handled s m later (handle_received_message on_result c m s) refl (λ t. serve_lem t later)

-- Closing a client that is closed leaves the pool to itself.
close_client_again :
    (p : ClientPool) (a : ℕ)
    → (p.store a).closed ≡ true
    → Capacity.IsValid p
    → ((close_client p a).clients ≡ p.clients) × Capacity.IsValid (close_client p a)
unfolding close_client close
close_client_again p a closed v = (ground arith, ground arith)

-- What the rest of the server may do to the client at `a` while it is served, from one pool to another:
-- whether it is closed and whether it is pooled stay as they are, or its writer closes it, and it is gone.
pub record Spares (q q' : ClientPool) (a : ℕ) : Type 0 where
  pub valid : Capacity.IsValid q'
  pub either :
      (((q'.store a).closed ≡ (q.store a).closed) × ((q'.store a).pooled ≡ (q.store a).pooled))
      ⊎ (((q'.store a).closed ≡ true) × (contains q'.clients a ≡ false))

-- Nothing may happen.
pub Spares-refl : (q : ClientPool) (a : ℕ) → Capacity.IsValid q → Spares q q a
Spares-refl q a v = record { valid = v; either = inl (refl, refl) }

-- The client's writer may close it.
pub Spares-close_client :
    (q : ClientPool) (a : ℕ)
    → Capacity.IsValid q
    → (q.store a).closed ≡ false
    → (q.store a).pooled ≡ true
    → Spares q (close_client q a) a
Spares-close_client q a v opened pooled =
    let (out, _, _, closed, v') = close_client_lem q a v opened pooled in
    record { valid = v'; either = inr (closed, out a ∙ ground arith) }

-- the pool after the deferred Close
closed_pool :
    (q : ClientPool) (a : ℕ)
    → Capacity.IsValid q
    → ((q.store a).closed ≡ false) × ((q.store a).pooled ≡ true)
      ⊎ ((q.store a).closed ≡ true) × (contains q.clients a ≡ false)
    → ((b : ℕ)
        → contains (close_client q a).clients b ≡ (if a == b then false else contains q.clients b))
      × Capacity.IsValid (close_client q a)
closed_pool q a v (inl (opened, pooled)) =
    let (out, _, _, _, v') = close_client_lem q a v opened pooled in (out, v')
closed_pool q a v (inr (closed, gone)) =
    let (same, v') = close_client_again q a closed v in
    (λ b. ap (λ (l : List ℕ). contains l b) same ∙ ground arith, v')

is_still_open : (e : Ending) → (e ≡ still_open) ⊎ (e ≢ still_open)
is_still_open not_upgraded = inr (λ e. cc)
is_still_open refused = inr (λ e. cc)
is_still_open shut_down = inr (λ e. cc)
is_still_open disconnected = inr (λ e. cc)
is_still_open (invalid e) = inr (λ h. cc)
is_still_open (panicked p) = inr (λ e. cc)
is_still_open still_open = inl refl

released :
    (e : Ending) (q : ClientPool) (a : ℕ)
    → e ≢ still_open
    → (elim e [ still_open ↦ q | _ ↦ close_client q a ]) ≡ close_client q a
released not_upgraded q a ne = refl
released refused q a ne = refl
released shut_down q a ne = refl
released disconnected q a ne = refl
released (invalid e) q a ne = refl
released (panicked p) q a ne = refl
released still_open q a ne = absurd (ne refl)

module _ {S : Type 0} (on_result : Option (ResultHandler S)) (a client_id_counter : ℕ)
    (p : ClientPool) (s : S) (reads : List Read) (meanwhile : ClientPool → ClientPool) where
  abbrev pub newcomer : Client
  newcomer = (new_client client_id_counter).1

  abbrev pub offered : ClientPool
  offered = record p { store = update p.store a newcomer }

  abbrev pub served : Served on_result
  served = handle_new_connection on_result true a client_id_counter p s reads meanwhile

  admitted_lem :
      (add_client offered a).0 ≡ true
      → (served.ending ≡ (serve on_result newcomer s reads).0)
        × (served.state ≡ (serve on_result newcomer s reads).1)
        × (served.pool ≡ (elim (serve on_result newcomer s reads).0 [
          | still_open ↦ meanwhile (add_client offered a).1
          | _ ↦ close_client (meanwhile (add_client offered a).1) a
        ]))
  unfolding handle_new_connection
  admitted_lem yes_ = (rw yes_ refl, rw yes_ refl, rw yes_ refl)

  -- The new client is in the pool as it was made, and knows it.
  pub admitted_client :
      (add_client offered a).0 ≡ true
      → (((add_client offered a).1.store a).closed ≡ false)
        × (((add_client offered a).1.store a).pooled ≡ true)
  unfolding add_client new_client
  admitted_client yes_ = ground arith

  -- What becomes of an upgraded connection. It is refused exactly when the pool has a cap and is at it:
  -- then nobody is added, no message is read and the connection is closed. Otherwise its messages are
  -- served, and either the loop still runs or, however it ended, the client is out of the pool, which is
  -- within its cap. What goes on meanwhile leaves the client open and pooled or closes it.
  pub handle_new_connection_lem :
      Capacity.IsValid p
      → Spares (add_client offered a).1 (meanwhile (add_client offered a).1) a
      → ((served.ending ≡ refused)
          × (is_capped p ≡ true)
          × (length p.clients ≡ p.max_clients)
          × (served.pool.clients ≡ p.clients)
          × (served.state ≡ s)
          × ((served.pool.store a).conn_open ≡ false))
        ⊎ (((is_capped p ≡ false) ⊎ (length p.clients < p.max_clients))
            × (served.ending ≡ (serve on_result newcomer s reads).0)
            × (served.state ≡ (serve on_result newcomer s reads).1)
            × ((served.ending ≡ still_open)
                ⊎ ((contains served.pool.clients a ≡ false) × Capacity.IsValid served.pool)))
  unfolding handle_new_connection
  handle_new_connection_lem v spares =
      let v' : Capacity.IsValid offered = record { once = v.once; capped = v.capped } in
      elim (add_client_lem offered a v') [
        | inl (cap, full, e) ↦ inl (rw e refl, cap, full, rw e refl, rw e refl, rw e (ground arith))
        | inr (room, yes_, members, v'') ↦
            let (ending, state, pool) = admitted_lem yes_ in
            inr (
              room,
              ending,
              state,
              elim (is_still_open served.ending) [
                | inl open_ ↦ inl open_
                | inr over ↦
                    let over' : (serve on_result newcomer s reads).0 ≢ still_open =
                      λ e. over (ending ∙ e) in
                    let q = meanwhile (add_client offered a).1 in
                    let (opened, pooled) = admitted_client yes_ in
                    let state_of : ((q.store a).closed ≡ false) × ((q.store a).pooled ≡ true)
                        ⊎ ((q.store a).closed ≡ true) × (contains q.clients a ≡ false) =
                      elim spares.either [
                        | inl (same, same') ↦ inl (same ∙ opened, same' ∙ pooled)
                        | inr gone ↦ inr gone
                      ] in
                    let (gone, valid) = closed_pool q a spares.valid state_of in
                    let closed : served.pool ≡ close_client q a = pool ∙ released _ q a over' in
                    inr (
                      subst
                        (λ (x : ClientPool). (contains x.clients a ≡ false) × Capacity.IsValid x)
                        (sym closed) (gone a ∙ ground arith, valid))
              ],
            )
      ]
