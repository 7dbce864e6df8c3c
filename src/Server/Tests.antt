-- ===== src/Server/Tests.antt =====
-- One connection, run: at the cap, and with a message that ends it.
use distributed_donut.Prelude.{
  ℕ, ◌+◌, ◌<◌, ◌≡◌, ◌≢◌, ◌⊎◌, refl, List, [], ◌∷◌, ◌++◌, map, length, some, Outcome, ok, true,
  false, arith, Panic, inl, inr,
}
use distributed_donut.Protocol.{RenderResult}
use distributed_donut.Client.{Client, new_client}
use distributed_donut.Client.Pool.{ClientPool, contains, is_capped, add_client, close_client}
use distributed_donut.Client.Pool.Capacity
use distributed_donut.Client.Pool.Capacity.{add_client_lem}
use distributed_donut.Orchestrator.BatchMap.{FrameBatchMap, handle_result}
use distributed_donut.Orchestrator.BatchMap.Save
use distributed_donut.Orchestrator.BatchMap.View.{find-nil}
use distributed_donut.Server.{Read, message, refused, still_open, panicked, serve}
use distributed_donut.Server.Connection.{
  Accepts, EndsAt, serve_lem, Spares, Spares-close_client, offered, newcomer, served,
  handle_new_connection_lem,
}
use distributed_donut.Server.Safety.{serve-IsValid}

-- it counts the results that it is given
abbrev count_results : ℕ → ℕ → RenderResult → Outcome ℕ
count_results count client_id result = ok (count + 1)

abbrev visitor : Client
visitor = record {
  id = 4;
  conn_open = true;
  num_render_tasks = 0;
  send = [];
  quit = false;
  closed = false;
  pooled = true;
}

-- a message of another type, one that is too short, and one that nobody reads
abbrev three_messages : List Read
three_messages = message (9 ∷ []) ∷ message (0x1 ∷ 5 ∷ []) ∷ message (9 ∷ []) ∷ []

serve_lem_example :
    (ms : List (List ℕ)) × (rest : List Read) × (three_messages ≡ map message ms ++ rest)
    × Accepts
        (some count_results)
        visitor
        0
        ms
        (serve (some count_results) visitor 0 three_messages).1
    × EndsAt
        (some count_results)
        visitor
        (serve (some count_results) visitor 0 three_messages).0
        (serve (some count_results) visitor 0 three_messages).1
        rest
serve_lem_example = serve_lem (some count_results) visitor 0 three_messages

abbrev lobby : ClientPool
lobby = record { store = λ _. visitor; clients = 3 ∷ []; max_clients = 2 }

lobby-IsValid : Capacity.IsValid lobby
unfolding contains
lobby-IsValid = record { once = (refl, tt); capped = λ _. omega arith }

-- Meanwhile a write to the new client fails, and its writer closes it.
abbrev pub writer_fails : ClientPool → ClientPool
writer_fails q = close_client q 8

abbrev joined : ClientPool
joined = (add_client (offered (some count_results) 8 0 lobby 0 three_messages writer_fails) 8).1

joined-IsValid : Capacity.IsValid joined
joined-IsValid =
    elim (add_client_lem (offered (some count_results) 8 0 lobby 0 three_messages writer_fails) 8
      (record { once = lobby-IsValid.once; capped = lobby-IsValid.capped })) [
        | inl (_, full, _) ↦ absurd (omega (arith, full))
        | inr (_, _, _, v) ↦ v
      ]

writer_fails-Spares : Spares joined (writer_fails joined) 8
unfolding add_client new_client
writer_fails-Spares = Spares-close_client joined 8 joined-IsValid refl refl

handle_new_connection_lem_example :
    ((served (some count_results) 8 0 lobby 0 three_messages writer_fails).ending ≡ refused
      × (is_capped lobby ≡ true)
      × (length lobby.clients ≡ lobby.max_clients)
      × ((served (some count_results) 8 0 lobby 0 three_messages writer_fails).pool.clients
          ≡ lobby.clients)
      × ((served (some count_results) 8 0 lobby 0 three_messages writer_fails).state ≡ 0)
      × (((served (some count_results) 8 0 lobby 0 three_messages writer_fails).pool.store
            8).conn_open
          ≡ false))
    ⊎ (((is_capped lobby ≡ false) ⊎ (length lobby.clients < lobby.max_clients))
        × ((served (some count_results) 8 0 lobby 0 three_messages writer_fails).ending
            ≡ (serve
                (some count_results)
                (newcomer (some count_results) 8 0 lobby 0 three_messages writer_fails)
                0
                three_messages).0)
        × ((served (some count_results) 8 0 lobby 0 three_messages writer_fails).state
            ≡ (serve
                (some count_results)
                (newcomer (some count_results) 8 0 lobby 0 three_messages writer_fails)
                0
                three_messages).1)
        × (((served (some count_results) 8 0 lobby 0 three_messages writer_fails).ending
              ≡ still_open)
            ⊎ ((contains
                    (served
                      (some count_results)
                      8
                      0
                      lobby
                      0
                      three_messages
                      writer_fails).pool.clients
                    8
                  ≡ false)
                × Capacity.IsValid
                    (served (some count_results) 8 0 lobby 0 three_messages writer_fails).pool)))
handle_new_connection_lem_example =
    handle_new_connection_lem (some count_results) 8 0 lobby 0 three_messages writer_fails
      lobby-IsValid writer_fails-Spares

abbrev no_tasks : FrameBatchMap
no_tasks = record {
  frame_batches = [];
  buffer = record { buffer = λ _. 0; head = 0; tail = 0 };
  closed = λ _. false;
}

no_tasks-IsValid : Save.IsValid no_tasks
no_tasks-IsValid = record {
  batch = λ c t meta e. ground (arith, find-nil c t);
  has_channel = λ c t meta e. ground (arith, find-nil c t);
  flagged = λ c t ch meta e. ground (arith, find-nil c t);
  own = λ c t c' t' ch meta meta' e. ground (arith, find-nil c t);
}

serve-IsValid_example :
    Save.IsValid (serve (some handle_result) visitor no_tasks three_messages).1
    × ((p : Panic) → (serve (some handle_result) visitor no_tasks three_messages).0 ≢ panicked p)
serve-IsValid_example = serve-IsValid visitor no_tasks three_messages no_tasks-IsValid
