-- ===== src/Delivery/Tests.antt =====
-- A worker that watches the first broadcast.
use distributed_donut.Prelude.{
  ℕ, min, true, List, [], ◌∷◌, ◌++◌, map, some, ◌≡◌, refl, ap, arith, ok,
}
use distributed_donut.Buffer.{max_frames}
use distributed_donut.Client.{request_work}
use distributed_donut.Client.Pool.{ClientPool, contains, update}
use distributed_donut.Client.Pool.Capacity.{IsValid}
use distributed_donut.Orchestrator.{default_config}
use distributed_donut.Orchestrator.Pipeline.{start, idle_client}
use distributed_donut.Harness.Renderer.{verify_contiguous_frames}
use distributed_donut.Harness.Worker.{Worker, Chance, run, frame_count}
use distributed_donut.Harness.Worker.Broadcasts.{Watches, concat}
use distributed_donut.Harness.Integrity.{Synthetic}
use distributed_donut.Harness.Tests.{integers, one_broadcast, viewer, lucky}
use distributed_donut.Delivery.{Fleet, task_out, frames_of, accepted}
use distributed_donut.Delivery.Steps.{Delivers, FleetStep-Delivers}
use distributed_donut.Delivery.Whole.{Together, watcher_receives, watcher_verifies}
use distributed_donut.Delivery.Prompt.{KeptUp, Reach-Together}

abbrev pair : ClientPool
pair = record { store = idle_client; clients = 3 ∷ 5 ∷ []; max_clients = 10 }

pair-IsValid : IsValid pair
unfolding contains
pair-IsValid = record { once = (refl, (refl, tt)); capped = λ _. omega arith }

pair_has : contains pair.clients 3 ≡ true
unfolding contains
pair_has = refl

-- the fleet at the first broadcast, with a client that keeps up
abbrev met :
    (f : Fleet) × Together integers default_config Synthetic 3 start one_broadcast.0 f × KeptUp 3 f
met =
    Reach-Together integers default_config Synthetic 3 pair pair-IsValid pair_has refl
      one_broadcast.1

with_chance :
    (msgs : List (List ℕ)) → map (λ (r : List ℕ × Chance). r.0) (map (λ m. (m, lucky)) msgs) ≡ msgs
with_chance [] = refl
with_chance (msg ∷ msgs) = ap (λ (t : List (List ℕ)). msg ∷ t) (with_chance msgs)

abbrev reads : List (List ℕ × Chance)
reads = map (λ m. (m, lucky)) met.0.written

viewer-Watches : Watches viewer
viewer-Watches = record { stays = refl; silent = refl; collects = refl; connected = refl }

watcher_receives_example :
    (w' : Worker) × (run viewer reads ≡ ok (w', []))
    × (one_broadcast.0.stream
        ≡ start.stream ++ (w'.received ++ concat (frames_of (met.0.pool.store 3).send)))
watcher_receives_example =
    watcher_receives integers default_config Synthetic 3 start one_broadcast.0 met.0 viewer reads
      met.1 met.2.all viewer-Watches refl (with_chance met.0.written)

watcher_verifies_example :
    (w' : Worker) × (run viewer reads ≡ ok (w', []))
    × (verify_contiguous_frames w'.received (min (frame_count w') max_frames) ≡ ok tt)
watcher_verifies_example =
    watcher_verifies integers default_config 3 one_broadcast.0 met.0 viewer reads (omega arith)
      (omega arith) met.1 met.2.all viewer-Watches refl (with_chance met.0.written)

-- a task for the client, before any broadcast
FleetStep-Delivers_example : Delivers 3 (record {
  pool = record pair { store = update pair.store 3 (request_work some (pair.store 3) 7 0 59) };
  log = [];
  written = [];
})
unfolding frames_of accepted
FleetStep-Delivers_example =
    FleetStep-Delivers {f = record { pool = pair; log = []; written = [] }}
      (record { valid = pair-IsValid; member = pair_has; frames = refl }) (task_out 3 7 0 59)
