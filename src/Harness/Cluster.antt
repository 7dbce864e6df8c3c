-- ===== src/Harness/Cluster.antt =====
-- internal/harness/cluster.go: a cluster under test: its configuration, what it connects, and the wait for
-- its clients. The listeners, the dialler and the goroutines that it starts are given.
use distributed_donut.Prelude.{
  ℕ, ◌*◌, List, [], ◌∷◌, ◌++◌, map, Option, none, some, Bool, true, false, ◌==◌, arith,
  if◌then◌else◌, ◌≡◌, refl,
}
use distributed_donut.Client.{Client}
use distributed_donut.Buffer.{FrameBuffer}
use distributed_donut.Orchestrator.Telemetry.{Ticker, is_armed, telemetry_broadcaster}
use distributed_donut.Orchestrator.Telemetry.Ticks.{telemetry_broadcaster-none}
use distributed_donut.Client.Pool.{contains, ClientPool, new_client_pool, get_client_count}
use distributed_donut.Harness.Worker.{WorkerConfig, Worker, new_worker}
use Prim.Native.String
use Prim.Native.String.{String}
use distributed_donut.Orchestrator.{
  Config, ConfigOption, with_task_timeout, with_broadcast_interval, with_broadcast_thresholds,
  with_client_count_interval, with_buffer_fullness_interval, apply_options, configure,
  default_config,
}

abbrev millisecond : ℕ
millisecond = 1_000_000

unfoldable fast_options : List ConfigOption
unfolding with_task_timeout with_broadcast_interval with_broadcast_thresholds
    with_client_count_interval with_buffer_fullness_interval
fast_options =
    with_broadcast_thresholds 1 1
    ∷ with_broadcast_interval (10 * millisecond)
    ∷ with_task_timeout (150 * millisecond)
    ∷ with_client_count_interval 0
    ∷ with_buffer_fullness_interval 0
    ∷ []

pub record ClusterConfig : Type 0 where
  orch_options : List ConfigOption

abbrev ClusterOption : Type 0
ClusterOption = ClusterConfig → ClusterConfig

unfoldable with_orchestrator_options : List ConfigOption → ClusterOption
with_orchestrator_options opts c = record c { orch_options = c.orch_options ++ opts }

-- the loop over the options in `NewCluster`
unfoldable apply_cluster_options : List ClusterOption → ClusterOption
apply_cluster_options [] cfg = cfg
apply_cluster_options (opt ∷ opts) cfg = apply_cluster_options opts (opt cfg)

-- What `NewCluster` builds from its options.
pub record ClusterParts : Type 0 where
  pub pool : ClientPool
  pub config : Config

unfoldable new_cluster : (ℕ → Client) → List ClusterOption → ClusterParts
unfolding fast_options apply_cluster_options new_client_pool configure
new_cluster store opts =
    let cfg = apply_cluster_options opts (record { orch_options = fast_options }) in
    record { pool = new_client_pool store 0; config = configure cfg.orch_options }

-- The cluster that `NewCluster` returns: `pool` is as it is at the moment, `serving` whether the test server
-- of net/http is open, `cancelled` whether the context is.
pub record Cluster : Type 0 where
  pub pool : ClientPool
  pub serving : Bool
  pub ws_url : String
  pub cancelled : Bool

-- The end of `NewCluster`, with what httptest gives as the URL, and strings.TrimPrefix.
unfoldable new_cluster_at :
    (trim_prefix : String → String → String) (url : String) → ClusterParts → Cluster
new_cluster_at trim_prefix url parts = record {
  pool = parts.pool;
  serving = true;
  ws_url = String.◌++◌ (String.◌++◌ "ws" (trim_prefix url "http")) "/ws";
  cancelled = false;
}

-- `Connect`: the worker whose read loop is started, unless the dial failed
unfoldable connect : (dialled : Bool) → WorkerConfig → Option Worker
unfolding new_worker
connect dialled cfg = if dialled then some (new_worker cfg) else none

-- `DialRaw`, of what the dialler returned
unfoldable dial_raw {ℓ} : {Conn : Type ℓ} → Option Conn → Option Conn
dial_raw conn = conn

unfoldable client_count : Cluster → ℕ
unfolding get_client_count
client_count c = get_client_count c.pool

unfoldable close : Cluster → Cluster
close c = record c { cancelled = true; serving = false }

-- What the `select` of WaitForClientCount finds.
pub data Ready : Type 0 where
  on_deadline : Ready
  on_tick : Ready

-- Each turn sees a number of clients and then what is ready. `none`: it still waits; `some true`: it
-- returns nil, `some false`: the error.
unfoldable wait_for_client_count : ℕ → List (ℕ × Ready) → Option Bool
wait_for_client_count n [] = none
wait_for_client_count n ((count, ready) ∷ turns) =
    let more = wait_for_client_count n turns in
    if count == n then some true else elim ready [ on_deadline ↦ some false | on_tick ↦ more ]

apply_options-append :
    (first later : List ConfigOption) (cfg : Config)
    → apply_options (first ++ later) cfg ≡ apply_options later (apply_options first cfg)
unfolding apply_options
apply_options-append [] later cfg = refl
apply_options-append (opt ∷ first) later cfg = apply_options-append first later (opt cfg)

-- Options given to a cluster come after its fast defaults, so that they win and the rest stays.
new_cluster-with_orchestrator_options :
    (store : ℕ → Client) (opts : List ConfigOption)
    → (new_cluster store (with_orchestrator_options opts ∷ [])).config
      ≡ apply_options opts (configure fast_options)
unfolding new_cluster apply_cluster_options with_orchestrator_options configure
new_cluster-with_orchestrator_options store opts =
    apply_options-append fast_options opts default_config

-- In a cluster without options the telemetry loop does nothing to the pool, whichever tickers fire.
telemetry_broadcaster-new_cluster :
    (prepare : List ℕ → Option (List ℕ)) (store : ℕ → Client) (ticks : List (Ticker × FrameBuffer))
    (p : ClientPool)
    → telemetry_broadcaster prepare (new_cluster store []).config (λ q. q) ticks p ≡ p
unfolding new_cluster apply_cluster_options fast_options configure apply_options is_armed
telemetry_broadcaster-new_cluster prepare store ticks p =
    telemetry_broadcaster-none prepare (new_cluster store []).config ticks p refl refl

-- The wait goes on past ticks that see other numbers of clients.
wait_for_client_count-ticks :
    (n : ℕ) (counts : List ℕ) (turns : List (ℕ × Ready))
    → contains counts n ≡ false
    → wait_for_client_count n (map (λ c. (c, on_tick)) counts ++ turns)
      ≡ wait_for_client_count n turns
unfolding wait_for_client_count contains
wait_for_client_count-ticks n [] turns h = refl
wait_for_client_count-ticks n (c ∷ counts) turns h =
    ground (arith, wait_for_client_count-ticks n counts turns)
