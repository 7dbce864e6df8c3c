-- ===== src/Orchestrator/Telemetry.antt =====
-- `telemetryBroadcaster` of internal/orchestrator/orchestrator.go. A ticker is armed if its interval, an
-- int64, is positive; a tick of an armed ticker may come at any time, and what the loop then does is one step
-- on the pool. What other goroutines do between two ticks is `meanwhile`.
pub mod Ticks
mod Tests
use distributed_donut.Prelude.{
  ℕ, ◌^◌, List, [], ◌∷◌, Option, Bool, true, ◌&&◌, ltb, ◌≡◌, if◌then◌else◌, u32,
}
use distributed_donut.Buffer.{FrameBuffer, fullness_percent}
use distributed_donut.Client.Pool.{
  ClientPool, get_client_count, broadcast_client_count, broadcast_buffer_fullness,
}
use distributed_donut.Orchestrator.{Config}

pub data Ticker : Type 0 where
  client_count : Ticker
  buffer_fullness : Ticker

-- `d > 0`, of a Duration
abbrev is_positive : ℕ → Bool
is_positive d = ltb 0 d && ltb d (2 ^ 63)

unfoldable pub is_armed : Config → Ticker → Bool
is_armed cfg client_count = is_positive cfg.client_count_interval
is_armed cfg buffer_fullness = is_positive cfg.buffer_fullness_interval

unfoldable pub tick_telemetry :
    (List ℕ → Option (List ℕ)) → FrameBuffer → Ticker → ClientPool → ClientPool
unfolding get_client_count fullness_percent broadcast_client_count broadcast_buffer_fullness
tick_telemetry prepare fb client_count p =
    broadcast_client_count prepare p (u32 (get_client_count p))
tick_telemetry prepare fb buffer_fullness p =
    broadcast_buffer_fullness prepare p (fullness_percent fb)

-- The loop, at the tickers whose channels are ready one after the other, with the buffer at that time. A
-- ticker that is not armed has no channel, so the select never takes its case.
unfoldable pub telemetry_broadcaster :
    (List ℕ → Option (List ℕ))
    → Config
    → (meanwhile : ClientPool → ClientPool) → List (Ticker × FrameBuffer)
    → ClientPool
    → ClientPool
unfolding is_armed tick_telemetry
telemetry_broadcaster prepare cfg meanwhile [] p = p
telemetry_broadcaster prepare cfg meanwhile ((t, fb) ∷ ticks) p =
    telemetry_broadcaster prepare cfg meanwhile ticks
      (meanwhile (if is_armed cfg t then tick_telemetry prepare fb t p else p))
