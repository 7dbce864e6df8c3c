-- ===== src/Command.antt =====
-- cmd/donut-server: the process around the orchestrator: its logging in `Logging`, and in `Startup` how flags
-- and environment make the settings that the orchestrator and the pool are built from.
pub mod Lifetime
pub mod Logging
pub mod Startup
mod Tests
