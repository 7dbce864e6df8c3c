-- ===== src/Orchestrator/Pipeline/Tasks.antt =====
-- The steps of a task's goroutine keep the invariant.
mod Stepped
mod Moves
mod Switch
pub use Stepped.*
pub use Moves.*
pub use Switch.*
