-- ===== src/Harness.antt =====
-- internal/harness: the rig that stands up the server and drives it with workers in Go.
pub mod Renderer
pub mod Worker
pub mod Cluster
pub mod Integrity
pub mod Tests
