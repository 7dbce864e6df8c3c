-- ===== src/Buffer/Ring.antt =====
-- The buffer of internal/buffer/frame_buffer.go as a queue of bytes: `contents` are the bytes from the
-- tail to the head, going round the ring.
mod Defs
pub mod Window
pub mod Read
pub mod Write
unfoldable pub use Defs.*
