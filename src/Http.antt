-- ===== src/Http.antt =====
-- The HTTP client of Essential Libraries/HTTPClient/src: how a response's body is passed on.
pub mod Net
pub mod Block
pub mod Copied
pub mod Passed
pub mod Transfer
pub mod Chunks
pub mod Polls
pub mod Streamed
pub mod Ended
mod Tests
