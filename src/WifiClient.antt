-- ===== src/WifiClient.antt =====
-- The TCP client of Essential Libraries/WiFi/src: the buffer of the bytes received.
pub mod RxBuffer
pub mod Moves
pub mod Loops
pub mod Reads
pub mod Peeks
pub mod Client
pub mod Faults
mod Tests
