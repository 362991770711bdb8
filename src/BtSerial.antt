-- ===== src/BtSerial.antt =====
-- The serial port over classic Bluetooth of Essential Libraries/BluetoothSerial/src.
pub mod Stack
pub mod Events
pub mod Sending
pub mod Link
pub mod Waits
pub mod Rounds
pub mod Steps
pub mod Stream
pub mod Carried
pub mod CarriedRound
pub mod Delivery
pub mod Lossless
pub mod Pin
pub mod Pins
pub mod Received
mod Tests
