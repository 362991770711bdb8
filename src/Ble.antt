-- ===== src/Ble.antt =====
-- The Bluetooth Low Energy data classes of Essential Libraries/BLE/src.
pub mod Hex
pub mod Uuid
pub mod UuidText
pub mod Advertised
pub mod Record
pub mod Payload
pub mod UuidRefusals
pub mod Base64
pub mod Base64RoundTrip
pub mod EddystoneUrl
pub mod EddystoneTlm
pub mod BeaconData
pub mod UrlText
pub mod Value
pub mod Characteristic
pub mod ReadPacket
pub mod LongRead
pub mod LongWrite
pub mod Notify
pub mod Notified
mod CharacteristicTests
mod Tests
