-- ===== src/Eeprom.antt =====
-- `EEPROMClass` of Essential Libraries/EEPROM/src: a byte array in memory that stands for an EEPROM
-- and is kept in a blob of the non-volatile storage.
pub mod Nvs
pub mod Store
pub mod Encoding
pub mod Values
pub mod Access
pub mod Typed
pub mod Persist
pub mod Reopen
pub mod Strings
pub mod StringRoundTrip
mod Tests
