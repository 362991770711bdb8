-- ===== src/Update.antt =====
-- `UpdateClass` of Essential Libraries/Update/src/Updater.cpp and Update.h: an over-the-air update
-- is collected in a buffer of one flash sector and written sector by sector.
pub mod Esp
pub mod UpdateError
pub mod State
pub mod Methods
pub mod Transfer
pub mod Image
pub mod Sector
pub mod Flush
pub mod Writes
pub mod Accepted
pub mod Written
pub mod Installed
pub mod Ends
pub mod Header
pub mod Begins
pub mod Session
pub mod Faults
pub mod Stopped
pub mod Digest
pub mod EarlyEnd
mod Tests
pub mod Silent
mod Witnesses
