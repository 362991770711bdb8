-- ===== src/WifiMulti.antt =====
-- `WiFiMulti` of Essential Libraries/WiFi/src/WiFiMulti.cpp: the choice among known access points.
pub mod Wifi
pub mod ApList
pub mod Best
pub mod Waiting
pub mod Adding
mod Tests
