-- ===== src/WifiMulti/Wifi.antt =====
-- What `WiFiMulti` calls: the `WiFi` object, the clock and the heap.
use jedge.Base.{
  ℕ, ◌+◌, ◌%◌, ◌^◌, ◌≤◌, ◌≡◌, ◌==◌, ltb, Bool, true, false, ◌&&◌, List, [], ◌∷◌, Option, ℤ, pos,
  negsuc,
}

-- `<` of `int`
abbrev pub ltz : ℤ → ℤ → Bool
ltz (pos a) (pos b) = ltb a b
ltz (pos a) (negsuc b) = false
ltz (negsuc a) (pos b) = true
ltz (negsuc a) (negsuc b) = ltb b a

-- `==` of strings
unfoldable pub same_text : List ℕ → List ℕ → Bool
same_text [] [] = true
same_text [] (y ∷ ys) = false
same_text (x ∷ xs) [] = false
same_text (x ∷ xs) (y ∷ ys) = (x == y) && same_text xs ys

-- a known access point, `none` for no passphrase
pub record Ap : Type 0 where
  pub ssid : List ℕ
  pub passphrase : Option (List ℕ)

-- a network that a scan found
pub record Network : Type 0 where
  pub ssid : List ℕ
  pub is_open : Bool
  pub rssi : ℤ
  pub bssid : List ℕ
  pub channel : ℤ

pub record Wifi : Type 1 where
  pub Dev : Type 0
  -- `WiFi.status()`, and `WiFi.SSID()`
  pub status : Dev → ℕ
  pub ssid : Dev → List ℕ
  -- `WiFi.disconnect(false, false)` and `WiFi.disconnect()`
  pub disconnect_from : Dev → Dev
  pub disconnect : Dev → Dev
  -- `WiFi.scanNetworks()`: -1 for a running scan, -2 for a failure, or the number of networks
  pub scan_networks : Dev → ℤ × Dev
  pub network_info : ℕ → Dev → Network
  pub scan_delete : Dev → Dev
  pub start_scan : Dev → Dev
  -- `WiFi.begin(ssid, passphrase, channel, bssid)`
  pub begin : Ap → ℤ → List ℕ → Dev → Dev
  -- `millis()`, and `delay(10)`
  pub millis : Dev → ℕ
  pub delay10 : Dev → Dev

-- The documented behaviour of the clock: `millis` is the time since the start modulo 2^32, and a
-- delay of 10 ms takes at least that, and less than 2^31 ms.
pub record ClockLaws (wifi : Wifi) : Type 0 where
  pub time : wifi.Dev → ℕ
  pub millis_is : (d : wifi.Dev) → wifi.millis d ≡ time d % 2 ^ 32
  pub delay_least : (d : wifi.Dev) → time d + 10 ≤ time (wifi.delay10 d)
  pub delay_most : (d : wifi.Dev) → time (wifi.delay10 d) ≤ time d + 2 ^ 31
