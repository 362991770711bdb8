-- ===== src/WifiMulti/Tests.antt =====
-- `WiFiMulti` with a radio that finds two networks and connects after 30 ms, and the theorems there.
use jedge.Base.{
  ℕ, ◌+◌, ◌%◌, ◌^◌, ◌≡◌, ◌==◌, leb, if◌then◌else◌, true, false, [], ◌∷◌, some, pos, negsuc, arith,
  refl, ◌⊎◌,
}
use jedge.WifiMulti.Wifi.{Wifi, Ap, Network, ClockLaws}
use jedge.WifiMulti.ApList.{add_ap, run}
use jedge.WifiMulti.Waiting.{run-total}
use jedge.WifiMulti.Adding.{IsAdded, IsRefused, add_ap-outcomes}

abbrev home : Ap
home = record { ssid = 104 ∷ []; passphrase = some (112 ∷ []) }

abbrev near : Network
near = record {
  ssid = 104 ∷ [];
  is_open = false;
  rssi = negsuc 39;
  bssid = 1 ∷ [];
  channel = pos 6;
}

abbrev far : Network
far = record { ssid = 104 ∷ []; is_open = false; rssi = negsuc 79; bssid = 2 ∷ []; channel = pos 1 }

abbrev test_wifi : Wifi
test_wifi = record {
  Dev = ℕ;
  status = λ d. if leb 30 d then 3 else 6;
  ssid = λ _. 104 ∷ [];
  disconnect_from = λ d. d;
  disconnect = λ d. d;
  scan_networks = λ d. (pos 2, d);
  network_info = λ i _. if i == 0 then far else near;
  scan_delete = λ d. d;
  start_scan = λ d. d;
  begin = λ _ _ _ d. d;
  millis = λ d. d % 2 ^ 32;
  delay10 = λ d. d + 10;
}

test_clock : ClockLaws test_wifi
test_clock = record {
  time = λ d. d;
  millis_is = λ d. refl;
  delay_least = λ d. omega arith;
  delay_most = λ d. omega arith;
}

run-total_example : (r : ℕ × ℕ) × (run test_wifi 5002 5000 (home ∷ []) 0 ≡ some r)
run-total_example = run-total test_clock 5000 (home ∷ []) 0 (omega arith)

add_ap-outcomes_example :
    IsAdded
      (some (104 ∷ []))
      (112 ∷ [])
      true
      true
      []
      (add_ap (some (104 ∷ [])) (some (112 ∷ [])) true true [])
    ⊎ IsRefused (some (104 ∷ [])) (112 ∷ []) true true
      × (add_ap (some (104 ∷ [])) (some (112 ∷ [])) true true [] ≡ (false, []))
add_ap-outcomes_example = add_ap-outcomes (some (104 ∷ [])) (some (112 ∷ [])) true true []
