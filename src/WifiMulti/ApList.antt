-- ===== src/WifiMulti/ApList.antt =====
-- The methods of `WiFiMulti`: `addAP` and `run`.
use jedge.Base.{
  ◌%◌, ℕ, zero, suc, ◌+◌, ◌-◌, ◌^◌, ◌==◌, ltb, leb, if◌then◌else◌, sub_size, Bool, true, false, not,
  ◌&&◌, ◌||◌, List, [], ◌∷◌, ◌++◌, length, Option, none, some, ◌>>=◌, ℤ, pos, negsuc,
}
use jedge.WifiMulti.Wifi.{Wifi, Ap, Network, ltz, same_text}

-- `WL_NO_SSID_AVAIL`, `WL_CONNECTED` and `WL_CONNECT_FAILED`
abbrev pub no_ssid_avail : ℕ
no_ssid_avail = 1

abbrev pub connected : ℕ
connected = 3

abbrev pub connect_failed : ℕ
connect_failed = 4

-- the end of `addAP`, with a name that was copied; `copied` says whether the passphrase is copied too
abbrev pub add_named : List ℕ → Option (List ℕ) → Bool → List Ap → Bool × List Ap
add_named ssid none copied aps = (true, aps ++ (record { ssid = ssid; passphrase = none }) ∷ [])
add_named ssid (some []) copied aps =
    (true, aps ++ (record { ssid = ssid; passphrase = none }) ∷ [])
add_named ssid (some (c ∷ s)) copied aps =
    if copied
    then (true, aps ++ (record { ssid = ssid; passphrase = some (c ∷ s) }) ∷ [])
    else (false, aps)

abbrev pub is_long : Option (List ℕ) → Bool
is_long none = false
is_long (some p) = ltb 63 (length p)

-- `addAP`; the two tests say whether `strdup` has memory for the name and for the passphrase
unfoldable pub add_ap : Option (List ℕ) → Option (List ℕ) → Bool → Bool → List Ap → Bool × List Ap
add_ap none passphrase name_copied copied aps = (false, aps)
add_ap (some ssid) passphrase name_copied copied aps =
    if (length ssid == 0) || ltb 31 (length ssid)
    then (false, aps)
    else if is_long passphrase
    then (false, aps)
    else if not name_copied
    then (false, aps)
    else add_named ssid passphrase copied aps

-- the search of a name in the list
unfoldable pub find_ap : List ℕ → List Ap → Option Ap
find_ap ssid [] = none
find_ap ssid (e ∷ aps) =
    let other = find_ap ssid aps in if same_text ssid e.ssid then some e else other

-- the best network so far, `none` for none
pub record Best : Type 0 where
  pub network : Option Ap
  pub db : ℤ
  pub bssid : List ℕ
  pub channel : ℤ

-- with `INT_MIN`
abbrev pub no_best : Best
no_best = record { network = none; db = negsuc (2 ^ 31 - 1); bssid = []; channel = pos 0 }

abbrev pub has_passphrase : Ap → Bool
has_passphrase e = elim e.passphrase [ none ↦ false | some _ ↦ true ]

-- a round of the loop over the networks that the scan found, with the entry of the list for it
unfoldable pub consider_known : Option Ap → Network → Best → Best
consider_known none f best = best
consider_known (some e) f best =
    if ltz best.db f.rssi && (f.is_open || has_passphrase e)
    then record { network = some e; db = f.rssi; bssid = f.bssid; channel = f.channel }
    else best

unfoldable pub consider : List Ap → Network → Best → Best
consider aps f best = consider_known (find_ap f.ssid aps) f best

unfoldable pub best_of : List Ap → List Network → Best → Best
best_of aps [] best = best
best_of aps (f ∷ fs) best = best_of aps fs (consider aps f best)

-- the conversion of a number to `int8_t`
abbrev pub to_int8 : ℤ → ℤ
to_int8 (pos n) = let m = n % 256 in if ltb m 128 then pos m else negsuc (255 - m)
to_int8 (negsuc n) = let m = n % 256 in if ltb m 128 then negsuc m else pos (255 - m)

module _ (wifi : Wifi) where
  open wifi use {
    Dev, status, ssid, disconnect_from, disconnect, scan_networks, network_info, scan_delete,
    start_scan, begin, millis, delay10,
  }

  -- `n` networks of the scan, from `i` on
  unfoldable pub networks : ℕ → ℕ → Dev → List Network
  networks i zero d = []
  networks i (suc n) d = network_info i d ∷ networks (i + 1) n d

  -- the loop that waits for a connection, on fuel
  unfoldable pub wait : ℕ → ℕ → ℕ → Dev → Option Dev
  wait zero start timeout d = none
  wait (suc fuel) start timeout d =
      let more = wait fuel start timeout (delay10 d) in
      if (status d == connected) || ((status d == no_ssid_avail) || (status d == connect_failed))
      then some d
      else if leb (sub_size (millis d) start) timeout
      then more
      else some d

  -- the end of `run`, with the status before the scan
  unfoldable pub connect_best : ℕ → ℕ → ℕ → Option Ap → Best → Dev → Option (ℕ × Dev)
  connect_best fuel timeout old none best d = some (old, d)
  connect_best fuel timeout old (some ap) best d =
      let d' = begin ap best.channel best.bssid d in
      wait fuel (millis d') timeout d' >>= λ d''. some (status d'', d'')

  -- the part of `run` after a scan, on its result, an `int8_t`
  unfoldable pub after_scan : ℕ → ℕ → List Ap → ℕ → ℤ → Dev → Option (ℕ × Dev)
  after_scan fuel timeout aps old (negsuc zero) d = some (no_ssid_avail, d)
  after_scan fuel timeout aps old (negsuc (suc _)) d = some (old, start_scan (disconnect d))
  after_scan fuel timeout aps old (pos n) d =
      let best = best_of aps (networks 0 n d) no_best in
      connect_best fuel timeout old best.network best (scan_delete d)

  -- the part of `run` before a scan: a connection to a network that is not in the list is given up
  unfoldable pub keep_known : List Ap → Dev → Bool × Dev
  keep_known aps d =
      let d' = delay10 (disconnect_from d) in
      if not (status d == connected)
      then (false, d)
      else elim (find_ap (ssid d) aps) [ none ↦ (false, d') | some _ ↦ (true, d) ]

  unfoldable pub run : ℕ → ℕ → List Ap → Dev → Option (ℕ × Dev)
  run fuel timeout aps d =
      let (kept, d1) = keep_known aps d in
      let (result, d2) = scan_networks d1 in
      if kept
      then some (status d, d)
      else after_scan fuel timeout aps (status d1) (to_int8 result) d2
