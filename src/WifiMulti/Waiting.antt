-- ===== src/WifiMulti/Waiting.antt =====
-- `WiFiMulti::run` ends.
use jedge.Base.{
  ℕ, zero, suc, ◌+◌, ◌-◌, ◌*◌, ◌^◌, ◌≤◌, ◌<◌, ◌≡◌, ◌==◌, leb, sub_size, ◌||◌, List, Option, none,
  some, ℤ, pos, negsuc, arith, refl, Bool-cases, inl, inr,
}
use jedge.WifiMulti.Wifi.{Wifi, Ap, ClockLaws}
use jedge.WifiMulti.ApList.{
  no_ssid_avail, connected, connect_failed, no_best, best_of, networks, wait, connect_best,
  after_scan, Best, keep_known, to_int8, run,
}

module _ {wifi : Wifi} (laws : ClockLaws wifi) where
  open laws use {time, millis_is, delay_least, delay_most}
  open wifi use {Dev, status, millis, delay10}

  -- The wait is over when its time is, if not before.
  wait-total :
      (d0 : Dev) (timeout fuel : ℕ) (d : Dev)
      → timeout < 2 ^ 31
      → time d0 ≤ time d
      → time d ≤ time d0 + timeout + 2 ^ 31
      → 0 < fuel
      → time d0 + timeout < time d + 10 * (fuel - 1)
      → (d' : Dev) × (wait wifi fuel (millis d0) timeout d ≡ some d')
  unfolding wait
  wait-total d0 timeout zero d short above below some_fuel enough = absurd (omega arith)
  wait-total d0 timeout (suc fuel) d short above below some_fuel enough =
      elim (Bool-cases (
        (status d == connected) || ((status d == no_ssid_avail) || (status d == connect_failed)))) [
          | inl ended ↦ (d, rw ended refl)
          | inr waiting ↦ elim (Bool-cases (leb (sub_size (millis d) (millis d0)) timeout)) [
            | inr late ↦ (d, rw waiting (rw late refl))
            | inl early ↦
                let elapsed : sub_size (millis d) (millis d0) ≡ time d - time d0 =
                  omega (arith, millis_is d, millis_is d0) in
                let least = delay_least d in
                let most = delay_most d in
                let in_time : time d ≤ time d0 + timeout = ground (arith, elapsed) in
                let (d', e) =
                  wait-total d0 timeout fuel (delay10 d) short (omega arith) (omega arith)
                    (omega arith) (omega arith) in
                (d', rw waiting (rw early e))
          ]
        ]

  connect_best-total :
      (timeout old : ℕ) (a : Option Ap) (best : Best) (d : Dev)
      → timeout < 2 ^ 31
      → (r : ℕ × Dev) × (connect_best wifi (timeout + 2) timeout old a best d ≡ some r)
  unfolding connect_best
  connect_best-total timeout old none best d short = (_, refl)
  connect_best-total timeout old (some a) best d short =
      let d' = wifi.begin a best.channel best.bssid d in
      let (d'', e) =
        wait-total d' timeout (timeout + 2) d' short (omega arith) (omega arith) (omega arith)
          (omega arith) in
      ((status d'', d''), rw e refl)

  after_scan-total :
      (timeout old : ℕ) (aps : List Ap) (result : ℤ) (d : Dev)
      → timeout < 2 ^ 31
      → (r : ℕ × Dev) × (after_scan wifi (timeout + 2) timeout aps old result d ≡ some r)
  unfolding after_scan
  after_scan-total timeout old aps (negsuc zero) d short = (_, refl)
  after_scan-total timeout old aps (negsuc (suc n)) d short = (_, refl)
  after_scan-total timeout old aps (pos n) d short =
      let best = best_of aps (networks wifi 0 n d) no_best in
      connect_best-total timeout old best.network best (wifi.scan_delete d) short

  -- `run` always returns: for a time limit below 2^31 ms, two more rounds of waiting than the limit
  -- has milliseconds are enough, whatever the scan finds and the connection does.
  pub run-total :
      (timeout : ℕ) (aps : List Ap) (d : Dev)
      → timeout < 2 ^ 31
      → (r : ℕ × Dev) × (run wifi (timeout + 2) timeout aps d ≡ some r)
  unfolding run
  run-total timeout aps d short =
      let d1 = (keep_known wifi aps d).1 in
      let (r, e) =
        after_scan-total timeout (status d1) aps (to_int8 (wifi.scan_networks d1).0)
          (wifi.scan_networks d1).1 short in
      elim (Bool-cases (keep_known wifi aps d).0) [
        | inl kept ↦ ((status d, d), rw kept refl)
        | inr left ↦ (r, rw left e)
      ]
