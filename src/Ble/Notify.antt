-- ===== src/Ble/Notify.antt =====
-- `BLECharacteristic::notify` and `indicate` of Essential Libraries/BLE/src/BLECharacteristic.cpp.
use jedge.Base.{ℕ, ◌==◌, if◌then◌else◌, Bool, true, false, not, List, [], ◌∷◌, Option, none, some}
use jedge.Ble.Characteristic.{Status, Gatts, Characteristic, called}

-- what `notify` reads of the `BLE2902` descriptor
pub record Client2902 : Type 0 where
  pub notifications : Bool
  pub indications : Bool

-- a report to `onStatus`
abbrev pub Report : Type 0
Report = Status × ℕ

-- the status of an indication, from its confirmation
abbrev pub confirmed : Option ℕ → Report
confirmed none = (Status.error_indicate_timeout, 0)
confirmed (some code) =
    if code == 0 then (Status.success_indicate, code) else (Status.error_indicate_failure, code)

-- whether the descriptor, if there is one, allows the send
abbrev pub allows : Bool → Option Client2902 → Bool
allows is_notification none = true
allows is_notification (some p2902) =
    if is_notification then p2902.notifications else p2902.indications

module _ {gatts : Gatts} where
  open gatts use {Dev, on_notify, on_status, send_indicate, take_confirm, give_confirm, timed_wait}

  -- the send to one peer: whether the loop goes on, the status, and the stack after it
  unfoldable pub notify_peer : Bool → ℕ → Characteristic gatts → Bool × Report × Dev
  notify_peer is_notification conn c =
      let d0 = if is_notification then c.dev else take_confirm c.dev in
      let (err, d) = send_indicate conn c.handle c.value.value (not is_notification) d0 in
      let (answer, d') = timed_wait d in
      if not (err == 0)
      then (false, (Status.error_gatt, err), give_confirm d)
      else if is_notification
      then (true, (Status.success_notify, 0), d)
      else (true, confirmed answer, d')

  abbrev pub report : Report → Characteristic gatts → Characteristic gatts
  report (status, code) c = called (on_status status code c.value.value c.dev) c

  -- the loop over the peers, with the reports that it makes
  unfoldable pub notify_peers :
      Bool → List ℕ → Characteristic gatts → List Report × Characteristic gatts
  notify_peers is_notification [] c = ([], c)
  notify_peers is_notification (conn ∷ peers) c =
      let (more, r, d) = notify_peer is_notification conn c in
      let c1 = report r (record c { dev = d }) in
      let (rs, c2) = notify_peers is_notification peers c1 in
      if more then (r ∷ rs, c2) else (r ∷ [], c1)

  -- `notify(is_notification)`, with the server's count of clients and its peers
  unfoldable pub notify :
      Bool
      → ℕ
      → List ℕ
      → Option Client2902
      → Characteristic gatts
      → List Report × Characteristic gatts
  notify is_notification connected_count peers p2902 c =
      let c1 = called (on_notify c.value.value c.dev) c in
      let no_client : Report = (Status.error_no_client, 0) in
      let disabled : Report = (
        if is_notification then Status.error_notify_disabled else Status.error_indicate_disabled,
        0,
      ) in
      if connected_count == 0
      then (no_client ∷ [], report no_client c1)
      else if not (allows is_notification p2902)
      then (disabled ∷ [], report disabled c1)
      else notify_peers is_notification peers c1

  -- `indicate()`
  abbrev pub indicate :
      ℕ → List ℕ → Option Client2902 → Characteristic gatts → List Report × Characteristic gatts
  indicate connected_count peers p2902 c = notify false connected_count peers p2902 c
