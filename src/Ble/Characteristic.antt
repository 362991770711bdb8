-- ===== src/Ble/Characteristic.antt =====
-- `BLECharacteristic` of Essential Libraries/BLE/src/BLECharacteristic.cpp: its value, and the events
-- of the GATT server that read and write it.
use jedge.Base.{
  ℕ, ◌+◌, ◌-◌, ◌%◌, ◌^◌, ◌==◌, ltb, leb, sub_size, add_size, if◌then◌else◌, Bool, true, false, not,
  ◌&&◌, ◌||◌, List, length, take, drop, Option, none, some, ◌>>=◌,
}
use jedge.Ble.Value.{Value, add_part, cancel, commit, set_value, set_read_offset}

-- `esp_gatt_rsp_t`, without the bytes past `len`
pub record Response : Type 0 where
  pub bytes_out : List ℕ
  pub len : ℕ
  pub offset : ℕ
  pub handle : ℕ

-- `BLECharacteristicCallbacks::Status`
pub data Status : Type 0 where
  success_indicate : Status
  success_notify : Status
  error_indicate_disabled : Status
  error_notify_disabled : Status
  error_gatt : Status
  error_no_client : Status
  error_indicate_timeout : Status
  error_indicate_failure : Status

-- ESP-IDF, and the callbacks of the sketch. A callback may set the characteristic's value.
pub record Gatts : Type 1 where
  pub Dev : Type 0
  -- `esp_ble_gatts_send_response(.., conn_id, trans_id, ESP_GATT_OK, rsp)`
  pub send_response : ℕ → ℕ → Option Response → Dev → ℕ × Dev
  pub on_write : List ℕ → Dev → Option (List ℕ) × Dev
  pub on_read : List ℕ → Dev → Option (List ℕ) × Dev
  pub on_notify : List ℕ → Dev → Option (List ℕ) × Dev
  pub on_status : Status → ℕ → List ℕ → Dev → Option (List ℕ) × Dev
  -- `esp_ble_gatts_send_indicate(.., conn_id, handle, value, need_confirm)`
  pub send_indicate : ℕ → ℕ → List ℕ → Bool → Dev → ℕ × Dev
  -- `m_semaphoreConfEvt`: `take`, which returns when it is free, `give`, and the wait for the
  -- confirmation of an indication: its code, or `none` after the time limit
  pub take_confirm : Dev → Dev
  pub give_confirm : Dev → Dev
  pub timed_wait : Dev → Option ℕ × Dev

-- `ESP_GATT_MAX_ATTR_LEN`, which is the size of a response too
abbrev pub max_attr_len : ℕ
max_attr_len = 600

-- the `memcpy` of `len` bytes of the value from `offset` on into a response; `none` past the end of
-- either
unfoldable pub copy_out : ℕ → ℕ → List ℕ → Option (List ℕ)
copy_out offset len x =
    if leb (offset + len) (length x) && leb len max_attr_len
    then some (take len (drop offset x))
    else none

-- a response of `ESP_GATTS_READ_EVT` with `len` bytes of `x`, and the characteristic's value after it
abbrev pub reply : ℕ → ℕ → ℕ → List ℕ → Value → Option (Response × Value)
reply handle offset len x v = copy_out offset len x >>= λ y.
    some (record { bytes_out = y; len = len; offset = offset; handle = handle }, v)

-- `is_long`, with the `uint16_t` fields of the response
unfoldable pub read_long : ℕ → ℕ → Value → Option (Response × Value)
read_long handle max_offset v =
    let left = sub_size (length v.value) v.read_offset in
    if ltb left max_offset
    then reply handle v.read_offset (left % 2 ^ 16) v.value (set_read_offset 0 v)
    else reply handle v.read_offset max_offset v.value
        (set_read_offset (v.read_offset + max_offset) v)

-- a first read
unfoldable pub read_first : ℕ → ℕ → Value → Option (Response × Value)
read_first handle max_offset v =
    let n = length v.value in
    if ltb max_offset (add_size n 1)
    then reply handle 0 max_offset v.value (set_read_offset max_offset v)
    else reply handle 0 (n % 2 ^ 16) v.value v

-- `uint16_t maxOffset`, from the peer's MTU
abbrev pub max_offset : ℕ → ℕ
max_offset mtu = (mtu + 2 ^ 16 - 1) % 2 ^ 16

pub record Characteristic (gatts : Gatts) : Type 0 where
  pub handle : ℕ
  pub value : Value
  pub write_evt : Bool
  pub dev : gatts.Dev

module _ {gatts : Gatts} where
  open gatts use {Dev, send_response, on_write, on_read}

  -- `setValue(data, length)`
  unfoldable pub set_bytes : List ℕ → Characteristic gatts → Characteristic gatts
  set_bytes x c =
      if ltb max_attr_len (length x) then c else record c { value = set_value x c.value }

  -- a callback's outcome
  abbrev pub called : Option (List ℕ) × Dev → Characteristic gatts → Characteristic gatts
  called (none, d) c = record c { dev = d }
  called (some x, d) c = set_bytes x (record c { dev = d })

  abbrev pub respond : ℕ → ℕ → Option Response → Characteristic gatts → Characteristic gatts
  respond conn trans r c = record c { dev = (send_response conn trans r c.dev).1 }

  -- `ESP_GATTS_EXEC_WRITE_EVT`; the flag says whether to execute or to cancel
  unfoldable pub exec_write_event : ℕ → ℕ → Bool → Characteristic gatts → Characteristic gatts
  exec_write_event conn trans exec c =
      let c1 : Characteristic gatts = record c { write_evt = false } in
      let committed : Characteristic gatts = record c1 { value = commit c.value } in
      let done =
        if exec
        then called (on_write committed.value.value c.dev) committed
        else record c1 { value = cancel c.value } in
      if c.write_evt then respond conn trans none done else c

  -- `ESP_GATTS_WRITE_EVT`; the response repeats the request
  unfoldable pub write_event :
      (conn trans handle offset : ℕ) (need_rsp is_prep : Bool)
      → List ℕ
      → Characteristic gatts
      → Characteristic gatts
  write_event conn trans handle offset need_rsp is_prep x c =
      let c1 : Characteristic gatts =
        if is_prep
        then record c { value = add_part x c.value; write_evt = true }
        else set_bytes x c in
      let rsp : Response = record {
        bytes_out = x;
        len = length x;
        offset = offset;
        handle = c.handle;
      } in
      let c2 = if need_rsp then respond conn trans (some rsp) c1 else c1 in
      if handle == c.handle
      then if is_prep then c2 else called (on_write c2.value.value c2.dev) c2
      else c

  -- `ESP_GATTS_READ_EVT` with the response that it sends; `none` for a copy out of bounds
  unfoldable pub read_event :
      (mtu conn trans handle : ℕ) (is_long need_rsp : Bool)
      → Characteristic gatts
      → Option (Option Response × Characteristic gatts)
  read_event mtu conn trans handle is_long need_rsp c =
      let c1 = if is_long then c else called (on_read c.value.value c.dev) c in
      let m = max_offset mtu in
      let answer = if is_long then read_long handle m c1.value else read_first handle m c1.value in
      if not (handle == c.handle) || not need_rsp
      then some (none, c)
      else answer >>= λ r.
          some (some r.0, respond conn trans (some r.0) (record c1 { value = r.1 }))
