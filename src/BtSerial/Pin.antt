-- ===== src/BtSerial/Pin.antt =====
-- The pin code for legacy pairing: `setPin`, `btSetPin` and `isReady` of
-- BluetoothSerial/src/BluetoothSerial.cpp, with the reads `available`, `peek` and `hasClient`.
use jedge.Base.{
  ℕ, ◌==◌, ltb, leb, if◌then◌else◌, Bool, true, false, not, ◌&&◌, List, ◌∷◌, length, set, memcpy,
  Option, none, some, ℤ, pos, negsuc,
}
use jedge.BtSerial.Stack.{Stack, Port}
use jedge.BtSerial.Sending.{wait}

-- `ESP_BT_PIN_CODE_LEN`, the size of `_pin_code`
abbrev pub pin_code_len : ℕ
pin_code_len = 16

-- The port with `_pin_code`, `_pin_len` and `_isPinSet`.
pub record Pairing (stack : Stack) : Type 0 where
  pub port : Port stack
  pub pin_code : List ℕ
  pub pin_len : ℕ
  pub is_pin_set : Bool

module _ {stack : Stack} where
  open stack use {bt_started, gap_set_pin}

  -- `available()`, `peek()` and `hasClient()`
  unfoldable pub available : Port stack → ℕ
  available s = elim s.rx_queue [ none ↦ 0 | some rx ↦ length rx ]

  unfoldable pub peek : Port stack → ℤ
  peek s = elim s.rx_queue [ some (b ∷ _) ↦ pos b | _ ↦ negsuc 0 ]

  unfoldable pub has_client : Port stack → Bool
  has_client s = ltb 0 s.client

  -- `isReady`
  unfoldable pub is_ready : Bool → Port stack → Bool × Port stack
  is_ready check_master s =
      let s' = wait s in
      if check_master && not s.is_master
      then (false, s)
      else if not (bt_started s.dev)
      then (false, s)
      else (s'.running, s')

  -- `btSetPin`; a pin of a length other than 0 is of fixed type
  unfoldable pub bt_set_pin : Pairing stack → Bool × Pairing stack
  bt_set_pin p =
      let is_fixed = not (p.pin_len == 0) in
      let (err, d) = gap_set_pin is_fixed p.pin_len p.pin_code p.port.dev in
      if p.is_pin_set
      then (err == 0, record p { is_pin_set = is_fixed; port = record p.port { dev = d } })
      else (false, p)

  -- `setPin` from the terminator on; `none` for a write past the end of `_pin_code`
  unfoldable pub finish_pin : List ℕ → ℕ → Pairing stack → Option (Pairing stack)
  finish_pin code len p =
      let (ready, s) = is_ready false p.port in
      let p1 : Pairing stack = record p {
        port = s;
        pin_code = set code len 0;
        pin_len = len;
        is_pin_set = true;
      } in
      if ltb len pin_code_len then some (if ready then (bt_set_pin p1).1 else p1) else none

  -- `setPin`, which returns true whenever it returns
  unfoldable pub set_pin : Option (List ℕ) → Pairing stack → Option (Pairing stack)
  set_pin (some (c ∷ pin)) p =
      if leb (length (c ∷ pin)) pin_code_len
      then finish_pin (memcpy p.pin_code 0 (c ∷ pin)) (length (c ∷ pin)) p
      else none
  set_pin _ p = if p.is_pin_set then finish_pin p.pin_code 0 p else some p
