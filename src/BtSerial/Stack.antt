-- ===== src/BtSerial/Stack.antt =====
-- What BluetoothSerial/src/BluetoothSerial.cpp calls (the Bluetooth stack, the callbacks of the
-- sketch), the events of the serial port profile, and the file's global variables.
use jedge.Base.{ℕ, ◌≡◌, ◌==◌, if◌then◌else◌, Bool, List, ◌++◌, Option}

-- `esp_spp_cb_event_t` with what `esp_spp_cb` reads of its parameter
pub data SppEvent : Type 0 where
  init : SppEvent
  srv_open : (status handle : ℕ) → SppEvent
  close : (async : Bool) (status : ℕ) → SppEvent
  congestion : (cong : Bool) → SppEvent
  written : (status : ℕ) (cong : Bool) → SppEvent
  data_ind : (bytes_in : List ℕ) → SppEvent
  discovery_comp : (status scn : ℕ) → SppEvent
  client_open : (handle : ℕ) → SppEvent
  other : SppEvent

-- What another task does while this one waits: the stack calls back with an event, the sketch writes
-- (the test says whether `malloc` succeeds), or it reads a byte.
pub data Act : Type 0 where
  event : SppEvent → Act
  call_write : List ℕ → Bool → Act
  call_read : Act

-- The functions of ESP-IDF and the callbacks of the sketch; an error is 0 for `ESP_OK`.
pub record Stack : Type 1 where
  pub Dev : Type 0
  -- `esp_spp_write(client, len, data)`
  pub spp_write : ℕ → List ℕ → Dev → ℕ × Dev
  pub spp_disconnect : ℕ → Dev → ℕ × Dev
  pub spp_start_srv : Dev → Dev
  pub spp_start_discovery : List ℕ → Dev → ℕ × Dev
  pub spp_connect : ℕ → List ℕ → Dev → Dev
  pub gap_set_scan_mode : Dev → Dev
  pub gap_start_discovery : Dev → ℕ × Dev
  pub gap_set_pin : (is_fixed : Bool) → ℕ → List ℕ → Dev → ℕ × Dev
  pub bt_started : Dev → Bool
  -- `custom_data_callback` and `custom_spp_callback`
  pub data_callback : List ℕ → Dev → Dev
  pub spp_callback : SppEvent → Dev → Dev

-- The documented behaviour of the stack, with the bytes that it has taken to send: a write without an
-- error takes all of its bytes, and nothing else takes any.
pub record StackLaws (stack : Stack) : Type 0 where
  pub sent : stack.Dev → List ℕ
  pub sent-spp_write :
      (client : ℕ) (bytes_out : List ℕ) (d : stack.Dev)
      → sent (stack.spp_write client bytes_out d).1
        ≡ (if (stack.spp_write client bytes_out d).0 == 0 then sent d ++ bytes_out else sent d)
  pub sent-spp_disconnect : (c : ℕ) (d : stack.Dev) → sent (stack.spp_disconnect c d).1 ≡ sent d
  pub sent-spp_start_srv : (d : stack.Dev) → sent (stack.spp_start_srv d) ≡ sent d
  pub sent-spp_connect :
      (scn : ℕ) (a : List ℕ) (d : stack.Dev) → sent (stack.spp_connect scn a d) ≡ sent d
  pub sent-gap_set_scan_mode : (d : stack.Dev) → sent (stack.gap_set_scan_mode d) ≡ sent d
  pub sent-data_callback : (x : List ℕ) (d : stack.Dev) → sent (stack.data_callback x d) ≡ sent d
  pub sent-spp_callback : (e : SppEvent) (d : stack.Dev) → sent (stack.spp_callback e d) ≡ sent d

abbrev pub rx_queue_size : ℕ
rx_queue_size = 512

abbrev pub tx_queue_size : ℕ
tx_queue_size = 32

abbrev pub spp_tx_max : ℕ
spp_tx_max = 330

-- The global variables of the link. Of the event group, the four bits; `congested` is set while the
-- link is free. A queue is `none` for NULL.
pub record Port (stack : Stack) : Type 0 where
  pub client : ℕ
  pub running : Bool
  pub connected : Bool
  pub congested : Bool
  pub disconnected : Bool
  pub second_connection_attempt : Bool
  pub is_master : Bool
  pub peer_bd_addr : List ℕ
  pub has_data_callback : Bool
  pub has_spp_callback : Bool
  pub rx_queue : Option (List ℕ)
  pub tx_queue : Option (List (List ℕ))
  pub tx_done : Bool
  pub tx_buffer : List ℕ
  pub tx_buffer_len : ℕ
  -- what other tasks do during the next waits of this one, one list for each wait
  pub schedule : List (List Act)
  pub dev : stack.Dev
