-- ===== src/BtSerial/Events.antt =====
-- `esp_spp_cb` of BluetoothSerial/src/BluetoothSerial.cpp, the handler of the serial port's events.
use jedge.Base.{
  ℕ, ◌==◌, ltb, if◌then◌else◌, Bool, true, false, not, ◌&&◌, ◌||◌, List, [], ◌∷◌, ◌++◌, length,
  none, some,
}
use jedge.BtSerial.Stack.{SppEvent, Stack, Port, rx_queue_size}

-- the loop of `ESP_SPP_DATA_IND_EVT`: the bytes go into the queue until it is full
unfoldable pub receive : List ℕ → List ℕ → List ℕ
receive [] rx = rx
receive (b ∷ bytes_in) rx =
    let rest = receive bytes_in (rx ++ b ∷ []) in if ltb (length rx) rx_queue_size then rest else rx

module _ {stack : Stack} where
  open stack use {
    Dev, spp_disconnect, spp_start_srv, spp_connect, gap_set_scan_mode, data_callback, spp_callback,
  }

  -- `ESP_SPP_INIT_EVT`
  abbrev pub on_init : Port stack → Port stack
  on_init s =
      let d = gap_set_scan_mode s.dev in
      record s { dev = if s.is_master then d else spp_start_srv d; running = true }

  -- `ESP_SPP_SRV_OPEN_EVT`
  abbrev pub on_srv_open : ℕ → ℕ → Port stack → Port stack
  on_srv_open status handle s =
      let (_, d) = spp_disconnect handle s.dev in
      if not (status == 0)
      then s
      else if s.client == 0
      then record s { client = handle; tx_buffer_len = 0; disconnected = false; connected = true }
      else record s {
        second_connection_attempt = true;
        dev = d;
        disconnected = false;
        connected = true;
      }

  -- `ESP_SPP_CLOSE_EVT`
  abbrev pub on_close : Bool → ℕ → Port stack → Port stack
  on_close async status s =
      if not (async || (status == 0))
      then s
      else if s.second_connection_attempt
      then record s { second_connection_attempt = false; connected = false }
      else record s { client = 0; disconnected = true; congested = true; connected = false }

  -- `ESP_SPP_WRITE_EVT`
  abbrev pub on_write : ℕ → Bool → Port stack → Port stack
  on_write status cong s = record s {
    congested = if (status == 0) && cong then false else s.congested;
    tx_done = true;
  }

  -- `ESP_SPP_DATA_IND_EVT`
  abbrev pub on_data : List ℕ → Port stack → Port stack
  on_data bytes_in s =
      if s.has_data_callback then record s { dev = data_callback bytes_in s.dev } else record s {
        rx_queue = elim s.rx_queue [ none ↦ none | some rx ↦ some (receive bytes_in rx) ];
      }

  -- `ESP_SPP_OPEN_EVT`
  abbrev pub on_open : ℕ → Port stack → Port stack
  on_open handle s =
      let (_, d) = spp_disconnect handle s.dev in
      let first = s.client == 0 in
      record s {
        client = if first then handle else s.client;
        second_connection_attempt = if first then s.second_connection_attempt else true;
        dev = if first then s.dev else d;
        disconnected = false;
        connected = true;
        congested = true;
      }

  -- the `switch` of `esp_spp_cb`
  unfoldable pub handle_event : SppEvent → Port stack → Port stack
  handle_event SppEvent.init s = on_init s
  handle_event (SppEvent.srv_open status handle) s = on_srv_open status handle s
  handle_event (SppEvent.close async status) s = on_close async status s
  handle_event (SppEvent.congestion cong) s = record s { congested = not cong }
  handle_event (SppEvent.written status cong) s = on_write status cong s
  handle_event (SppEvent.data_ind bytes_in) s = on_data bytes_in s
  handle_event (SppEvent.discovery_comp status scn) s =
      if status == 0 then record s { dev = spp_connect scn s.peer_bd_addr s.dev } else s
  handle_event (SppEvent.client_open handle) s = on_open handle s
  handle_event SppEvent.other s = s

  unfoldable pub spp_cb : SppEvent → Port stack → Port stack
  spp_cb e s =
      let s' = handle_event e s in
      if s'.has_spp_callback then record s' { dev = spp_callback e s'.dev } else s'
