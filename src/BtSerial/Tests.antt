-- ===== src/BtSerial/Tests.antt =====
-- The serial port with a stack that takes every write, and the theorems there.
use jedge.Base.{
  ℕ, ◌≤◌, ◌<◌, ◌≡◌, true, false, List, [], ◌∷◌, ◌++◌, replicate, none, some, arith, refl, ◌⊎◌,
  Lossy,
}
use jedge.BtSerial.Stack.{SppEvent, Stack, StackLaws, Port}
use jedge.BtSerial.Events.{receive, handle_event, spp_cb}
use jedge.BtSerial.Sending.{tx_round}
use jedge.BtSerial.Link.{IsValid}
use jedge.BtSerial.Steps.{Reach, Step, Reach-IsValid}
use jedge.BtSerial.Stream.{stream}
use jedge.BtSerial.Delivery.{tx_round-in_order}
use jedge.BtSerial.Lossless.{acknowledged, IsFree, tx_round-lossless}
use jedge.BtSerial.Received.{IsRefusing, receive-take, handle_event-refused}
use jedge.BtSerial.Pin.{Pairing, pin_code_len, set_pin}
use jedge.BtSerial.Pins.{HasPin, set_pin-outcomes}

abbrev test_stack : Stack
test_stack = record {
  Dev = List ℕ;
  spp_write = λ _ x d. (0, d ++ x);
  spp_disconnect = λ _ d. (0, d);
  spp_start_srv = λ d. d;
  spp_start_discovery = λ _ d. (0, d);
  spp_connect = λ _ _ d. d;
  gap_set_scan_mode = λ d. d;
  gap_start_discovery = λ d. (0, d);
  gap_set_pin = λ _ _ _ d. (0, d);
  bt_started = λ _. true;
  data_callback = λ _ d. d;
  spp_callback = λ _ d. d;
}

test_laws : StackLaws test_stack
test_laws = record {
  sent = λ d. d;
  sent-spp_write = λ _ _ d. refl;
  sent-spp_disconnect = λ _ d. refl;
  sent-spp_start_srv = λ d. refl;
  sent-spp_connect = λ _ _ d. refl;
  sent-gap_set_scan_mode = λ d. refl;
  sent-data_callback = λ _ d. refl;
  sent-spp_callback = λ _ d. refl;
}

-- a connected port with a packet of three bytes in the queue
abbrev ready : Port test_stack
ready = record {
  client = 7;
  running = true;
  connected = true;
  congested = true;
  disconnected = false;
  second_connection_attempt = false;
  is_master = false;
  peer_bd_addr = [];
  has_data_callback = false;
  has_spp_callback = false;
  rx_queue = some [];
  tx_queue = some ((1 ∷ 2 ∷ 3 ∷ []) ∷ []);
  tx_done = false;
  tx_buffer = replicate 330 0;
  tx_buffer_len = 0;
  schedule =
      [] ∷ acknowledged ∷ [] ∷ acknowledged ∷ [] ∷ acknowledged ∷ [] ∷ acknowledged ∷ []
      ∷ acknowledged ∷ [];
  dev = [];
}

ready-IsValid : IsValid ready
ready-IsValid = (
  (refl, (λ _. omega arith), (λ e. absurd cc)),
  (omega arith, omega arith, omega arith, refl, omega arith),
)

tx_round-in_order_example :
    (t : Port test_stack) × (tx_round ready ≡ some t)
    × Lossy (stream test_laws [] t) (1 ∷ 2 ∷ 3 ∷ [])
unfolding test_laws
tx_round-in_order_example = tx_round-in_order test_laws ready ready-IsValid

ready-IsFree : IsFree 5 ready
ready-IsFree = ((λ e. omega arith), refl, (_, refl, (_, refl, (_, refl, (_, refl, (_, refl, tt))))))

tx_round-lossless_example :
    (t : Port test_stack) × (tx_round ready ≡ some t) × (stream test_laws [] t ≡ 1 ∷ 2 ∷ 3 ∷ [])
unfolding test_laws
tx_round-lossless_example =
    tx_round-lossless test_laws (λ c x d. refl) ready ready-IsValid ready-IsFree

receive-take_example : receive (4 ∷ 5 ∷ []) (3 ∷ []) ≡ 3 ∷ 4 ∷ 5 ∷ []
receive-take_example = receive-take (4 ∷ 5 ∷ []) (3 ∷ []) (omega arith)

handle_event-refused_example :
    let t = handle_event (SppEvent.srv_open 0 8) ready in
    let t' = handle_event (SppEvent.close true 0) t in
    IsRefusing 8 ready t
    × ((true ≡ false) × (t' ≡ t)
        ⊎ (true ≡ true)
          × IsRefusing 8 ready t'
          × (t'.connected ≡ false)
          × (t'.second_connection_attempt ≡ false))
handle_event-refused_example = handle_event-refused 8 true 0 ready (λ e. omega arith)

abbrev unpaired : Pairing test_stack
unpaired = record { port = ready; pin_code = replicate 16 0; pin_len = 0; is_pin_set = false }

set_pin-outcomes_example :
    (2 < pin_code_len)
      × ((t : Pairing test_stack) × (set_pin (some (49 ∷ 50 ∷ [])) unpaired ≡ some t)
          × HasPin (49 ∷ 50 ∷ []) t)
    ⊎ (pin_code_len ≤ 2) × (set_pin (some (49 ∷ 50 ∷ [])) unpaired ≡ none)
set_pin-outcomes_example = set_pin-outcomes 49 (50 ∷ []) unpaired refl

-- the port after the stack has reported the end of the connection
abbrev closed : Port test_stack
closed = record ready { client = 0; connected = false; disconnected = true }

closed-Reach : Reach ready closed
unfolding spp_cb handle_event
closed-Reach = Reach.next Reach.here (Step.event (SppEvent.close true 0) tt refl)

Reach-IsValid_example : IsValid closed
Reach-IsValid_example = Reach-IsValid {s = ready} {t = closed} ready-IsValid closed-Reach
