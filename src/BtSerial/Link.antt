-- ===== src/BtSerial/Link.antt =====
-- What holds of the link whatever the stack reports and whenever it does so.
use jedge.Base.{
  ℕ, ◌≤◌, ◌≡◌, ◌≢◌, ◌==◌, ltb, true, List, [], ◌∷◌, ◌++◌, length, length-append, Option, none, some,
  if_both, not, ◌||◌, arith, inl, inr, Bool-cases,
}
use jedge.BtSerial.Stack.{SppEvent, Act, Stack, Port, rx_queue_size, tx_queue_size, spp_tx_max}
use jedge.BtSerial.Events.{receive, handle_event, spp_cb}

-- A connection has a handle that is not 0.
abbrev pub IsEvent : SppEvent → Type 0
IsEvent (SppEvent.srv_open _ handle) = handle ≢ 0
IsEvent (SppEvent.client_open handle) = handle ≢ 0
IsEvent _ = Unit

abbrev pub IsAct : Act → Type 0
IsAct (Act.event e) = IsEvent e
IsAct _ = Unit

abbrev pub AreActs : List Act → Type 0
AreActs [] = Unit
AreActs (a ∷ acts) = IsAct a × AreActs acts

abbrev pub IsSchedule : List (List Act) → Type 0
IsSchedule [] = Unit
IsSchedule (acts ∷ later) = AreActs acts × IsSchedule later

-- a queue of at most `n`, or none
abbrev pub IsWithin {ℓ} : {A : Type ℓ} → ℕ → Option (List A) → Type 0
IsWithin n none = Unit
IsWithin n (some q) = length q ≤ n

receive_within : (x rx : List ℕ) → length rx ≤ rx_queue_size → length (receive x rx) ≤ rx_queue_size
unfolding receive
receive_within [] rx h = h
receive_within (b ∷ x) rx h = elim (Bool-cases (ltb (length rx) rx_queue_size)) [
  | inl room ↦ rw room (receive_within x (rx ++ b ∷ []) (ground (arith, length-append rx (b ∷ []))))
  | inr full ↦ rw full h
]

received-IsWithin :
    (x : List ℕ) (q : Option (List ℕ))
    → IsWithin rx_queue_size q
    → IsWithin rx_queue_size (elim q [ none ↦ none | some rx ↦ some (receive x rx) ])
received-IsWithin x none h = h
received-IsWithin x (some rx) h = receive_within x rx h

module _ {stack : Stack} where
  abbrev pub IsLink : Port stack → Type 0
  IsLink s =
      (s.disconnected ≡ (s.client == 0))
      × (s.connected ≡ true → s.client ≢ 0)
      × (s.second_connection_attempt ≡ true → s.client ≢ 0)

  abbrev pub IsRoom : Port stack → Type 0
  IsRoom s =
      IsWithin rx_queue_size s.rx_queue
      × IsWithin tx_queue_size s.tx_queue
      × IsSchedule s.schedule
      × (length s.tx_buffer ≡ spp_tx_max)
      × (s.tx_buffer_len ≤ spp_tx_max)

  abbrev pub IsValid : Port stack → Type 0
  IsValid s = IsLink s × IsRoom s

  handle_event-IsLink :
      (e : SppEvent) (s : Port stack) → IsEvent e → IsLink s → IsLink (handle_event e s)
  unfolding handle_event
  handle_event-IsLink SppEvent.init s h v = v
  handle_event-IsLink (SppEvent.srv_open status handle) s h (d, c, r) = ground arith
  handle_event-IsLink (SppEvent.close async status) s h (d, c, r) = ground arith
  handle_event-IsLink (SppEvent.congestion cong) s h v = v
  handle_event-IsLink (SppEvent.written status cong) s h v = v
  handle_event-IsLink (SppEvent.data_ind x) s h v = if_both IsLink s.has_data_callback v v
  handle_event-IsLink (SppEvent.discovery_comp status scn) s h v = if_both IsLink (status == 0) v v
  handle_event-IsLink (SppEvent.client_open handle) s h (d, c, r) = ground arith
  handle_event-IsLink SppEvent.other s h v = v

  handle_event-IsRoom : (e : SppEvent) (s : Port stack) → IsRoom s → IsRoom (handle_event e s)
  unfolding handle_event
  handle_event-IsRoom SppEvent.init s v = v
  handle_event-IsRoom (SppEvent.srv_open status handle) s v =
      if_both IsRoom (not (status == 0)) v
        (if_both IsRoom (s.client == 0) (v.0, v.1, v.2, v.3, omega arith) v)
  handle_event-IsRoom (SppEvent.close async status) s v =
      if_both IsRoom (not (async || (status == 0))) v
        (if_both IsRoom s.second_connection_attempt v v)
  handle_event-IsRoom (SppEvent.congestion cong) s v = v
  handle_event-IsRoom (SppEvent.written status cong) s v = v
  handle_event-IsRoom (SppEvent.data_ind x) s v =
      if_both IsRoom s.has_data_callback v (received-IsWithin x s.rx_queue v.0, v.1, v.2, v.3, v.4)
  handle_event-IsRoom (SppEvent.discovery_comp status scn) s v = if_both IsRoom (status == 0) v v
  handle_event-IsRoom (SppEvent.client_open handle) s v = v
  handle_event-IsRoom SppEvent.other s v = v

  pub spp_cb-IsValid :
      (e : SppEvent) (s : Port stack) → IsEvent e → IsValid s → IsValid (spp_cb e s)
  unfolding spp_cb
  spp_cb-IsValid e s h (l, r) =
      let w : IsValid (handle_event e s) =
        (handle_event-IsLink e s h l, handle_event-IsRoom e s r) in
      if_both IsValid (handle_event e s).has_spp_callback w w
