-- ===== src/BtSerial/Waits.antt =====
-- What holds of the link after the waits of the sending task, in which other tasks run.
use jedge.Base.{
  ℕ, ◌≡◌, ◌==◌, ltb, Bool, List, [], ◌∷◌, length, length-append, Option, none, some, if_both, not,
  ◌||◌, arith, refl, ◌∙◌, ◌⊎◌, inl, inr, Bool-cases,
}
use jedge.BtSerial.Stack.{SppEvent, Act, Stack, Port, rx_queue_size, tx_queue_size}
use jedge.BtSerial.Events.{handle_event, spp_cb}
use jedge.BtSerial.Sending.{
  queue_send, queued, spp_queue_packet, write, read_from, act, run_acts, wait_for, wait,
}
use jedge.BtSerial.Link.{IsAct, AreActs, IsSchedule, IsWithin, IsValid, spp_cb-IsValid}

module _ {stack : Stack} where
  queued-IsValid :
      (x : List ℕ) (q : Option (List (List ℕ))) (s : Port stack)
      → IsWithin tx_queue_size q
      → IsValid s
      → IsValid (queued (queue_send x q) s).1
  queued-IsValid x none s h v = v
  queued-IsValid x (some q) s h (l, (rx, tx, sch, buf, n)) =
      elim (Bool-cases (ltb (length q) tx_queue_size)) [
        | inr full ↦ rw full (l, (rx, tx, sch, buf, n))
        | inl room ↦ rw room (l, (rx, ground (arith, length-append q (x ∷ [])), sch, buf, n))
      ]

  pub write-IsValid : (x : List ℕ) (a : Bool) (s : Port stack) → IsValid s → IsValid (write x a s).1
  unfolding write spp_queue_packet
  write-IsValid x a s v = if_both P (s.client == 0) v (if_both P (spp_queue_packet x a s).0 w w)
    where
      P : ℕ × Port stack → Type 0
      P r = IsValid r.1

      Q : Bool × Port stack → Type 0
      Q r = IsValid r.1

      w : IsValid (spp_queue_packet x a s).1
      w = if_both Q (length x == 0) v (if_both Q (not a) v (queued-IsValid x s.tx_queue s v.1.1 v))

  pub read_from-IsValid :
      (q : Option (List ℕ)) (s : Port stack)
      → IsWithin rx_queue_size q
      → IsValid s
      → IsValid (read_from q s).1
  read_from-IsValid none s h v = v
  read_from-IsValid (some []) s h v = v
  read_from-IsValid (some (b ∷ rx)) s h v = (v.0, (omega arith, v.1.1, v.1.2, v.1.3, v.1.4))

  pub act-IsValid : (a : Act) (s : Port stack) → IsAct a → IsValid s → IsValid (act a s)
  unfolding act
  act-IsValid (Act.event e) s h v = spp_cb-IsValid e s h v
  act-IsValid (Act.call_write x a) s h v = write-IsValid x a s v
  act-IsValid Act.call_read s h v = read_from-IsValid s.rx_queue s v.1.0 v

  run_acts-IsValid :
      (acts : List Act) (s : Port stack) → AreActs acts → IsValid s → IsValid (run_acts acts s)
  unfolding run_acts
  run_acts-IsValid [] s h v = v
  run_acts-IsValid (a ∷ acts) s h v = run_acts-IsValid acts (act a s) h.1 (act-IsValid a s h.0 v)

  wait_for-IsValid :
      (w : List (List Act)) (s : Port stack) → IsSchedule w → IsValid s → IsValid (wait_for w s)
  unfolding wait_for
  wait_for-IsValid [] s h v = v
  wait_for-IsValid (acts ∷ later) s h (l, (rx, tx, sch, buf, n)) =
      run_acts-IsValid acts (record s { schedule = later }) h.0 (l, (rx, tx, h.1, buf, n))

  pub wait-IsValid : (s : Port stack) → IsValid s → IsValid (wait s)
  wait-IsValid s v = wait_for-IsValid s.schedule s v.1.2 v

  -- The buffer is as it was, or is empty.
  abbrev pub Keeps : Port stack → Port stack → Type 0
  Keeps s t =
      (t.tx_buffer ≡ s.tx_buffer) × ((t.tx_buffer_len ≡ s.tx_buffer_len) ⊎ (t.tx_buffer_len ≡ 0))

  same : (s : Port stack) → Keeps s s
  same s = (refl, inl refl)

  handle_event-Keeps : (e : SppEvent) (s : Port stack) → Keeps s (handle_event e s)
  unfolding handle_event
  handle_event-Keeps SppEvent.init s = same s
  handle_event-Keeps (SppEvent.srv_open status handle) s =
      if_both (Keeps s) (not (status == 0)) (same s)
        (if_both (Keeps s) (s.client == 0) (refl, inr refl) (same s))
  handle_event-Keeps (SppEvent.close async status) s =
      if_both (Keeps s) (not (async || (status == 0))) (same s)
        (if_both (Keeps s) s.second_connection_attempt (same s) (same s))
  handle_event-Keeps (SppEvent.congestion cong) s = same s
  handle_event-Keeps (SppEvent.written status cong) s = same s
  handle_event-Keeps (SppEvent.data_ind x) s =
      if_both (Keeps s) s.has_data_callback (same s) (same s)
  handle_event-Keeps (SppEvent.discovery_comp status scn) s =
      if_both (Keeps s) (status == 0) (same s) (same s)
  handle_event-Keeps (SppEvent.client_open handle) s = same s
  handle_event-Keeps SppEvent.other s = same s

  queued-Keeps : (q : Option (List (List ℕ))) (s : Port stack) → Keeps s (queued q s).1
  queued-Keeps none s = same s
  queued-Keeps (some q) s = same s

  read_from-Keeps : (q : Option (List ℕ)) (s : Port stack) → Keeps s (read_from q s).1
  read_from-Keeps none s = same s
  read_from-Keeps (some []) s = same s
  read_from-Keeps (some (b ∷ rx)) s = same s

  act-Keeps : (a : Act) (s : Port stack) → Keeps s (act a s)
  unfolding act spp_cb write spp_queue_packet
  act-Keeps (Act.event e) s =
      let k = handle_event-Keeps e s in if_both (Keeps s) (handle_event e s).has_spp_callback k k
  act-Keeps (Act.call_write x a) s =
      let P : ℕ × Port stack → Type 0 = λ r. Keeps s r.1 in
      let Q : Bool × Port stack → Type 0 = λ r. Keeps s r.1 in
      let w =
        if_both Q (length x == 0) (same s)
          (if_both Q (not a) (same s) (queued-Keeps (queue_send x s.tx_queue) s)) in
      if_both P (s.client == 0) (same s) (if_both P (spp_queue_packet x a s).0 w w)
  act-Keeps Act.call_read s = read_from-Keeps s.rx_queue s

  Keeps-trans : (s t u : Port stack) → Keeps s t → Keeps t u → Keeps s u
  Keeps-trans s t u (b, inl l) (b', inl l') = (b' ∙ b, inl (l' ∙ l))
  Keeps-trans s t u (b, inr l) (b', inl l') = (b' ∙ b, inr (l' ∙ l))
  Keeps-trans s t u (b, _) (b', inr l') = (b' ∙ b, inr l')

  pub run_acts-Keeps : (acts : List Act) (s : Port stack) → Keeps s (run_acts acts s)
  unfolding run_acts
  run_acts-Keeps [] s = same s
  run_acts-Keeps (a ∷ acts) s =
      Keeps-trans s (act a s) (run_acts acts (act a s)) (act-Keeps a s)
        (run_acts-Keeps acts (act a s))

  wait_for-Keeps : (w : List (List Act)) (s : Port stack) → Keeps s (wait_for w s)
  unfolding wait_for
  wait_for-Keeps [] s = same s
  wait_for-Keeps (acts ∷ later) s = run_acts-Keeps acts (record s { schedule = later })

  pub wait-Keeps : (s : Port stack) → Keeps s (wait s)
  wait-Keeps s = wait_for-Keeps s.schedule s
