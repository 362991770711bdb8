-- ===== src/BtSerial/Stream.antt =====
-- The stream of bytes through the sending task: what the stack has taken, what the buffer holds, what
-- waits in the queue, and what the sketch will write.
use jedge.Base.{
  Lossy, Lossy-refl, Lossy-nil, Lossy-trans, Lossy-append, ℕ, ◌≡◌, ◌==◌, ltb, Bool, List, [], ◌∷◌,
  ◌++◌, length, take, Option, none, some, if_both, not, ◌||◌, refl, ap, sym, ◌∙◌, inl, inr,
  Bool-cases,
}
use jedge.BtSerial.Stack.{SppEvent, Act, Stack, Port, tx_queue_size}
use jedge.BtSerial.Events.{handle_event, spp_cb}
use jedge.BtSerial.Sending.{
  queue_send, queued, spp_queue_packet, write, read_from, act, run_acts, wait_for, wait,
}
use jedge.BtSerial.Waits.{Keeps, run_acts-Keeps}
use mathlib.Core.Path.{subst}
use mathlib.Core.List.{append_assoc, append-nil}
use jedge.BtSerial.Stack.{StackLaws}

-- the bytes of the packets of a queue
abbrev pub packets : List (List ℕ) → List ℕ
packets [] = []
packets (p ∷ q) = p ++ packets q

abbrev pub queue_bytes : Option (List (List ℕ)) → List ℕ
queue_bytes none = []
queue_bytes (some q) = packets q

-- the bytes that a schedule has the sketch write
abbrev pub act_bytes : Act → List ℕ
act_bytes (Act.call_write x _) = x
act_bytes _ = []

abbrev pub acts_bytes : List Act → List ℕ
acts_bytes [] = []
acts_bytes (a ∷ acts) = act_bytes a ++ acts_bytes acts

abbrev pub offered : List (List Act) → List ℕ
offered [] = []
offered (acts ∷ later) = acts_bytes acts ++ offered later

packets-append : (q : List (List ℕ)) (x : List ℕ) → packets (q ++ x ∷ []) ≡ packets q ++ x
packets-append [] x = append-nil x
packets-append (p ∷ q) x =
    ap (λ y. p ++ y) (packets-append q x) ∙ sym (append_assoc p (packets q) x)

module _ {stack : Stack} (laws : StackLaws stack) where
  open laws use {sent}

  abbrev pub held : Port stack → List ℕ
  held s = take s.tx_buffer_len s.tx_buffer

  abbrev pub coming : Port stack → List ℕ
  coming s = queue_bytes s.tx_queue ++ offered s.schedule

  -- the stream, with bytes `x` of a packet that stand between the buffer and the queue
  abbrev pub stream : List ℕ → Port stack → List ℕ
  stream x s = sent s.dev ++ (held s ++ (x ++ coming s))

  -- An event leaves the stream's parts outside the buffer alone.
  abbrev pub Still : Port stack → Port stack → Type 0
  Still s t = (sent t.dev ≡ sent s.dev) × (t.schedule ≡ s.schedule) × (t.tx_queue ≡ s.tx_queue)

  still : (s : Port stack) → Still s s
  still s = (refl, refl, refl)

  handle_event-Still : (e : SppEvent) (s : Port stack) → Still s (handle_event e s)
  unfolding handle_event
  handle_event-Still SppEvent.init s = (
    if_both (λ d. sent d ≡ sent s.dev) s.is_master (laws.sent-gap_set_scan_mode s.dev)
        (laws.sent-spp_start_srv (stack.gap_set_scan_mode s.dev)
          ∙ laws.sent-gap_set_scan_mode s.dev),
    refl,
    refl,
  )
  handle_event-Still (SppEvent.srv_open status handle) s =
      if_both (Still s) (not (status == 0)) (still s) (
        if_both (Still s) (s.client == 0) (still s)
          (laws.sent-spp_disconnect handle s.dev, refl, refl))
  handle_event-Still (SppEvent.close async status) s =
      if_both (Still s) (not (async || (status == 0))) (still s)
        (if_both (Still s) s.second_connection_attempt (still s) (still s))
  handle_event-Still (SppEvent.congestion cong) s = still s
  handle_event-Still (SppEvent.written status cong) s = still s
  handle_event-Still (SppEvent.data_ind x) s =
      if_both (Still s) s.has_data_callback (laws.sent-data_callback x s.dev, refl, refl) (still s)
  handle_event-Still (SppEvent.discovery_comp status scn) s =
      if_both (Still s) (status == 0) (laws.sent-spp_connect scn s.peer_bd_addr s.dev, refl, refl)
        (still s)
  handle_event-Still (SppEvent.client_open handle) s = (
    if_both (λ d. sent d ≡ sent s.dev) (s.client == 0) refl (laws.sent-spp_disconnect handle s.dev),
    refl,
    refl,
  )
  handle_event-Still SppEvent.other s = still s

  pub spp_cb-Still : (e : SppEvent) (s : Port stack) → Still s (spp_cb e s)
  unfolding spp_cb
  spp_cb-Still e s =
      let (d, w, q) = handle_event-Still e s in
      if_both (Still s) (handle_event e s).has_spp_callback
        (laws.sent-spp_callback e (handle_event e s).dev ∙ d, w, q) (d, w, q)

  -- Another task adds at most the bytes that it offers.
  abbrev Adds : List ℕ → Port stack → Port stack → Type 0
  Adds x s t =
      (sent t.dev ≡ sent s.dev)
      × (t.schedule ≡ s.schedule)
      × Lossy (queue_bytes t.tx_queue) (queue_bytes s.tx_queue ++ x)

  none_added : (x : List ℕ) (s : Port stack) → Adds x s s
  none_added x s = (
    refl,
    refl,
    subst (λ l. Lossy l (queue_bytes s.tx_queue ++ x)) (append-nil (queue_bytes s.tx_queue))
        (Lossy-append (Lossy-refl (queue_bytes s.tx_queue)) (Lossy-nil x)),
  )

  queued-Adds :
      (x : List ℕ) (q : Option (List (List ℕ))) (s : Port stack)
      → q ≡ s.tx_queue
      → Adds x s (queued (queue_send x q) s).1
  queued-Adds x none s e = none_added x s
  queued-Adds x (some q) s e = elim (Bool-cases (ltb (length q) tx_queue_size)) [
    | inr full ↦ rw full (none_added x s)
    | inl room ↦ rw room (
      refl,
      refl,
      subst (λ l. Lossy (packets (q ++ x ∷ [])) (l ++ x)) (ap queue_bytes e)
          (subst (λ l. Lossy l (packets q ++ x)) (sym (packets-append q x))
            (Lossy-refl (packets q ++ x))),
    )
  ]

  read_from-Adds : (q : Option (List ℕ)) (s : Port stack) → Adds [] s (read_from q s).1
  read_from-Adds none s = none_added [] s
  read_from-Adds (some []) s = none_added [] s
  read_from-Adds (some (b ∷ rx)) s = none_added [] s

  act-Adds : (a : Act) (s : Port stack) → Adds (act_bytes a) s (act a s)
  unfolding act write spp_queue_packet
  act-Adds (Act.event e) s =
      let (d, w, q) = spp_cb-Still e s in
      (
        d,
        w,
        subst (λ l. Lossy (queue_bytes l) (queue_bytes s.tx_queue ++ [])) (sym q)
            (none_added [] s).2,
      )
  act-Adds (Act.call_write x a) s =
      let P : ℕ × Port stack → Type 0 = λ r. Adds x s r.1 in
      let Q : Bool × Port stack → Type 0 = λ r. Adds x s r.1 in
      let w =
        if_both Q (length x == 0) (none_added x s)
          (if_both Q (not a) (none_added x s) (queued-Adds x s.tx_queue s refl)) in
      if_both P (s.client == 0) (none_added x s) (if_both P (spp_queue_packet x a s).0 w w)
  act-Adds Act.call_read s = read_from-Adds s.rx_queue s

  run_acts-Adds : (acts : List Act) (s : Port stack) → Adds (acts_bytes acts) s (run_acts acts s)
  unfolding run_acts
  run_acts-Adds [] s = none_added [] s
  run_acts-Adds (a ∷ acts) s =
      let (d, w, q) = act-Adds a s in
      let (d', w', q') = run_acts-Adds acts (act a s) in
      (
        d' ∙ d,
        w' ∙ w,
        subst (λ l. Lossy (queue_bytes (run_acts acts (act a s)).tx_queue) l)
            (append_assoc (queue_bytes s.tx_queue) (act_bytes a) (acts_bytes acts))
            (Lossy-trans q' (Lossy-append q (Lossy-refl (acts_bytes acts)))),
      )

  kept_held : (s t : Port stack) → Keeps s t → Lossy (held t) (held s)
  kept_held s t (b, inl l) = rw (b, l) (Lossy-refl (held s))
  kept_held s t (b, inr z) = rw z (Lossy-nil (held s))

  wait_for-stream :
      (w : List (List Act)) (x : List ℕ) (s : Port stack)
      → w ≡ s.schedule
      → Lossy (stream x (wait_for w s)) (stream x s)
  unfolding wait_for
  wait_for-stream [] x s e = Lossy-refl (stream x s)
  wait_for-stream (acts ∷ later) x s e =
      let s1 : Port stack = record s { schedule = later } in
      let t = run_acts acts s1 in
      let (d, w, q) = run_acts-Adds acts s1 in
      let front : Lossy (sent t.dev) (sent s.dev) =
        subst (λ l. Lossy l (sent s.dev)) (sym d) (Lossy-refl (sent s.dev)) in
      let rest : Lossy (coming t) (coming s) =
        subst (λ l. Lossy (coming t) (queue_bytes s.tx_queue ++ offered l)) e
          (subst
            (λ l.
              Lossy (queue_bytes t.tx_queue ++ offered l)
                (queue_bytes s.tx_queue ++ (acts_bytes acts ++ offered later)))
            (sym w)
            (subst (λ l. Lossy (queue_bytes t.tx_queue ++ offered later) l)
              (append_assoc (queue_bytes s.tx_queue) (acts_bytes acts) (offered later))
              (Lossy-append q (Lossy-refl (offered later))))) in
      Lossy-append front
        (Lossy-append (kept_held s t (run_acts-Keeps acts s1)) (Lossy-append (Lossy-refl x) rest))

  pub wait-stream : (x : List ℕ) (s : Port stack) → Lossy (stream x (wait s)) (stream x s)
  wait-stream x s = wait_for-stream s.schedule x s refl
