-- ===== src/BtSerial/Lossless.antt =====
-- While the link is free and the stack acknowledges, the sending task loses nothing.
use jedge.Base.{
  if◌then◌else◌, ℕ, zero, suc, ◌+◌, ◌≤◌, ◌≡◌, ◌≢◌, ◌==◌, true, false, List, [], ◌∷◌, length, some,
  if_both, not, arith, refl, ap, sym, ◌∙◌,
}
use jedge.BtSerial.Stack.{SppEvent, Act, Stack, Port}
use jedge.BtSerial.Events.{handle_event, spp_cb}
use jedge.BtSerial.Sending.{
  act, run_acts, wait_for, take_done, write_buffer, spp_send_buffer, tx_round,
}
use jedge.BtSerial.Link.{IsValid}
use mathlib.Core.Path.{subst}
use jedge.BtSerial.Stack.{StackLaws}
use jedge.BtSerial.Stream.{queue_bytes, held, stream}
use jedge.BtSerial.Carried.{Carries}
use jedge.BtSerial.CarriedRound.{tx_round-carries}
use jedge.BtSerial.Delivery.{written, handed_over}
use jedge.BtSerial.Stream.{spp_cb-Still}

-- the acknowledgment of a send
abbrev pub acknowledged : List Act
acknowledged = Act.event (SppEvent.written 0 false) ∷ []

-- a schedule in which each of the next `n` sends waits for nothing and is then acknowledged, and in
-- which nothing else happens
abbrev pub IsAcked : ℕ → List (List Act) → Type 0
IsAcked zero w = Unit
IsAcked (suc n) w = (later : List (List Act)) × (w ≡ [] ∷ acknowledged ∷ later) × IsAcked n later

IsAcked-fewer : (n m : ℕ) (w : List (List Act)) → m ≤ n → IsAcked n w → IsAcked m w
IsAcked-fewer n zero w h a = tt
IsAcked-fewer zero (suc m) w h a = absurd (omega arith)
IsAcked-fewer (suc n) (suc m) w h (later, e, a) =
    (later, e, IsAcked-fewer n m later (omega arith) a)

module _ {stack : Stack} where
  -- a link that is free for the next `n` sends
  abbrev pub IsFree : ℕ → Port stack → Type 0
  IsFree n s = (s.client ≢ 0) × (s.congested ≡ true) × IsAcked n s.schedule

module _ {stack : Stack} (laws : StackLaws stack)
    (healthy : (c : ℕ) (x : List ℕ) (d : stack.Dev) → (stack.spp_write c x d).0 ≡ 0) where
  abbrev Acked : Port stack → Port stack → Type 0
  Acked s t =
      (t.tx_done ≡ true)
      × (t.client ≡ s.client)
      × (t.congested ≡ s.congested)
      × (t.tx_buffer_len ≡ s.tx_buffer_len)

  spp_cb-Acked : (s : Port stack) → Acked s (spp_cb (SppEvent.written 0 false) s)
  unfolding spp_cb handle_event
  spp_cb-Acked s =
      if_both (Acked s) s.has_spp_callback (refl, refl, refl, refl) (refl, refl, refl, refl)

  -- the state after the acknowledgment
  abbrev answered : List (List Act) → Port stack → Port stack
  answered later s = spp_cb (SppEvent.written 0 false) (record s { schedule = later })

  taken :
      (later : List (List Act)) (s : Port stack)
      → take_done (record s { schedule = acknowledged ∷ later })
        ≡ (true, record (answered later s) { tx_done = false })
  unfolding take_done wait_for run_acts act
  taken later s =
      ap
        (λ b.
          if b
          then (true, record (answered later s) { tx_done = false })
          else (false, answered later s))
        (spp_cb-Acked (record s { schedule = later })).0

  -- the state after the bytes are handed over
  abbrev handed : Port stack → Port stack
  handed s = record s { dev = (written laws s).1; tx_buffer_len = 0 }

  free_send :
      (later : List (List Act)) (s : Port stack)
      → s.client ≢ 0
      → s.congested ≡ true
      → s.schedule ≡ [] ∷ acknowledged ∷ later
      → spp_send_buffer s ≡ (true, record (answered later (handed s)) { tx_done = false })
  unfolding spp_send_buffer write_buffer wait_for run_acts
  free_send later s c f e =
      subst
        (λ w.
          spp_send_buffer (record s { schedule = w })
          ≡ (true, record (answered later (handed s)) { tx_done = false }))
        (sym e)
        (let link_up : (s.client == 0) ≡ false = ground arith in
          let ok : ((written laws s).0 == 0) ≡ true =
            rw (healthy s.client (held laws s) s.dev) refl in
          let s1 : Port stack = record s { schedule = acknowledged ∷ later } in
          ap
            (λ b.
              if not b then (false, s1) else if s.client == 0 then (false, s1) else write_buffer s1)
            f
          ∙ ap (λ b. if b then (false, s1) else write_buffer s1) link_up
          ∙ ap
              (λ b.
                if not b
                then (false, record s1 { dev = (written laws s).1 })
                else take_done (record (handed s) { schedule = acknowledged ∷ later }))
              ok
          ∙ taken later (handed s))

  IsFree-sends :
      (n : ℕ) (x : List ℕ) (s : Port stack)
      → IsFree (suc n) s
      → ((spp_send_buffer s).0 ≡ true)
        × IsFree n (spp_send_buffer s).1
        × (stream laws x (spp_send_buffer s).1 ≡ stream laws x s)
  IsFree-sends n x s (c, f, (later, e, a)) =
      let h = handed s in
      let t = answered later h in
      let (done, client, congested, len) = spp_cb-Acked (record h { schedule = later }) in
      let (d, w, q) =
        spp_cb-Still laws (SppEvent.written 0 false) (record h { schedule = later }) in
      let ok : ((written laws s).0 == 0) ≡ true = rw (healthy s.client (held laws s) s.dev) refl in
      let same : stream laws x t ≡ stream laws x h = rw (d, len, q, w, e) refl in
      rw (free_send later s c f e) (
        refl,
        ((λ z. c (sym client ∙ z)), congested ∙ f, subst (IsAcked n) (sym w) a),
        same ∙ handed_over laws x s ok,
      )

  equal_carries : Carries laws ◌≡◌ IsFree
  equal_carries = record {
    carries_refl = λ x. refl;
    carries_trans = λ x y z p q. p ∙ q;
    good_fewer = λ n m s h g. (g.0, g.1, IsAcked-fewer n m s.schedule h g.2);
    good_put = λ n off len piece s g. g;
    good_taken = λ n q s g. g;
    sends = λ n x s v g. let (ok, g', r) = IsFree-sends n x s g in (g', r);
    gives_up = λ n x s v g bad. let (ok, g', r) = IsFree-sends n x s g in absurd cc;
  }

  -- While a client is there, the link is free, the stack takes every write, and the waits of the
  -- round, for two sends more than there are bytes in the queue, bring nothing but the
  -- acknowledgment of each send (no other event, and no call of the sketch): a round of the sending
  -- task ends and no byte of the stream is lost.
  pub tx_round-lossless :
      (s : Port stack)
      → IsValid s
      → IsFree (length (queue_bytes s.tx_queue) + 2) s
      → (t : Port stack) × (tx_round s ≡ some t) × (stream laws [] t ≡ stream laws [] s)
  tx_round-lossless s v g = tx_round-carries equal_carries s v g
