-- ===== src/BtSerial/Received.antt =====
-- What reaches the queue of received bytes.
use jedge.Base.{
  if◌then◌else◌, not, Bool, ◌||◌, ◌==◌, ◌⊎◌, refl, ℕ, suc, ◌-◌, ◌≤◌, ◌≡◌, ltb, true, false, List,
  [], ◌∷◌, ◌++◌, length, take, take_nil, length-append, arith, sym, ap, ◌∙◌, inl, inr, ◌≢◌,
  Bool-cases,
}
use mathlib.Core.Path.{subst}
use mathlib.Core.List.{append_assoc, append-nil}
use jedge.BtSerial.Stack.{SppEvent, Stack, Port, rx_queue_size}
use jedge.BtSerial.Events.{receive, handle_event}

-- The received bytes follow those in a queue of at most 512, in order, as many as there is room
-- for.
pub receive-take :
    (x rx : List ℕ)
    → length rx ≤ rx_queue_size
    → receive x rx ≡ rx ++ take (rx_queue_size - length rx) x
unfolding receive
receive-take [] rx h =
    sym (ap (λ l. rx ++ l) (take_nil (rx_queue_size - length rx)) ∙ append-nil rx)
receive-take (b ∷ x) rx h = elim (Bool-cases (ltb (length rx) rx_queue_size)) [
  | inl room ↦
      let one_less : rx_queue_size - length (rx ++ b ∷ []) ≡ 511 - length rx =
        omega (arith, length-append rx (b ∷ [])) in
      let one_more : suc (511 - length rx) ≡ rx_queue_size - length rx = ground arith in
      rw room (
        receive-take x (rx ++ b ∷ []) (ground (arith, length-append rx (b ∷ [])))
        ∙ append_assoc rx (b ∷ []) (take (rx_queue_size - length (rx ++ b ∷ [])) x)
        ∙ ap (λ n. rx ++ b ∷ take n x) one_less
        ∙ ap (λ n. rx ++ take n (b ∷ x)) one_more)
  | inr full ↦
      let no_room : 0 ≡ rx_queue_size - length rx = ground arith in
      rw full (sym (append-nil rx) ∙ ap (λ n. rx ++ take n (b ∷ x)) no_room)
]

module _ {stack : Stack} where
  -- The port while a second connection is refused: the stack has been asked to end that connection.
  abbrev pub IsRefusing : ℕ → Port stack → Port stack → Type 0
  IsRefusing handle s t =
      (t.dev ≡ (stack.spp_disconnect handle s.dev).1)
      × (t.client ≡ s.client)
      × (t.rx_queue ≡ s.rx_queue)
      × (t.tx_queue ≡ s.tx_queue)
      × (t.disconnected ≡ false)

  abbrev refusing : ℕ → Port stack → Port stack
  refusing handle s = record s {
    second_connection_attempt = true;
    dev = (stack.spp_disconnect handle s.dev).1;
    disconnected = false;
    connected = true;
  }

  srv_open-refusing :
      (handle : ℕ) (s : Port stack)
      → s.client ≢ 0
      → handle_event (SppEvent.srv_open 0 handle) s ≡ refusing handle s
  unfolding handle_event
  srv_open-refusing handle s c = let there : (s.client == 0) ≡ false = ground arith in rw there refl

  close-refusing :
      (handle : ℕ) (async : Bool) (status : ℕ) (s : Port stack)
      → let t' = handle_event (SppEvent.close async status) (refusing handle s) in
        ((async || (status == 0)) ≡ false) × (t' ≡ refusing handle s)
        ⊎ ((async || (status == 0)) ≡ true)
          × IsRefusing handle s t'
          × (t'.connected ≡ false)
          × (t'.second_connection_attempt ≡ false)
  unfolding handle_event
  close-refusing handle async status s =
      let r = refusing handle s in
      let over : Port stack = record r { second_connection_attempt = false; connected = false } in
      elim (Bool-cases (async || (status == 0))) [
        | inl ended ↦
            let e = ap (λ b. if not b then r else over) ended in
            inr (
              ended,
              subst (IsRefusing handle s) (sym e) (refl, refl, refl, refl, refl),
              ap (λ (t : Port stack). t.connected) e,
              ap (λ (t : Port stack). t.second_connection_attempt) e,
            )
        | inr failed ↦ inl (failed, ap (λ b. if not b then r else over) failed)
      ]

  -- While there is a client, a second connection whose opening is reported with status 0 is refused:
  -- the stack is asked to end it, and the client and the queues stay. The next report of an end,
  -- asynchronous or with status 0, is taken for its own: nothing more is done to the stack, and the
  -- port keeps the client, but is no longer marked as connected, nor as disconnected. A report of an
  -- end that failed changes nothing.
  pub handle_event-refused :
      (handle : ℕ) (async : Bool) (status : ℕ) (s : Port stack)
      → s.client ≢ 0
      → let t = handle_event (SppEvent.srv_open 0 handle) s in
        let t' = handle_event (SppEvent.close async status) t in
        IsRefusing handle s t
        × (((async || (status == 0)) ≡ false) × (t' ≡ t)
            ⊎ ((async || (status == 0)) ≡ true)
              × IsRefusing handle s t'
              × (t'.connected ≡ false)
              × (t'.second_connection_attempt ≡ false))
  handle_event-refused handle async status s c =
      subst
        (λ (t : Port stack).
          IsRefusing handle s t
          × (((async || (status == 0)) ≡ false) × (handle_event (SppEvent.close async status) t ≡ t)
              ⊎ ((async || (status == 0)) ≡ true)
                × IsRefusing handle s (handle_event (SppEvent.close async status) t)
                × ((handle_event (SppEvent.close async status) t).connected ≡ false)
                × ((handle_event (SppEvent.close async status) t).second_connection_attempt
                    ≡ false)))
        (sym (srv_open-refusing handle s c))
        ((refl, refl, refl, refl, refl), close-refusing handle async status s)
