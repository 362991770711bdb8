-- ===== src/BtSerial/Rounds.antt =====
-- What holds of the link after a round of the sending task.
use jedge.Base.{
  ◌>>=◌, if◌then◌else◌, length-drop, ℕ, zero, suc, ◌+◌, ◌-◌, ◌%◌, ◌^◌, ◌≤◌, ◌<◌, ◌≡◌, ◌==◌, ltb,
  leb, sub_size, Bool, true, false, List, [], ◌∷◌, length, take, drop, length-take, length-memcpy,
  Option, none, some, if_both, not, ◌||◌, arith, refl, ap, ◌∙◌, ◌⊎◌, inl, inr, Bool-cases,
}
use jedge.BtSerial.Stack.{Stack, Port, tx_queue_size, spp_tx_max}
use jedge.BtSerial.Sending.{
  wait, take_done, write_buffer, spp_send_buffer, put, no_packets, tx_small, tx_loop, tx_rest,
  tx_large, tx_packet, tx_round,
}
use jedge.BtSerial.Link.{IsWithin, IsValid}
use jedge.BtSerial.Waits.{wait-IsValid, wait-Keeps}

module _ {stack : Stack} where
  abbrev pub AfterSend : Bool × Port stack → Type 0
  AfterSend (sent, s) = IsValid s × (sent ≡ true → s.tx_buffer_len ≡ 0)

  take_done-IsValid : (s : Port stack) → s.tx_buffer_len ≡ 0 → IsValid s → AfterSend (take_done s)
  unfolding take_done
  take_done-IsValid s z v =
      let w = wait-IsValid s v in
      if_both AfterSend (wait s).tx_done
        (w, λ _. elim (wait-Keeps s).1 [ inl e ↦ e ∙ z | inr e ↦ e ]) (w, λ e. absurd cc)

  pub spp_send_buffer-IsValid : (s : Port stack) → IsValid s → AfterSend (spp_send_buffer s)
  unfolding spp_send_buffer write_buffer
  spp_send_buffer-IsValid s v =
      let s1 = wait s in
      let w = wait-IsValid s v in
      let (err, d) = stack.spp_write s1.client (take s1.tx_buffer_len s1.tx_buffer) s1.dev in
      let failed : AfterSend (false, s1) = (w, λ e. absurd cc) in
      let unsent : AfterSend (false, record s1 { dev = d }) = (w, λ e. absurd cc) in
      if_both AfterSend (not s1.congested) failed (
        if_both AfterSend (s1.client == 0) failed (
          if_both AfterSend (not (err == 0)) unsent (
            take_done-IsValid (record s1 { dev = d; tx_buffer_len = 0 }) refl
              (w.0, (w.1.0, w.1.1, w.1.2, w.1.3, omega arith)))))

  -- `memcpy` into the buffer
  pub put-IsValid :
      (off : ℕ) (piece : List ℕ) (n : ℕ) (s : Port stack)
      → off + length piece ≤ spp_tx_max
      → n ≤ spp_tx_max
      → IsValid s
      → IsValid (put off piece n s)
  put-IsValid off piece n s h k (l, (rx, tx, sch, buf, _)) =
      (l, (rx, tx, sch, length-memcpy s.tx_buffer off piece (omega arith) ∙ buf, k))

  abbrev pub AfterLoop : Option (List ℕ × Port stack) → Type 0
  AfterLoop r =
      (left : List ℕ) × (t : Port stack) × (r ≡ some (left, t))
      × IsValid t
      × ((left ≡ []) ⊎ (length left < spp_tx_max) × (t.tx_buffer_len ≡ 0))

  pub tx_loop-IsValid :
      (fuel : ℕ) (left : List ℕ) (s : Port stack)
      → length left < fuel
      → ((left ≡ []) ⊎ (s.tx_buffer_len ≡ 0))
      → IsValid s
      → AfterLoop (tx_loop fuel left s)
  unfolding tx_loop
  tx_loop-IsValid zero left s h z v = absurd (omega arith)
  tx_loop-IsValid (suc fuel) left s h z v = elim (Bool-cases (ltb (length left) spp_tx_max)) [
    | inl short ↦
        (left, s, rw short refl, v, elim z [ inl e ↦ inl e | inr e ↦ inr (ground arith, e) ])
    | inr long ↦
        let full : spp_tx_max ≤ length left = ground arith in
        let n = length-take spp_tx_max left in
        let m = length-drop spp_tx_max left in
        let s1 = put 0 (take spp_tx_max left) spp_tx_max s in
        let (w, empty) =
          spp_send_buffer-IsValid s1
            (put-IsValid 0 (take spp_tx_max left) spp_tx_max s (omega arith) (omega arith) v) in
        elim (Bool-cases (spp_send_buffer s1).0) [
          | inl ok ↦
              let (l, t, e, u, r) =
                tx_loop-IsValid fuel (drop spp_tx_max left) (spp_send_buffer s1).1 (omega arith)
                  (inr (empty ok)) w in
              (l, t, rw long (rw ok e), u, r)
          | inr bad ↦ ([], (spp_send_buffer s1).1, rw long (rw bad refl), w, inl refl)
        ]
  ]

  tx_rest-IsValid :
      (left : List ℕ) (s : Port stack)
      → (left ≡ []) ⊎ (length left < spp_tx_max) × (s.tx_buffer_len ≡ 0)
      → IsValid s
      → IsValid (tx_rest left s)
  unfolding tx_rest
  tx_rest-IsValid [] s h v = v
  tx_rest-IsValid (b ∷ left) s (inl e) v = absurd cc
  tx_rest-IsValid (b ∷ left) s (inr (h, z)) v =
      let n = (s.tx_buffer_len + length (b ∷ left)) % 2 ^ 16 in
      let s1 = put 0 (b ∷ left) n s in
      let w : IsValid s1 = put-IsValid 0 (b ∷ left) n s (omega arith) (omega arith) v in
      if_both IsValid (no_packets s1) (spp_send_buffer-IsValid s1 w).0 w

  pub room :
      (s : Port stack)
      → IsValid s
      → sub_size spp_tx_max s.tx_buffer_len ≡ spp_tx_max - s.tx_buffer_len
  room s v = omega (arith, v.1.4)

  pub tx_small-IsValid :
      (packet : List ℕ) (s : Port stack)
      → length packet ≤ spp_tx_max - s.tx_buffer_len
      → IsValid s
      → IsValid (tx_small packet s)
  unfolding tx_small
  tx_small-IsValid packet s h v =
      let n = (s.tx_buffer_len + length packet) % 2 ^ 16 in
      let s1 = put s.tx_buffer_len packet n s in
      let w : IsValid s1 =
        put-IsValid s.tx_buffer_len packet n s (omega (arith, v.1.4)) (omega (arith, v.1.4)) v in
      if_both IsValid ((n == spp_tx_max) || no_packets s1) (spp_send_buffer-IsValid s1 w).0 w

  tx_large-IsValid :
      (packet : List ℕ) (s : Port stack)
      → IsValid s
      → (t : Port stack) × (tx_large packet s ≡ some t) × IsValid t
  unfolding tx_large
  tx_large-IsValid packet s v =
      let k = sub_size spp_tx_max s.tx_buffer_len in
      let s1 = put s.tx_buffer_len (take k packet) spp_tx_max s in
      let w : IsValid s1 =
        put-IsValid s.tx_buffer_len (take k packet) spp_tx_max s
          (omega (arith, room s v, length-take k packet, v.1.4)) (omega arith) v in
      let (w', empty) = spp_send_buffer-IsValid s1 w in
      let left = if (spp_send_buffer s1).0 then drop k packet else [] in
      let empty' : (left ≡ []) ⊎ ((spp_send_buffer s1).1.tx_buffer_len ≡ 0) =
        elim (Bool-cases (spp_send_buffer s1).0) [
          | inl e ↦ inr (empty e)
          | inr e ↦ inl (rw e refl)
        ] in
      let (l, t, e, u, z) =
        tx_loop-IsValid (suc (length left)) left (spp_send_buffer s1).1 (omega arith) empty' w' in
      (tx_rest l t, ap (λ r. r >>= λ r. some (tx_rest r.0 r.1)) e, tx_rest-IsValid l t z u)

  tx_packet-IsValid :
      (q : Option (List (List ℕ))) (s : Port stack)
      → IsWithin tx_queue_size q
      → IsValid s
      → (t : Port stack) × (tx_packet q s ≡ some t) × IsValid t
  unfolding tx_packet
  tx_packet-IsValid none s h v = (s, refl, v)
  tx_packet-IsValid (some []) s h v = (s, refl, v)
  tx_packet-IsValid (some (packet ∷ q)) s h v =
      let s1 : Port stack = record s { tx_queue = some q } in
      let w : IsValid s1 = (v.0, (v.1.0, omega arith, v.1.2, v.1.3, v.1.4)) in
      elim (Bool-cases (leb (length packet) (sub_size spp_tx_max s.tx_buffer_len))) [
        | inl fits ↦ (
          tx_small packet s1,
          rw fits refl,
          tx_small-IsValid packet s1 (ground (arith, room s v)) w,
        )
        | inr over ↦ let (t, e, u) = tx_large-IsValid packet s1 w in (t, rw over e, u)
      ]

  -- A round of the sending task ends, whatever other tasks do during its waits.
  pub tx_round-IsValid :
      (s : Port stack) → IsValid s → (t : Port stack) × (tx_round s ≡ some t) × IsValid t
  tx_round-IsValid s v = tx_packet-IsValid s.tx_queue s v.1.1 v
