-- ===== src/BtSerial/CarriedRound.antt =====
-- A round of the sending task, for any relation of the streams that `_spp_send_buffer` keeps.
use jedge.Base.{
  ◌>>=◌, if◌then◌else◌, length-drop, ℕ, suc, ◌+◌, ◌-◌, ◌≤◌, ◌<◌, ◌≡◌, leb, sub_size, true, false,
  List, [], ◌∷◌, ◌++◌, length, take, drop, length-append, length-take, take-append-drop, Option,
  none, some, arith, refl, ap, sym, ◌∙◌, ◌⊎◌, inl, inr, Bool-cases,
}
use jedge.BtSerial.Stack.{Stack, Port, tx_queue_size, spp_tx_max}
use jedge.BtSerial.Sending.{spp_send_buffer, put, tx_small, tx_rest, tx_large, tx_packet, tx_round}
use jedge.BtSerial.Link.{IsWithin, IsValid}
use mathlib.Core.Path.{subst}
use mathlib.Core.List.{append_assoc}
use jedge.BtSerial.Stack.{StackLaws}
use jedge.BtSerial.Stream.{packets, queue_bytes, offered, held, stream}
use jedge.BtSerial.Rounds.{room, put-IsValid, spp_send_buffer-IsValid, tx_loop-IsValid}
use jedge.BtSerial.Carried.{
  Carries, stream-put, then_equal, tx_loop-carries, tx_rest-carries, tx_small-carries,
}

module _ {stack : Stack} {laws : StackLaws stack} {R : List ℕ → List ℕ → Type 0}
    {Good : ℕ → Port stack → Type 0} (carries : Carries laws R Good) where
  open carries use {carries_refl, carries_trans, good_fewer, good_put, good_taken, sends, gives_up}

  -- After a send, the bytes that are left, or none when it failed.
  given_up :
      (later : List ℕ) (s1 : Port stack) (n : ℕ) (before : List ℕ)
      → length later ≤ n
      → ((spp_send_buffer s1).0 ≡ true → (spp_send_buffer s1).1.tx_buffer_len ≡ 0)
      → R (stream laws later (spp_send_buffer s1).1) before
      → ((spp_send_buffer s1).0 ≡ false → R (stream laws [] (spp_send_buffer s1).1) before)
      → let left = if (spp_send_buffer s1).0 then later else [] in
        ((left ≡ []) ⊎ ((spp_send_buffer s1).1.tx_buffer_len ≡ 0))
        × R (stream laws left (spp_send_buffer s1).1) before
        × (length left ≤ n)
  given_up later s1 n before h clear r give_up = elim (Bool-cases (spp_send_buffer s1).0) [
    | inl ok ↦ (
      inr (clear ok),
      subst (λ b. R (stream laws (if b then later else []) (spp_send_buffer s1).1) before) (sym ok)
          r,
      subst (λ b. length (if b then later else []) ≤ n) (sym ok) h,
    )
    | inr bad ↦ (
      inl (ap (λ b. if b then later else []) bad),
      subst (λ b. R (stream laws (if b then later else []) (spp_send_buffer s1).1) before) (sym bad)
          (give_up bad),
      subst (λ b. length (if b then later else []) ≤ n) (sym bad) (omega arith),
    )
  ]

  tx_large-carries :
      (packet : List ℕ) (s : Port stack)
      → spp_tx_max - s.tx_buffer_len < length packet
      → IsValid s
      → Good (length packet + 2) s
      → (t : Port stack) × (tx_large packet s ≡ some t)
        × R (stream laws [] t) (stream laws packet s)
  unfolding tx_large
  tx_large-carries packet s over v g =
      let k = sub_size spp_tx_max s.tx_buffer_len in
      let piece = take k packet in
      let later = drop k packet in
      let s1 = put s.tx_buffer_len piece spp_tx_max s in
      let n : spp_tx_max ≡ s.tx_buffer_len + length piece =
        omega (arith, room s v, length-take k packet, v.1.4) in
      let w : IsValid s1 =
        put-IsValid s.tx_buffer_len piece spp_tx_max s (omega arith) (omega arith) v in
      let same : stream laws later s1 ≡ stream laws packet s =
        stream-put carries piece later spp_tx_max s v n
        ∙ ap (λ x. stream laws x s) (take-append-drop k packet) in
      let g1 : Good (suc (suc (length packet))) s1 =
        good_put (suc (suc (length packet))) s.tx_buffer_len spp_tx_max piece s
          (good_fewer (length packet + 2) (suc (suc (length packet))) s (omega arith) g) in
      let (g2, r2) = sends (suc (length packet)) later s1 w g1 in
      let (v2, clear) = spp_send_buffer-IsValid s1 w in
      let s2 = (spp_send_buffer s1).1 in
      let left = if (spp_send_buffer s1).0 then later else [] in
      let shorter : length later ≤ length packet = omega (arith, length-drop k packet) in
      let (empty, r3, fewer) =
        given_up later s1 (length packet) (stream laws packet s) shorter clear
          (then_equal carries r2 same)
          (λ bad. then_equal carries (gives_up (suc (length packet)) later s1 w g1 bad) same) in
      let (l, t, e, u, z) = tx_loop-IsValid (suc (length left)) left s2 (omega arith) empty v2 in
      let (g3, r4) =
        tx_loop-carries carries (suc (length left)) left s2 l t empty v2
          (good_fewer (suc (length packet)) (suc (length left)) s2 (omega (arith, fewer)) g2) e in
      (
        tx_rest l t,
        ap (λ r. r >>= λ r. some (tx_rest r.0 r.1)) e,
        carries_trans _ _ _ (tx_rest-carries carries l t z u g3) (carries_trans _ _ _ r4 r3),
      )

  -- A round of the sending task.
  tx_packet-carries :
      (q : Option (List (List ℕ))) (s : Port stack)
      → q ≡ s.tx_queue
      → IsValid s
      → Good (length (queue_bytes q) + 2) s
      → (t : Port stack) × (tx_packet q s ≡ some t) × R (stream laws [] t) (stream laws [] s)
  unfolding tx_packet
  tx_packet-carries none s h v g = (s, refl, carries_refl (stream laws [] s))
  tx_packet-carries (some []) s h v g = (s, refl, carries_refl (stream laws [] s))
  tx_packet-carries (some (packet ∷ q)) s h v g =
      let s1 : Port stack = record s { tx_queue = some q } in
      let w : IsValid s1 = (v.0, (v.1.0, ground (arith, tail_within), v.1.2, v.1.3, v.1.4)) in
      let g1 : Good (length packet + 2) s1 = good_taken (length packet + 2) (some q) s (
        good_fewer (length (packet ++ packets q) + 2) (length packet + 2) s
          (omega (arith, length-append packet (packets q))) g) in
      let same : stream laws packet s1 ≡ stream laws [] s =
        ap (λ l. laws.sent s.dev ++ (held laws s ++ l))
          (sym (append_assoc packet (packets q) (offered s.schedule))
            ∙ ap (λ o. queue_bytes o ++ offered s.schedule) h) in
      elim (Bool-cases (leb (length packet) (sub_size spp_tx_max s.tx_buffer_len))) [
        | inl fits ↦ (
          tx_small packet s1,
          rw fits refl,
          then_equal carries
              (tx_small-carries carries packet s1 (ground (arith, room s v)) w
                (good_fewer (length packet + 2) 1 s1 (omega arith) g1))
              same,
        )
        | inr over ↦
            let (t, e, r) = tx_large-carries packet s1 (ground (arith, room s v)) w g1 in
            (t, rw over e, then_equal carries r same)
      ]
    where
      tail_within : suc (length q) ≤ tx_queue_size
      tail_within = subst (IsWithin tx_queue_size) (sym h) v.1.1

  pub tx_round-carries :
      (s : Port stack)
      → IsValid s
      → Good (length (queue_bytes s.tx_queue) + 2) s
      → (t : Port stack) × (tx_round s ≡ some t) × R (stream laws [] t) (stream laws [] s)
  tx_round-carries s v g = tx_packet-carries s.tx_queue s refl v g
