-- ===== src/BtSerial/Delivery.antt =====
-- What becomes of the bytes that the sketch writes: none is sent twice, out of order or without being
-- written, and all are sent while the link is free and the stack acknowledges.
use jedge.Base.{
  if◌then◌else◌, Lossy, Lossy-refl, Lossy-nil, Lossy-trans, Lossy-append, ℕ, ◌≡◌, ◌==◌, Bool, true,
  false, List, [], ◌++◌, some, if_both, not, ap, ◌∙◌, inl, inr, Bool-cases,
}
use jedge.BtSerial.Stack.{Stack, Port}
use jedge.BtSerial.Sending.{wait, take_done, write_buffer, spp_send_buffer, tx_round}
use jedge.BtSerial.Link.{IsValid}
use mathlib.Core.Path.{subst}
use mathlib.Core.List.{append_assoc}
use jedge.BtSerial.Stack.{StackLaws}
use jedge.BtSerial.Stream.{held, coming, stream}
use jedge.BtSerial.Carried.{Carries}
use jedge.BtSerial.CarriedRound.{tx_round-carries}
use jedge.BtSerial.Stream.{wait-stream}

module _ {stack : Stack} (laws : StackLaws stack) where
  -- `esp_spp_write` on the bytes that the buffer holds
  abbrev pub written : Port stack → ℕ × stack.Dev
  written s = stack.spp_write s.client (held laws s) s.dev

  pub handed_over :
      (x : List ℕ) (s : Port stack)
      → ((written s).0 == 0) ≡ true
      → stream laws x (record s { dev = (written s).1; tx_buffer_len = 0 }) ≡ stream laws x s
  handed_over x s ok =
      ap (λ l. l ++ (x ++ coming laws s))
        (laws.sent-spp_write s.client (held laws s) s.dev
          ∙ ap (λ b. if b then laws.sent s.dev ++ held laws s else laws.sent s.dev) ok)
      ∙ append_assoc (laws.sent s.dev) (held laws s) (x ++ coming laws s)

  kept_back :
      (x : List ℕ) (s : Port stack)
      → ((written s).0 == 0) ≡ false
      → stream laws x (record s { dev = (written s).1 }) ≡ stream laws x s
  kept_back x s bad =
      ap (λ l. l ++ (held laws s ++ (x ++ coming laws s)))
        (laws.sent-spp_write s.client (held laws s) s.dev
          ∙ ap (λ b. if b then laws.sent s.dev ++ held laws s else laws.sent s.dev) bad)

  take_done-stream :
      (x : List ℕ) (s : Port stack) → Lossy (stream laws x (take_done s).1) (stream laws x s)
  unfolding take_done
  take_done-stream x s =
      let P : Bool × Port stack → Type 0 = λ r. Lossy (stream laws x r.1) (stream laws x s) in
      if_both P (wait s).tx_done (wait-stream laws x s) (wait-stream laws x s)

  write_buffer-stream :
      (x : List ℕ) (s : Port stack) → Lossy (stream laws x (write_buffer s).1) (stream laws x s)
  unfolding write_buffer
  write_buffer-stream x s = elim (Bool-cases ((written s).0 == 0)) [
    | inl ok ↦ rw ok (
        subst
          (Lossy
            (stream laws x (take_done (record s { dev = (written s).1; tx_buffer_len = 0 })).1))
          (handed_over x s ok)
          (take_done-stream x (record s { dev = (written s).1; tx_buffer_len = 0 })))
    | inr bad ↦ rw bad (
        subst (Lossy (stream laws x (record s { dev = (written s).1 }))) (kept_back x s bad)
          (Lossy-refl (stream laws x (record s { dev = (written s).1 }))))
  ]

  spp_send_buffer-stream :
      (x : List ℕ) (s : Port stack) → Lossy (stream laws x (spp_send_buffer s).1) (stream laws x s)
  unfolding spp_send_buffer
  spp_send_buffer-stream x s =
      let P : Bool × Port stack → Type 0 = λ r. Lossy (stream laws x r.1) (stream laws x s) in
      let s1 = wait s in
      let waited = wait-stream laws x s in
      if_both P (not s1.congested) waited
        (if_both P (s1.client == 0) waited (Lossy-trans (write_buffer-stream x s1) waited))

  shorter : (x : List ℕ) (s : Port stack) → Lossy (stream laws [] s) (stream laws x s)
  shorter x s = Lossy-append (Lossy-refl (laws.sent s.dev)) (
      Lossy-append (Lossy-refl (held laws s))
        (Lossy-append (Lossy-nil x) (Lossy-refl (coming laws s))))

  Lossy-carries : Carries laws Lossy (λ n s. Unit)
  Lossy-carries = record {
    carries_refl = Lossy-refl;
    carries_trans = λ x y z. Lossy-trans;
    good_fewer = λ n m s h g. g;
    good_put = λ n off len piece s g. g;
    good_taken = λ n q s g. g;
    sends = λ n x s v g. (g, spp_send_buffer-stream x s);
    gives_up =
        λ n x s v g bad. Lossy-trans (shorter x (spp_send_buffer s).1) (spp_send_buffer-stream x s);
  }

  -- A round of the sending task ends, and the stream of bytes after it (what the stack has taken,
  -- then the buffer, the queue and what other tasks will write) is the stream before it without
  -- some of its bytes: none is added, repeated or moved, whatever events, writes and failures
  -- come in between.
  pub tx_round-in_order :
      (s : Port stack)
      → IsValid s
      → (t : Port stack) × (tx_round s ≡ some t) × Lossy (stream laws [] t) (stream laws [] s)
  tx_round-in_order s v = tx_round-carries Lossy-carries s v tt
