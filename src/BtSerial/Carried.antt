-- ===== src/BtSerial/Carried.antt =====
-- The parts of a round of the sending task, for any relation of the stream after it to the stream before it that
-- `_spp_send_buffer` keeps.
use jedge.Base.{
  length-drop, some_inj, ℕ, zero, suc, ◌+◌, ◌-◌, ◌%◌, ◌^◌, ◌≤◌, ◌<◌, ◌≡◌, ◌==◌, ltb, false, List,
  [], ◌∷◌, ◌++◌, length, take, drop, length-take, take-memcpy, take-append-drop, Option, some,
  if_both, ◌||◌, arith, refl, ap, sym, ◌∙◌, ◌⊎◌, inl, inr, Bool-cases,
}
use jedge.BtSerial.Stack.{Stack, Port, spp_tx_max}
use jedge.BtSerial.Sending.{spp_send_buffer, put, no_packets, tx_small, tx_loop, tx_rest}
use jedge.BtSerial.Link.{IsValid}
use mathlib.Core.Path.{subst}
use mathlib.Core.List.{append_assoc, append-nil}
use jedge.BtSerial.Stack.{StackLaws}
use jedge.BtSerial.Stream.{held, coming, stream}
use jedge.BtSerial.Rounds.{put-IsValid, spp_send_buffer-IsValid}

-- `R after before` for the stream, in states from which `n` sends are `Good`.
pub record Carries {stack : Stack} (laws : StackLaws stack) (R : List ℕ → List ℕ → Type 0)
    (Good : ℕ → Port stack → Type 0) : Type 0 where
  pub carries_refl : (x : List ℕ) → R x x
  pub carries_trans : (x y z : List ℕ) → R x y → R y z → R x z
  pub good_fewer : (n m : ℕ) (s : Port stack) → m ≤ n → Good n s → Good m s
  pub good_put :
      (n off len : ℕ) (piece : List ℕ) (s : Port stack) → Good n s → Good n (put off piece len s)
  pub good_taken :
      (n : ℕ) (q : Option (List (List ℕ))) (s : Port stack)
      → Good n s
      → Good n (record s { tx_queue = q })
  pub sends :
      (n : ℕ) (x : List ℕ) (s : Port stack)
      → IsValid s
      → Good (suc n) s
      → Good n (spp_send_buffer s).1 × R (stream laws x (spp_send_buffer s).1) (stream laws x s)
  pub gives_up :
      (n : ℕ) (x : List ℕ) (s : Port stack)
      → IsValid s
      → Good (suc n) s
      → (spp_send_buffer s).0 ≡ false
      → R (stream laws [] (spp_send_buffer s).1) (stream laws x s)

module _ {stack : Stack} {laws : StackLaws stack} {R : List ℕ → List ℕ → Type 0}
    {Good : ℕ → Port stack → Type 0} (carries : Carries laws R Good) where
  open carries use {carries_refl, carries_trans, good_fewer, good_put, good_taken, sends, gives_up}

  -- A copy into the buffer behind what it holds moves the bytes on.
  pub stream-put :
      (piece x : List ℕ) (n : ℕ) (s : Port stack)
      → IsValid s
      → n ≡ s.tx_buffer_len + length piece
      → stream laws x (put s.tx_buffer_len piece n s) ≡ stream laws (piece ++ x) s
  stream-put piece x n s v e =
      ap (λ l. laws.sent s.dev ++ l)
        (ap (λ h. h ++ (x ++ coming laws s))
            (take-memcpy s.tx_buffer s.tx_buffer_len piece n (omega (arith, v.1.3, v.1.4)) e)
          ∙ append_assoc (held laws s) piece (x ++ coming laws s)
          ∙ ap (λ l. held laws s ++ l) (sym (append_assoc piece x (coming laws s))))

  stream-put_empty :
      (piece x : List ℕ) (n : ℕ) (s : Port stack)
      → IsValid s
      → s.tx_buffer_len ≡ 0
      → n ≡ length piece
      → stream laws x (put 0 piece n s) ≡ stream laws (piece ++ x) s
  stream-put_empty piece x n s v z e =
      subst (λ k. stream laws x (put k piece n s) ≡ stream laws (piece ++ x) s) z
        (stream-put piece x n s v (omega (arith, z)))

  pub then_equal : {x y z : List ℕ} → R x y → y ≡ z → R x z
  then_equal {x} r e = subst (R x) e r

  pub tx_loop-carries :
      (fuel : ℕ) (left : List ℕ) (s : Port stack) (l : List ℕ) (t : Port stack)
      → (left ≡ []) ⊎ (s.tx_buffer_len ≡ 0)
      → IsValid s
      → Good (suc (length left)) s
      → tx_loop fuel left s ≡ some (l, t)
      → Good 1 t × R (stream laws l t) (stream laws left s)
  unfolding tx_loop
  tx_loop-carries zero left s l t z v g e = absurd cc
  tx_loop-carries (suc fuel) left s l t z v g e = elim (Bool-cases (ltb (length left) spp_tx_max)) [
    | inl short ↦
        let q : tx_loop (suc fuel) left s ≡ some (left, s) = rw short refl in
        moved (left, s) (l, t) (some_inj (sym q ∙ e))
          (good_fewer (suc (length left)) 1 s (omega arith) g) (carries_refl (stream laws left s))
    | inr long ↦
        let piece = take spp_tx_max left in
        let later = drop spp_tx_max left in
        let s1 = put 0 piece spp_tx_max s in
        let full : spp_tx_max ≤ length left = ground arith in
        let n : length piece ≡ spp_tx_max = omega (arith, length-take spp_tx_max left) in
        let m : length later ≡ length left - spp_tx_max =
          omega (arith, length-drop spp_tx_max left) in
        let empty : s.tx_buffer_len ≡ 0 = elim z [
          | inl none_left ↦ absurd (omega (arith, ap length none_left))
          | inr k ↦ k
        ] in
        let w : IsValid s1 = put-IsValid 0 piece spp_tx_max s (omega arith) (omega arith) v in
        let same : stream laws later s1 ≡ stream laws left s =
          stream-put_empty piece later spp_tx_max s v empty (sym n)
          ∙ ap (λ x. stream laws x s) (take-append-drop spp_tx_max left) in
        let g1 : Good (suc (length left)) s1 =
          good_put (suc (length left)) 0 spp_tx_max piece s g in
        let (g2, r2) = sends (length left) later s1 w g1 in
        let (v2, clear) = spp_send_buffer-IsValid s1 w in
        elim (Bool-cases (spp_send_buffer s1).0) [
          | inl ok ↦
              let q : tx_loop (suc fuel) left s ≡ tx_loop fuel later (spp_send_buffer s1).1 =
                rw long (rw ok refl) in
              let (g3, r3) =
                tx_loop-carries fuel later (spp_send_buffer s1).1 l t (inr (clear ok)) v2
                  (good_fewer (length left) (suc (length later)) (spp_send_buffer s1).1
                    (omega arith) g2)
                  (sym q ∙ e) in
              (g3, carries_trans _ _ _ r3 (then_equal r2 same))
          | inr bad ↦
              let q : tx_loop (suc fuel) left s ≡ some ([], (spp_send_buffer s1).1) =
                rw long (rw bad refl) in
              moved ([], (spp_send_buffer s1).1) (l, t) (some_inj (sym q ∙ e))
                (good_fewer (length left) 1 (spp_send_buffer s1).1 (omega arith) g2)
                (then_equal (gives_up (length left) later s1 w g1 bad) same)
        ]
  ]
    where
      moved :
          (a b : List ℕ × Port stack)
          → a ≡ b
          → Good 1 a.1
          → R (stream laws a.0 a.1) (stream laws left s)
          → Good 1 b.1 × R (stream laws b.0 b.1) (stream laws left s)
      moved a b q g' r =
          subst (λ c. Good 1 c.1 × R (stream laws c.0 c.1) (stream laws left s)) q (g', r)

  pub tx_rest-carries :
      (left : List ℕ) (s : Port stack)
      → (left ≡ []) ⊎ (length left < spp_tx_max) × (s.tx_buffer_len ≡ 0)
      → IsValid s
      → Good 1 s
      → R (stream laws [] (tx_rest left s)) (stream laws left s)
  unfolding tx_rest
  tx_rest-carries [] s z v g = carries_refl (stream laws [] s)
  tx_rest-carries (b ∷ left) s (inl e) v g = absurd cc
  tx_rest-carries (b ∷ left) s (inr (h, z)) v g =
      let piece = b ∷ left in
      let n = (s.tx_buffer_len + length piece) % 2 ^ 16 in
      let s1 = put 0 piece n s in
      let w : IsValid s1 = put-IsValid 0 piece n s (omega arith) (omega arith) v in
      let same : stream laws [] s1 ≡ stream laws piece s =
        stream-put_empty piece [] n s v z (omega arith)
        ∙ ap (λ x. stream laws x s) (append-nil piece) in
      if_both (λ t. R (stream laws [] t) (stream laws piece s)) (no_packets s1)
        (then_equal (sends 0 [] s1 w (good_put 1 0 n piece s g)).1 same)
        (then_equal (carries_refl (stream laws [] s1)) same)

  pub tx_small-carries :
      (packet : List ℕ) (s : Port stack)
      → length packet ≤ spp_tx_max - s.tx_buffer_len
      → IsValid s
      → Good 1 s
      → R (stream laws [] (tx_small packet s)) (stream laws packet s)
  unfolding tx_small
  tx_small-carries packet s h v g =
      let n = (s.tx_buffer_len + length packet) % 2 ^ 16 in
      let s1 = put s.tx_buffer_len packet n s in
      let w : IsValid s1 =
        put-IsValid s.tx_buffer_len packet n s (omega (arith, v.1.4)) (omega (arith, v.1.4)) v in
      let same : stream laws [] s1 ≡ stream laws packet s =
        stream-put packet [] n s v (omega (arith, v.1.4))
        ∙ ap (λ x. stream laws x s) (append-nil packet) in
      if_both (λ t. R (stream laws [] t) (stream laws packet s))
        ((n == spp_tx_max) || no_packets s1)
        (then_equal (sends 0 [] s1 w (good_put 1 s.tx_buffer_len n packet s g)).1 same)
        (then_equal (carries_refl (stream laws [] s1)) same)
