-- ===== src/Http/Copied.antt =====
-- One write of `writeToStreamDataBlock` with its second try: what the stream takes of the bytes read.
use jedge.Base.{
  drop-take, ℕ, ◌≡◌, [], ◌++◌, arith, refl, sym, ap, ◌∙◌, ◌⊎◌, inl, inr, Bool-cases, if_both,
  length-append, length-take, length-drop, take-append-drop, take_all, drop_all, ◌+◌, ◌-◌, ◌==◌,
  if◌then◌else◌, Bool, false, List, length, take, drop,
}
use jedge.Http.Net.{Net, NetLaws}
use mathlib.Core.Path.{subst}
use mathlib.Core.List.{append_assoc, append-nil}
use jedge.Http.Block.{retry, pass_on}

module _ {net : Net} (laws : NetLaws net) where
  open net use {Dev}
  open laws use {taken, written}

  -- what a write hands over of the bytes `got` that were read into the buffer
  pub record Sent (got : List ℕ) (d : Dev) (r : Bool × ℕ × Dev) : Type 0 where
    pub sent : List ℕ
    pub unsent : List ℕ
    pub got_is : got ≡ sent ++ unsent
    pub still : taken r.2 ≡ taken d
    pub handed : written r.2 ≡ written d ++ sent
    pub count : r.1 ≡ length sent
    pub all_sent : (r.0 ≡ false) ⊎ (unsent ≡ [])

  retry-Sent :
      (got before rest : List ℕ) (n left : ℕ) (d d' : Dev)
      → got ≡ before ++ rest
      → n ≡ length before
      → left ≡ length rest
      → taken d' ≡ taken d
      → written d' ≡ written d ++ before
      → Sent got d (retry net n left rest d')
  unfolding retry
  retry-Sent got before rest n left d d' g bn ln t w =
      let (m, d1) = net.write rest d' in
      let most = laws.write_most rest d' in
      let still' : taken d1 ≡ taken d = laws.taken-write rest d' ∙ t in
      let handed' : written d1 ≡ written d ++ (before ++ take m rest) =
        laws.written-write rest d'
        ∙ ap (λ x. x ++ take m rest) w
        ∙ append_assoc (written d) before (take m rest) in
      let split : got ≡ (before ++ take m rest) ++ drop m rest =
        g
        ∙ ap (λ x. before ++ x) (sym (take-append-drop m rest))
        ∙ sym (append_assoc before (take m rest) (drop m rest)) in
      let total : n + m ≡ length (before ++ take m rest) =
        omega (arith, length-append before (take m rest), length-take m rest) in
      elim (Bool-cases (m == left)) [
        | inl all ↦ rw all (record {
          sent = before ++ take m rest;
          unsent = drop m rest;
          got_is = split;
          still = still';
          handed = handed';
          count = total;
          all_sent = inr (drop_all m rest (ground arith));
        })
        | inr short ↦ rw short (record {
          sent = before ++ take m rest;
          unsent = drop m rest;
          got_is = split;
          still = still';
          handed = handed';
          count = total;
          all_sent = inl refl;
        })
      ]

  pub cleared : (d : Dev) → Dev
  cleared d = if net.write_error d == 0 then d else net.clear_write_error d

  cleared_same : (d : Dev) → (taken (cleared d) ≡ taken d) × (written (cleared d) ≡ written d)
  unfolding cleared
  cleared_same d =
      if_both (λ x. (taken x ≡ taken d) × (written x ≡ written d)) (net.write_error d == 0)
        (refl, refl) (laws.taken-clear_write_error d, laws.written-clear_write_error d)

  pub pass_on-Sent :
      (got buff : List ℕ) (d : Dev)
      → take (length got) buff ≡ got
      → Sent got d (pass_on net (length got) buff got d)
  unfolding pass_on cleared
  pass_on-Sent got buff d e =
      let (n, d1) = net.write got d in
      let most = laws.write_most got d in
      let (t, w) = cleared_same d1 in
      elim (Bool-cases (n == length got)) [
        | inl all ↦ rw all (record {
          sent = got;
          unsent = [];
          got_is = sym (append-nil got);
          still = laws.taken-write got d;
          handed =
              laws.written-write got d ∙ ap (λ x. written d ++ x) (take_all n got (ground arith));
          count = ground arith;
          all_sent = inr refl;
        })
        | inr short ↦
            let rest : take (length got - n) (drop n buff) ≡ drop n got =
              sym (drop-take n (length got) buff) ∙ ap (drop n) e in
            rw short (
              subst (λ x. Sent got d (retry net n (length got - n) x (net.delay (cleared d1))))
                (sym rest)
                (retry-Sent got (take n got) (drop n got) n (length got - n) d
                  (net.delay (cleared d1)) (sym (take-append-drop n got))
                  (omega (arith, length-take n got)) (sym (length-drop n got))
                  (laws.taken-delay (cleared d1) ∙ t ∙ laws.taken-write got d)
                  (laws.written-delay (cleared d1) ∙ w ∙ laws.written-write got d)))
      ]
