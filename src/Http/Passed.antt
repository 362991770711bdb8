-- ===== src/Http/Passed.antt =====
-- A round of the loop of `writeToStreamDataBlock`: what it reads, and what the stream takes of it.
use jedge.Base.{
  ℕ, ◌≤◌, ◌≡◌, [], ◌++◌, arith, refl, sym, ap, ◌∙◌, ◌⊎◌, inl, inr, if_both, length-append, ◌+◌, ◌-◌,
  ◌==◌, if◌then◌else◌, Bool, true, false, List, length, take, drop,
}
use jedge.Http.Net.{Net, NetLaws, Closes}
use mathlib.Core.List.{append_assoc, append-nil}
use jedge.Http.Block.{retry, pass_on}
use jedge.Http.Copied.{Sent}

-- Passing on does not make the server's polls more.
module _ {net : Net} (closes : Closes net) where
  open net use {Dev}
  open closes use {polls}

  cleared_polls :
      (d : Dev) → polls (if net.write_error d == 0 then d else net.clear_write_error d) ≤ polls d
  cleared_polls d =
      if_both (λ x. polls x ≤ polls d) (net.write_error d == 0) (omega arith)
        (closes.polls-clear_write_error d)

  retry-polls : (n left : ℕ) (rest : List ℕ) (d : Dev) → polls (retry net n left rest d).2 ≤ polls d
  unfolding retry
  retry-polls n left rest d =
      let P : Bool × ℕ × Dev → Type 0 = λ r. polls r.2 ≤ polls d in
      if_both P ((net.write rest d).0 == left) (closes.polls-write rest d)
        (closes.polls-write rest d)

  pub pass_on-polls :
      (asked : ℕ) (buff got : List ℕ) (d : Dev) → polls (pass_on net asked buff got d).2 ≤ polls d
  unfolding pass_on
  pass_on-polls asked buff got d =
      let (n, d1) = net.write got d in
      let w = closes.polls-write got d in
      let d2 = if net.write_error d1 == 0 then d1 else net.clear_write_error d1 in
      let P : Bool × ℕ × Dev → Type 0 = λ r. polls r.2 ≤ polls d in
      if_both P (n == length got) w (
        omega (
          arith,
          retry-polls n (asked - n) (take (asked - n) (drop n buff)) (net.delay d2),
          closes.polls_later d2,
          cleared_polls d1,
        ))

module _ {net : Net} (laws : NetLaws net) where
  open net use {Dev}
  open laws use {taken, written}

  -- Bytes have been read, and a first part of them, of `n` bytes, is written; all of them if `ok`.
  pub record Passed (ok : Bool) (n : ℕ) (d d' : Dev) : Type 0 where
    pub bytes_read : List ℕ
    pub passed : List ℕ
    pub lost : List ℕ
    pub read_is : bytes_read ≡ passed ++ lost
    pub taken_is : taken d' ≡ taken d ++ bytes_read
    pub written_is : written d' ≡ written d ++ passed
    pub counted : n ≡ length passed
    pub all_passed : (ok ≡ false) ⊎ (lost ≡ [])

  pub nothing : (d : Dev) → Passed true 0 d d
  nothing d = record {
    bytes_read = [];
    passed = [];
    lost = [];
    read_is = refl;
    taken_is = sym (append-nil (taken d));
    written_is = sym (append-nil (written d));
    counted = refl;
    all_passed = inr refl;
  }

  -- an idle round
  pub waited : (ok : Bool) (n : ℕ) (d d' : Dev) → Passed ok n (net.delay d) d' → Passed ok n d d'
  waited ok n d d' p = record {
    bytes_read = p.bytes_read;
    passed = p.passed;
    lost = p.lost;
    read_is = p.read_is;
    taken_is = p.taken_is ∙ ap (λ x. x ++ p.bytes_read) (laws.taken-delay d);
    written_is = p.written_is ∙ ap (λ x. x ++ p.passed) (laws.written-delay d);
    counted = p.counted;
    all_passed = p.all_passed;
  }

  -- a round whose write fails
  pub failed :
      (asked : ℕ) (d : Dev) (r : Bool × ℕ × Dev)
      → r.0 ≡ false
      → Sent laws (net.read_bytes asked d).0 (net.read_bytes asked d).1 r
      → Passed false r.1 d r.2
  failed asked d r bad s = record {
    bytes_read = (net.read_bytes asked d).0;
    passed = s.sent;
    lost = s.unsent;
    read_is = s.got_is;
    taken_is = s.still ∙ laws.taken-read_bytes asked d;
    written_is = s.handed ∙ ap (λ x. x ++ s.sent) (laws.written-read_bytes asked d);
    counted = s.count;
    all_passed = inl refl;
  }

  -- a round whose write succeeds, and what follows
  pub followed :
      (asked m : ℕ) (ok : Bool) (d d' : Dev) (r : Bool × ℕ × Dev)
      → r.0 ≡ true
      → Sent laws (net.read_bytes asked d).0 (net.read_bytes asked d).1 r
      → Passed ok m (net.delay r.2) d'
      → Passed ok (r.1 + m) d d'
  followed asked m ok d d' r good s p =
      let none_left : s.unsent ≡ [] = elim s.all_sent [ inl bad ↦ absurd cc | inr e ↦ e ] in
      record {
        bytes_read = (net.read_bytes asked d).0 ++ p.bytes_read;
        passed = s.sent ++ p.passed;
        lost = p.lost;
        read_is =
            ap (λ x. x ++ p.bytes_read)
              (s.got_is ∙ ap (λ u. s.sent ++ u) none_left ∙ append-nil s.sent)
            ∙ ap (λ x. s.sent ++ x) p.read_is
            ∙ sym (append_assoc s.sent p.passed p.lost);
        taken_is =
            p.taken_is
            ∙ ap (λ x. x ++ p.bytes_read)
                (laws.taken-delay r.2 ∙ s.still ∙ laws.taken-read_bytes asked d)
            ∙ append_assoc (taken d) (net.read_bytes asked d).0 p.bytes_read;
        written_is =
            p.written_is
            ∙ ap (λ x. x ++ p.passed)
                (laws.written-delay r.2
                  ∙ s.handed
                  ∙ ap (λ x. x ++ s.sent) (laws.written-read_bytes asked d))
            ∙ append_assoc (written d) s.sent p.passed;
        counted = omega (arith, s.count, p.counted, length-append s.sent p.passed);
        all_passed = p.all_passed;
      }
