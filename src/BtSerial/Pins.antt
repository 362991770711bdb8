-- ===== src/BtSerial/Pins.antt =====
-- Which pins `setPin` takes.
use jedge.Base.{
  ℕ, zero, suc, ◌≤◌, ◌<◌, ◌≡◌, ◌==◌, ltb, leb, if◌then◌else◌, true, false, not, List, [], ◌∷◌,
  length, get_or, take, set, memcpy, none, some, arith, refl, sym, ap, ◌∙◌, ◌⊎◌, inl, inr,
  Bool-cases, if_both, take-memcpy, length-memcpy, length-set,
}
use mathlib.Core.Path.{subst}
use jedge.BtSerial.Stack.{Stack}
use jedge.BtSerial.Pin.{pin_code_len, Pairing, is_ready, bt_set_pin, finish_pin, set_pin}

take-set : (n : ℕ) (xs : List ℕ) (v : ℕ) → take n (set xs n v) ≡ take n xs
take-set zero xs v = refl
take-set (suc n) [] v = refl
take-set (suc n) (x ∷ xs) v = ap (λ l. x ∷ l) (take-set n xs v)

get_or-set_same : (n : ℕ) (xs : List ℕ) (v d : ℕ) → n < length xs → get_or (set xs n v) n d ≡ v
get_or-set_same n [] v d h = absurd (omega arith)
get_or-set_same zero (x ∷ xs) v d h = refl
get_or-set_same (suc n) (x ∷ xs) v d h = get_or-set_same n xs v d (omega arith)

module _ {stack : Stack} where
  -- `_pin_code` holds the text `pin` and the terminator behind it
  abbrev pub HasPin : List ℕ → Pairing stack → Type 0
  HasPin pin p =
      (p.pin_len ≡ length pin)
      × (take (length pin) p.pin_code ≡ pin)
      × (get_or p.pin_code (length pin) 1 ≡ 0)
      × (length p.pin_code ≡ pin_code_len)
      × (p.is_pin_set ≡ true)

  -- `btSetPin` when a pin is set
  abbrev told : Pairing stack → Pairing stack
  told p =
      let is_fixed = not (p.pin_len == 0) in
      record p {
        is_pin_set = is_fixed;
        port = record p.port {
          dev = (stack.gap_set_pin is_fixed p.pin_len p.pin_code p.port.dev).1;
        };
      }

  after : (p : Pairing stack) → p.is_pin_set ≡ true → (bt_set_pin p).1 ≡ told p
  unfolding bt_set_pin
  after p is_on = rw is_on refl

  bt_set_pin-HasPin :
      (pin : List ℕ) (p : Pairing stack)
      → 0 < length pin
      → HasPin pin p
      → HasPin pin (bt_set_pin p).1
  bt_set_pin-HasPin pin p some_pin (n, code, ends, size, is_on) =
      subst (HasPin pin) (sym (after p is_on)) (n, code, ends, size, ground arith)

  finish_pin-HasPin :
      (pin code : List ℕ) (p : Pairing stack)
      → length code ≡ pin_code_len
      → take (length pin) code ≡ pin
      → 0 < length pin
      → length pin < pin_code_len
      → (t : Pairing stack) × (finish_pin code (length pin) p ≡ some t) × HasPin pin t
  unfolding finish_pin
  finish_pin-HasPin pin code p size is_pin some_pin short =
      let p1 : Pairing stack = record p {
        port = (is_ready false p.port).1;
        pin_code = set code (length pin) 0;
        pin_len = length pin;
        is_pin_set = true;
      } in
      let h : HasPin pin p1 = (
        refl,
        take-set (length pin) code 0 ∙ is_pin,
        get_or-set_same (length pin) code 0 1 (omega arith),
        length-set code (length pin) 0 ∙ size,
        refl,
      ) in
      let t = if (is_ready false p.port).0 then (bt_set_pin p1).1 else p1 in
      let within : ltb (length pin) pin_code_len ≡ true = ground arith in
      (
        t,
        rw within refl,
        if_both (HasPin pin) (is_ready false p.port).0 (bt_set_pin-HasPin pin p1 some_pin h) h,
      )

  finish_pin-none :
      (code : List ℕ) (n : ℕ) (p : Pairing stack)
      → ltb n pin_code_len ≡ false
      → finish_pin code n p ≡ none
  unfolding finish_pin
  finish_pin-none code n p h = rw h refl

  -- For an array of 16 bytes: a pin of 1 to 15 bytes is kept, with its length and with a zero byte
  -- behind it, and is marked as set. From 16 bytes on, which is the size of _pin_code, setPin
  -- writes past the end of the array.
  pub set_pin-outcomes :
      (c : ℕ) (pin : List ℕ) (p : Pairing stack)
      → length p.pin_code ≡ pin_code_len
      → (length (c ∷ pin) < pin_code_len)
          × ((t : Pairing stack) × (set_pin (some (c ∷ pin)) p ≡ some t) × HasPin (c ∷ pin) t)
        ⊎ (pin_code_len ≤ length (c ∷ pin)) × (set_pin (some (c ∷ pin)) p ≡ none)
  unfolding set_pin
  set_pin-outcomes c pin p size = elim (Bool-cases (ltb (length (c ∷ pin)) pin_code_len)) [
    | inl short ↦
        let less : length (c ∷ pin) < pin_code_len = ground arith in
        let code = memcpy p.pin_code 0 (c ∷ pin) in
        let (t, e, h) =
          finish_pin-HasPin (c ∷ pin) code p
            (length-memcpy p.pin_code 0 (c ∷ pin) (omega arith) ∙ size)
            (take-memcpy p.pin_code 0 (c ∷ pin) (length (c ∷ pin)) (omega arith) (omega arith))
            (omega arith) less in
        let fits : leb (length (c ∷ pin)) pin_code_len ≡ true = ground arith in
        inl (less, (t, rw fits e, h))
    | inr long ↦ inr (ground arith, too_long long)
  ]
    where
      too_long : ltb (length (c ∷ pin)) pin_code_len ≡ false → set_pin (some (c ∷ pin)) p ≡ none
      too_long h = elim (Bool-cases (leb (length (c ∷ pin)) pin_code_len)) [
        | inl fits ↦
            rw fits (finish_pin-none (memcpy p.pin_code 0 (c ∷ pin)) (length (c ∷ pin)) p h)
        | inr over ↦ rw over refl
      ]
