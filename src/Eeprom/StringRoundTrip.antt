-- ===== src/Eeprom/StringRoundTrip.antt =====
-- Strings of `EEPROMClass` are read back as they were written, and the byte that a string at the
-- very end is written past the buffer.
use jedge.Base.{
  ℕ, zero, suc, ◌+◌, ◌-◌, ◌%◌, ◌^◌, ◌≤◌, ◌<◌, ◌≡◌, ◌≢◌, ◌==◌, ltb, leb, add_size, true, false, some,
  List, [], ◌∷◌, ◌++◌, length, get_or, take, drop, memcpy, pos, arith, refl, sym, ap, ◌∙◌,
  length-append, length-memcpy, ◌⊎◌, inl, inr, get_or-append, take-take, take-append_all,
  length-take, length-drop, memcpy_all, get_or-memcpy_in, take_all, get_or-append_right,
}
use jedge.Eeprom.Nvs.{Nvs}
use jedge.Eeprom.Store.{Eeprom, bytes}
use jedge.Eeprom.Values.{store}
use jedge.Eeprom.Access.{IsSized, slice-memcpy}
use jedge.Eeprom.Strings.{scan, byte_at, piece, read_string, write_string, read_bytes, write_bytes}

-- The scan stops at the first zero byte, if it is in range.
scan-first :
    (at : ℕ → ℕ) (size n fuel len : ℕ)
    → ((i : ℕ) → i < n → at i ≢ 0)
    → at n ≡ 0
    → n ≤ size
    → size + 1 < 2 ^ 16
    → len ≤ n
    → n < fuel + len
    → scan at size fuel len ≡ some n
unfolding scan
scan-first at size n zero len before there fits small le enough = absurd (omega arith)
scan-first at size n (suc fuel) len before there fits small le enough =
    elim (compare_cases len n le) [
      | inl here ↦
          let zero_here : (at len == 0) ≡ true = let q = ap at here ∙ there in ground arith in
          let in_range : leb len size ≡ true = ground arith in
          rw in_range (rw zero_here (ap some here))
      | inr short ↦
          let other : (at len == 0) ≡ false = let q = before len short in ground arith in
          let in_range : leb len size ≡ true = ground arith in
          let next : (len + 1) % 2 ^ 16 ≡ len + 1 = omega arith in
          rw in_range (
            rw other (
              ap (scan at size fuel) next
              ∙ scan-first at size n fuel (len + 1) before there fits small (omega arith)
                  (omega arith)))
    ]
  where
    compare_cases : (i n : ℕ) → i ≤ n → (i ≡ n) ⊎ (i < n)
    compare_cases i n h = ground arith

get_or-end : (s : List ℕ) → get_or s (length s) 0 ≡ 0
get_or-end [] = refl
get_or-end (x ∷ s) = get_or-end s

-- A C string: none of its bytes is its terminator.
abbrev pub IsText : List ℕ → Type 0
IsText s = (i : ℕ) → i < length s → get_or s i 0 ≢ 0

module _ {nvs : Nvs} where
  -- A string is stored with its terminator, if it fits without it.
  write_string-store :
      (a : ℕ) (s : List ℕ) (e : Eeprom nvs)
      → e.size + 1 < 2 ^ 16
      → IsText s
      → a + length s ≤ e.size
      → write_string (pos a) s e ≡ some (length s, store a (s ++ 0 ∷ []) e)
  unfolding write_string
  write_string-store a s e small text fits =
      let near : ltb e.size a ≡ false = ground arith in
      let fits' : ltb e.size (add_size a (length s)) ≡ false = ground arith in
      let found =
        scan-first (λ i. get_or s i 0) e.size (length s) (e.size + 2) 0 text (get_or-end s)
          (omega arith) small (omega arith) (omega arith) in
      let whole = take_all (length s + 1) (s ++ 0 ∷ []) (omega (arith, length-append s (0 ∷ []))) in
      rw near (rw found (rw fits' (rw whole refl)))

  read_string-store :
      (beyond : ℕ → ℕ) (a : ℕ) (s : List ℕ) (e : Eeprom nvs)
      → IsSized e
      → e.size + 1 < 2 ^ 16
      → IsText s
      → a + length s < e.size
      → read_string beyond (pos a) (store a (s ++ 0 ∷ []) e) ≡ some s
  unfolding read_string
  read_string-store beyond a s e h small text fits =
      let v = s ++ 0 ∷ [] in
      let b = bytes e.contents in
      let n = length-append s (0 ∷ []) in
      let l = length-memcpy b a v (omega (arith, h.length_is, n)) in
      let at : (i : ℕ) → i ≤ length s → byte_at beyond (store a v e) (a + i) ≡ get_or v i 0 =
        λ i below.
          let inside : ltb (a + i) (length (memcpy b a v)) ≡ true =
            ground (arith, h.length_is, l) in
          let off : a + i - a ≡ i = omega arith in
          rw inside (
            get_or-memcpy_in b a v (a + i) 0 (omega (arith, h.length_is, n)) (omega arith)
              (omega (arith, n))
            ∙ ap (λ j. get_or v j 0) off) in
      let found =
        scan-first (λ i. byte_at beyond (store a v e) (a + i)) e.size (length s) (e.size + 2) 0
          (λ i below zero_at.
            text i below
              (sym (get_or-append s (0 ∷ []) i 0 below) ∙ sym (at i (omega arith)) ∙ zero_at))
          (at (length s) (omega arith)
            ∙ get_or-append_right s (0 ∷ []) (length s) 0 (omega arith)
            ∙ (let z : length s - length s ≡ 0 = omega arith in ap (λ j. get_or (0 ∷ []) j 0) z))
          (omega arith) small (omega arith) (omega arith) in
      let near : ltb e.size a ≡ false = ground arith in
      let fits' : ltb e.size (add_size a (length s)) ≡ false = ground arith in
      let cut : piece a (length s) (store a v e) ≡ s =
        sym (take-take (length s) (length v) (drop a (memcpy b a v)) (omega (arith, n)))
        ∙ ap (take (length s)) (slice-memcpy b v a (omega (arith, h.length_is, n)))
        ∙ take-append_all s (0 ∷ []) (length s) refl in
      rw near (rw found (rw fits' (ap some cut)))

  -- A string is written and read back whole: for an object of less than 2^16 - 1 bytes and a string
  -- with room for its terminator, `writeString` returns the string's length and `readString` at the
  -- same address returns the string, whatever memory holds past the buffer.
  pub read_string-write_string :
      (beyond : ℕ → ℕ) (a : ℕ) (s : List ℕ) (e : Eeprom nvs)
      → IsSized e
      → e.size + 1 < 2 ^ 16
      → IsText s
      → a + length s < e.size
      → (e' : Eeprom nvs) × (write_string (pos a) s e ≡ some (length s, e'))
        × (read_string beyond (pos a) e' ≡ some s)
  read_string-write_string beyond a s e h small text fits = (
    store a (s ++ 0 ∷ []) e,
    write_string-store a s e small text (omega arith),
    read_string-store beyond a s e h small text fits,
  )

  -- A string that ends where the buffer ends is accepted, and its terminator is written one byte
  -- past the buffer: `writeString` reports the string's length, and what it wrote from the buffer's
  -- start on is one byte longer than the buffer.
  pub write_string-overflows :
      (a : ℕ) (s : List ℕ) (e : Eeprom nvs)
      → IsSized e
      → e.size + 1 < 2 ^ 16
      → IsText s
      → a + length s ≡ e.size
      → (e' : Eeprom nvs) × (write_string (pos a) s e ≡ some (length s, e'))
        × (length (bytes e'.contents) ≡ e'.size + 1)
  write_string-overflows a s e h small text full = (
    store a (s ++ 0 ∷ []) e,
    write_string-store a s e small text (omega arith),
    let b = bytes e.contents in
        let v = s ++ 0 ∷ [] in
        length-append (take a b) (v ++ drop (a + length v) b)
        ∙ omega (
          arith,
          h.length_is,
          length-append s (0 ∷ []),
          length-append v (drop (a + length v) b),
          length-take a b,
          length-drop (a + length v) b,
        ),
  )

  -- A block of bytes is read back: where a nonempty block fits, `writeBytes` and `readBytes` both
  -- return its length, and the reader's buffer of that length holds the block.
  read_bytes-write_bytes :
      (a : ℕ) (v w : List ℕ) (e : Eeprom nvs)
      → IsSized e
      → 0 < length v
      → length w ≡ length v
      → a + length v ≤ e.size
      → ((write_bytes (pos a) v e).0 ≡ length v)
        × (read_bytes (pos a) w (length v) (write_bytes (pos a) v e).1 ≡ (length v, v))
  unfolding read_bytes write_bytes
  read_bytes-write_bytes a v w e h some_bytes same fits =
      let near : (length v == 0) ≡ false = ground arith in
      let fits' : ltb e.size (add_size a (length v)) ≡ false = ground (arith, h.bounded) in
      let got = slice-memcpy (bytes e.contents) v a (omega (arith, h.length_is)) in
      let written : write_bytes (pos a) v e ≡ (length v, store a v e) = rw near (rw fits' refl) in
      rw written (
        refl,
        rw near
            (rw fits' (ap (λ x. (length v, x)) (ap (memcpy w 0) got ∙ memcpy_all w v (sym same)))),
      )
