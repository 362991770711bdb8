-- ===== src/Eeprom/Access.antt =====
-- Values of `EEPROMClass` are read back as they were written, and writes do not disturb other
-- addresses.
use jedge.Base.{
  ℕ, suc, ◌+◌, ◌-◌, ◌^◌, ◌≤◌, ◌<◌, ◌≡◌, ◌⊎◌, inl, inr, ltb, add_size, false, List, length, get_or,
  take, drop, memcpy, ℤ, pos, negsuc, arith, refl, sym, ap, ◌∙◌, length-memcpy, length-slice,
  list_ext, get_or-slice, get_or-memcpy_in, get_or-memcpy_below, get_or-memcpy_above, Bool-cases,
}
use jedge.Eeprom.Nvs.{Nvs}
use jedge.Eeprom.Store.{Eeprom, bytes}
use jedge.Eeprom.Encoding.{
  to_bytes, from_bytes, to_pattern, from_pattern, values, FitsSigned, length-to_bytes,
  from_bytes-to_bytes, from_pattern-to_pattern, to_pattern-lt,
}
use jedge.Eeprom.Values.{
  read_all, write_all, read_unsigned, read_signed, write_unsigned, write_signed,
}

-- A copied piece is read back.
pub slice-memcpy :
    (b v : List ℕ) (a : ℕ) → a + length v ≤ length b → take (length v) (drop a (memcpy b a v)) ≡ v
slice-memcpy b v a h =
    list_ext _ v 0 (length-slice (memcpy b a v) a (length v) (omega (arith, length-memcpy b a v h)))
      λ k below.
        let n = length-slice (memcpy b a v) a (length v) (omega (arith, length-memcpy b a v h)) in
        let e : a + k - a ≡ k = omega arith in
        get_or-slice (memcpy b a v) a (length v) k 0 (omega arith)
        ∙ get_or-memcpy_in b a v (a + k) 0 (omega arith) (omega arith) (omega arith)
        ∙ ap (λ j. get_or v j 0) e

-- A piece beside it is as it was.
slice-memcpy_ne :
    (b v : List ℕ) (a a' n : ℕ)
    → a + length v ≤ length b
    → a' + n ≤ length b
    → (a' + n ≤ a) ⊎ (a + length v ≤ a')
    → take n (drop a' (memcpy b a v)) ≡ take n (drop a' b)
slice-memcpy_ne b v a a' n h h' apart =
    let m = length-slice (memcpy b a v) a' n (omega (arith, length-memcpy b a v h)) in
    list_ext _ _ 0 (m ∙ sym (length-slice b a' n h')) λ k below.
      get_or-slice (memcpy b a v) a' n k 0 (omega arith)
      ∙ beside k apart (omega arith)
      ∙ sym (get_or-slice b a' n k 0 (omega arith))
  where
    beside :
        (k : ℕ)
        → (a' + n ≤ a) ⊎ (a + length v ≤ a')
        → k < n
        → get_or (memcpy b a v) (a' + k) 0 ≡ get_or b (a' + k) 0
    beside k (inl left) below = get_or-memcpy_below b a v (a' + k) 0 (omega arith) (omega arith)
    beside k (inr right) below = get_or-memcpy_above b a v (a' + k) 0 (omega arith) (omega arith)

module _ {nvs : Nvs} where
  -- The memory of an open object: its buffer has the size that it goes by.
  pub record IsSized (e : Eeprom nvs) : Type 0 where
    pub length_is : length (bytes e.contents) ≡ e.size
    pub bounded : e.size < 2 ^ 31

  -- `writeAll` keeps the buffer's size: it never writes past its end, for values of less than 2 GiB.
  pub write_all-IsSized :
      (v : List ℕ) (a : ℤ) (e : Eeprom nvs)
      → IsSized e
      → ((b : ℕ) → a ≡ pos b → b < 2 ^ 31)
      → length v < 2 ^ 31
      → IsSized (write_all v a e).1
  unfolding write_all
  write_all-IsSized v (negsuc _) e h int short = h
  write_all-IsSized v (pos a) e h int short =
      elim (Bool-cases (ltb e.size (add_size a (length v)))) [
        | inl out ↦ rw out h
        | inr in_range ↦ rw in_range (record {
          length_is =
              length-memcpy (bytes e.contents) a v (ground (arith, h.length_is, int a refl))
              ∙ h.length_is;
          bounded = h.bounded;
        })
      ]

  -- What `writeAll` stored is read back.
  read_all-write_all :
      (v w : List ℕ) (a : ℕ) (e : Eeprom nvs)
      → IsSized e
      → length w ≡ length v
      → a + length v ≤ e.size
      → read_all w (pos a) (write_all v (pos a) e).1 ≡ v
  unfolding read_all write_all
  read_all-write_all v w a e h same fits =
      let out : ltb e.size (add_size a (length v)) ≡ false = ground (arith, h.bounded) in
      let out' : ltb e.size (add_size a (length w)) ≡ false = ground (arith, h.bounded) in
      rw out (rw out' (rw same (slice-memcpy (bytes e.contents) v a (omega (arith, h.length_is)))))

  -- A value beside one that `writeAll` stores is read as before, both within the size of the buffer.
  pub read_all-write_all_ne :
      (v w : List ℕ) (a a' : ℕ) (e : Eeprom nvs)
      → IsSized e
      → a + length v ≤ e.size
      → a' + length w ≤ e.size
      → (a' + length w ≤ a) ⊎ (a + length v ≤ a')
      → read_all w (pos a') (write_all v (pos a) e).1 ≡ read_all w (pos a') e
  unfolding read_all write_all
  read_all-write_all_ne v w a a' e h fits fits' apart =
      let out : ltb e.size (add_size a (length v)) ≡ false = ground (arith, h.bounded) in
      let out' : ltb e.size (add_size a' (length w)) ≡ false = ground (arith, h.bounded) in
      rw out (
        rw out' (
          slice-memcpy_ne (bytes e.contents) v a a' (length w) (omega (arith, h.length_is))
            (omega (arith, h.length_is)) apart))

  pub read_unsigned-write_unsigned :
      (n v a : ℕ) (e : Eeprom nvs)
      → IsSized e
      → a + n ≤ e.size
      → v < values n
      → read_unsigned n (pos a) (write_unsigned n (pos a) v e).1 ≡ v
  read_unsigned-write_unsigned n v a e h fits small =
      let l = length-to_bytes n v in
      ap from_bytes (
        read_all-write_all (to_bytes n v) (to_bytes n 0) a e h (length-to_bytes n 0 ∙ sym l)
          (omega arith))
      ∙ from_bytes-to_bytes n v small

  pub read_signed-write_signed :
      (n : ℕ) (v : ℤ) (a : ℕ) (e : Eeprom nvs)
      → IsSized e
      → a + suc n ≤ e.size
      → 0 < values (suc n)
      → FitsSigned (suc n) v
      → read_signed (suc n) (pos a) (write_signed (suc n) (pos a) v e).1 ≡ v
  read_signed-write_signed n v a e h fits some_values small =
      let m = suc n in
      let l = length-to_bytes m (to_pattern m v) in
      ap (λ b. from_pattern m (from_bytes b))
        (read_all-write_all (to_bytes m (to_pattern m v)) (to_bytes m 0) a e h
          (length-to_bytes m 0 ∙ sym l) (omega arith))
      ∙ ap (from_pattern m) (from_bytes-to_bytes m (to_pattern m v) (to_pattern-lt m v some_values))
      ∙ from_pattern-to_pattern n v small
