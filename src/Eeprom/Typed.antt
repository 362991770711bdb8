-- ===== src/Eeprom/Typed.antt =====
-- The methods of `EEPROMClass` that are named for a type read back what they wrote, and what they
-- return where the address is out of range.
use jedge.Base.{
  ℕ, ◌+◌, ◌%◌, ◌^◌, ◌≤◌, ◌<◌, ◌≡◌, ◌==◌, ltb, if◌then◌else◌, add_size, Bool, true, false, not, some,
  List, [], ◌∷◌, length, get_or, set, ℤ, pos, arith, refl, ap, ◌∙◌, length-set, zero, suc,
}
use jedge.Eeprom.Nvs.{Nvs}
use jedge.Eeprom.Store.{Eeprom, read, write}
use jedge.Eeprom.Encoding.{
  to_bytes, to_pattern, values, FitsSigned, length-to_bytes, from_bytes-to_bytes,
}
use jedge.Eeprom.Values.{
  write_all, write_unsigned, read_byte, write_byte, read_u_char, write_u_char, read_u_short,
  write_u_short, read_u_int, write_u_int, read_u_long, write_u_long, read_u_long64, write_u_long64,
  read_char, write_char, read_short, write_short, read_int, write_int, read_long, write_long,
  read_long64, write_long64, read_bool, write_bool,
}
use jedge.Eeprom.Access.{IsSized, read_unsigned-write_unsigned, read_signed-write_signed}

get_or-set :
    (b : List ℕ) (a i v : ℕ)
    → a < length b
    → get_or (set b a v) i 0 ≡ (if i == a then v else get_or b i 0)
get_or-set [] a i v h = absurd (omega arith)
get_or-set (x ∷ b) zero zero v h = refl
get_or-set (x ∷ b) zero (suc i) v h = ground arith
get_or-set (x ∷ b) (suc a) zero v h = ground arith
get_or-set (x ∷ b) (suc a) (suc i) v h = ground (arith, get_or-set b a i v (omega arith))

module _ {nvs : Nvs} where
  read_bool-write_bool :
      (a : ℕ) (e : Eeprom nvs)
      → IsSized e
      → a + 1 ≤ e.size
      → (v : Bool) → read_bool (pos a) (write_bool (pos a) v e).1 ≡ v
  unfolding read_bool write_bool to_pattern
  read_bool-write_bool a e h fits true =
      ap (λ n. not (n == 0)) (read_unsigned-write_unsigned 1 1 a e h fits (omega arith))
  read_bool-write_bool a e h fits false =
      ap (λ n. not (n == 0)) (read_unsigned-write_unsigned 1 0 a e h fits (omega arith))

  -- Each of the twelve integer and Boolean types is read back as it was written: for numbers in the
  -- range of their types, at an address from which the 1, 2, 4 or 8 bytes of the type are within
  -- the size of the object, whose memory has that size.
  pub typed_round_trip :
      (a1 a2 a4 a8 : ℕ) (e : Eeprom nvs) (u8 u16 u32 u64 : ℕ) (i8 i16 i32 i64 : ℤ) (b : Bool)
      → IsSized e
      → a1 + 1 ≤ e.size
      → a2 + 2 ≤ e.size
      → a4 + 4 ≤ e.size
      → a8 + 8 ≤ e.size
      → u8 < values 1
      → u16 < values 2
      → u32 < values 4
      → u64 < values 8
      → FitsSigned 1 i8
      → FitsSigned 2 i16
      → FitsSigned 4 i32
      → FitsSigned 8 i64
      → (read_byte (pos a1) (write_byte (pos a1) u8 e).1 ≡ u8)
        × (read_u_char (pos a1) (write_u_char (pos a1) u8 e).1 ≡ u8)
        × (read_u_short (pos a2) (write_u_short (pos a2) u16 e).1 ≡ u16)
        × (read_u_int (pos a4) (write_u_int (pos a4) u32 e).1 ≡ u32)
        × (read_u_long (pos a4) (write_u_long (pos a4) u32 e).1 ≡ u32)
        × (read_u_long64 (pos a8) (write_u_long64 (pos a8) u64 e).1 ≡ u64)
        × (read_char (pos a1) (write_char (pos a1) i8 e).1 ≡ i8)
        × (read_short (pos a2) (write_short (pos a2) i16 e).1 ≡ i16)
        × (read_int (pos a4) (write_int (pos a4) i32 e).1 ≡ i32)
        × (read_long (pos a4) (write_long (pos a4) i32 e).1 ≡ i32)
        × (read_long64 (pos a8) (write_long64 (pos a8) i64 e).1 ≡ i64)
        × (read_bool (pos a1) (write_bool (pos a1) b e).1 ≡ b)
  unfolding read_byte write_byte read_u_char write_u_char read_u_short write_u_short read_u_int
      write_u_int read_u_long write_u_long read_u_long64 write_u_long64 read_char write_char
      read_short write_short read_int write_int read_long write_long read_long64 write_long64
  typed_round_trip a1 a2 a4 a8 e u8 u16 u32 u64 i8 i16 i32 i64 b h w1 w2 w4 w8 f1 f2 f4 f8 s1 s2 s4
        s8 =
      (
        read_unsigned-write_unsigned 1 u8 a1 e h (omega arith) f1,
        read_unsigned-write_unsigned 1 u8 a1 e h (omega arith) f1,
        read_unsigned-write_unsigned 2 u16 a2 e h (omega arith) f2,
        read_unsigned-write_unsigned 4 u32 a4 e h (omega arith) f4,
        read_unsigned-write_unsigned 4 u32 a4 e h (omega arith) f4,
        read_unsigned-write_unsigned 8 u64 a8 e h (omega arith) f8,
        read_signed-write_signed 0 i8 a1 e h (omega arith) (omega arith) s1,
        read_signed-write_signed 1 i16 a2 e h (omega arith) (omega arith) s2,
        read_signed-write_signed 3 i32 a4 e h (omega arith) (omega arith) s4,
        read_signed-write_signed 3 i32 a4 e h (omega arith) (omega arith) s4,
        read_signed-write_signed 7 i64 a8 e h (omega arith) (omega arith) s8,
        read_bool-write_bool a1 e h (omega arith) b,
      )

  -- A byte written within the size of an open object is read back, and every other address reads as
  -- before.
  read-write :
      (a i v : ℕ) (e : Eeprom nvs) {b : List ℕ}
      → e.contents ≡ some b
      → length b ≡ e.size
      → a < e.size
      → read (pos i) (write (pos a) v e) ≡ (if i == a then v else read (pos i) e)
  unfolding read write
  read-write a i v e {b} open_ sized within =
      ground (arith, get_or-set b a i v (omega (arith, sized)), length-set b a v)

  -- A write of an unsigned number of `n` bytes that does not fit changes nothing, but it returns not 0,
  -- it returns the number itself modulo 2^32.
  write_unsigned-out :
      (n v a : ℕ) (e : Eeprom nvs)
      → e.size < add_size a n
      → v < values n
      → write_unsigned n (pos a) v e ≡ (v % 2 ^ 32, e)
  unfolding write_all
  write_unsigned-out n v a e out small =
      let l = length-to_bytes n v in
      let far : ltb e.size (add_size a (length (to_bytes n v))) ≡ true =
        ap (λ k. ltb e.size (add_size a k)) l
        ∙ (let q : ltb e.size (add_size a n) ≡ true = ground arith in q) in
      rw far (rw (from_bytes-to_bytes n v small))
