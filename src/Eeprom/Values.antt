-- ===== src/Eeprom/Values.antt =====
-- The typed access of `EEPROMClass`: `readAll`, `writeAll`, `get`, `put` and the methods named for a
-- type, of Essential Libraries/EEPROM/src/EEPROM.cpp and EEPROM.h.
use jedge.Base.{
  ℕ, ◌%◌, ◌^◌, ◌==◌, ltb, if◌then◌else◌, add_size, Bool, true, not, some, List, length, take, drop,
  memcpy, ℤ, pos, negsuc,
}
use jedge.Eeprom.Nvs.{Nvs}
use jedge.Eeprom.Store.{Eeprom, bytes}
use jedge.Eeprom.Encoding.{to_bytes, from_bytes, to_pattern, from_pattern}

module _ {nvs : Nvs} where
  -- `readAll(address, value)`: the bytes of the value, or those that it had
  unfoldable pub read_all : List ℕ → ℤ → Eeprom nvs → List ℕ
  read_all value (negsuc _) e = value
  read_all value (pos a) e =
      if ltb e.size (add_size a (length value))
      then value
      else take (length value) (drop a (bytes e.contents))

  -- the template `get`
  unfoldable pub get : ℤ → List ℕ → Eeprom nvs → List ℕ
  get (negsuc _) t e = t
  get (pos a) t e =
      if ltb e.size (add_size a (length t)) then t else take (length t) (drop a (bytes e.contents))

  -- `memcpy(_data + address, &value, sizeof(value)); _dirty = true;`
  abbrev pub store : ℕ → List ℕ → Eeprom nvs → Eeprom nvs
  store a value e = record e { contents = some (memcpy (bytes e.contents) a value); dirty = true }

  -- the template `put`
  unfoldable pub put : ℤ → List ℕ → Eeprom nvs → List ℕ × Eeprom nvs
  put (negsuc _) t e = (t, e)
  put (pos a) t e = if ltb e.size (add_size a (length t)) then (t, e) else (t, store a t e)

  -- `writeAll(address, value)` returns a value of the same type: the value itself where it does not
  -- fit, and its size in bytes where it was stored.
  unfoldable pub write_all : List ℕ → ℤ → Eeprom nvs → List ℕ × Eeprom nvs
  write_all value (negsuc _) e = (value, e)
  write_all value (pos a) e =
      if ltb e.size (add_size a (length value))
      then (value, e)
      else (to_bytes (length value) (length value), store a value e)

  -- The readers of unsigned and signed integers of `n` bytes, that start from 0.
  abbrev pub read_unsigned : ℕ → ℤ → Eeprom nvs → ℕ
  read_unsigned n a e = from_bytes (read_all (to_bytes n 0) a e)

  abbrev pub read_signed : ℕ → ℤ → Eeprom nvs → ℤ
  read_signed n a e = from_pattern n (from_bytes (read_all (to_bytes n 0) a e))

  unfoldable pub read_byte : ℤ → Eeprom nvs → ℕ
  read_byte a e = read_unsigned 1 a e

  unfoldable pub read_u_char : ℤ → Eeprom nvs → ℕ
  read_u_char a e = read_unsigned 1 a e

  unfoldable pub read_u_short : ℤ → Eeprom nvs → ℕ
  read_u_short a e = read_unsigned 2 a e

  unfoldable pub read_u_int : ℤ → Eeprom nvs → ℕ
  read_u_int a e = read_unsigned 4 a e

  unfoldable pub read_u_long : ℤ → Eeprom nvs → ℕ
  read_u_long a e = read_unsigned 4 a e

  unfoldable pub read_char : ℤ → Eeprom nvs → ℤ
  read_char a e = read_signed 1 a e

  unfoldable pub read_short : ℤ → Eeprom nvs → ℤ
  read_short a e = read_signed 2 a e

  unfoldable pub read_int : ℤ → Eeprom nvs → ℤ
  read_int a e = read_signed 4 a e

  unfoldable pub read_long : ℤ → Eeprom nvs → ℤ
  read_long a e = read_signed 4 a e

  unfoldable pub read_long64 : ℤ → Eeprom nvs → ℤ
  read_long64 a e = read_signed 8 a e

  unfoldable pub read_u_long64 : ℤ → Eeprom nvs → ℕ
  read_u_long64 a e = read_unsigned 8 a e

  unfoldable pub read_bool : ℤ → Eeprom nvs → Bool
  read_bool a e = not (read_unsigned 1 a e == 0)

  -- What `writeAll` returns, as a `size_t`: an unsigned type keeps its value modulo 2^32, a signed
  -- one is extended by its sign.
  abbrev pub write_unsigned : ℕ → ℤ → ℕ → Eeprom nvs → ℕ × Eeprom nvs
  write_unsigned n a v e = let (r, e') = write_all (to_bytes n v) a e in (from_bytes r % 2 ^ 32, e')

  abbrev pub write_signed : ℕ → ℤ → ℤ → Eeprom nvs → ℕ × Eeprom nvs
  write_signed n a v e =
      let (r, e') = write_all (to_bytes n (to_pattern n v)) a e in
      (to_pattern 4 (from_pattern n (from_bytes r)), e')

  unfoldable pub write_byte : ℤ → ℕ → Eeprom nvs → ℕ × Eeprom nvs
  write_byte a v e = write_unsigned 1 a v e

  unfoldable pub write_u_char : ℤ → ℕ → Eeprom nvs → ℕ × Eeprom nvs
  write_u_char a v e = write_unsigned 1 a v e

  unfoldable pub write_u_short : ℤ → ℕ → Eeprom nvs → ℕ × Eeprom nvs
  write_u_short a v e = write_unsigned 2 a v e

  unfoldable pub write_u_int : ℤ → ℕ → Eeprom nvs → ℕ × Eeprom nvs
  write_u_int a v e = write_unsigned 4 a v e

  unfoldable pub write_u_long : ℤ → ℕ → Eeprom nvs → ℕ × Eeprom nvs
  write_u_long a v e = write_unsigned 4 a v e

  unfoldable pub write_u_long64 : ℤ → ℕ → Eeprom nvs → ℕ × Eeprom nvs
  write_u_long64 a v e = write_unsigned 8 a v e

  unfoldable pub write_char : ℤ → ℤ → Eeprom nvs → ℕ × Eeprom nvs
  write_char a v e = write_signed 1 a v e

  unfoldable pub write_short : ℤ → ℤ → Eeprom nvs → ℕ × Eeprom nvs
  write_short a v e = write_signed 2 a v e

  unfoldable pub write_int : ℤ → ℤ → Eeprom nvs → ℕ × Eeprom nvs
  write_int a v e = write_signed 4 a v e

  unfoldable pub write_long : ℤ → ℤ → Eeprom nvs → ℕ × Eeprom nvs
  write_long a v e = write_signed 4 a v e

  unfoldable pub write_long64 : ℤ → ℤ → Eeprom nvs → ℕ × Eeprom nvs
  write_long64 a v e = write_signed 8 a v e

  unfoldable pub write_bool : ℤ → Bool → Eeprom nvs → ℕ × Eeprom nvs
  write_bool a v e = write_signed 1 a (if v then pos 1 else pos 0) e
