-- ===== src/Eeprom/Strings.antt =====
-- The strings and byte blocks of `EEPROMClass`: `readString`, `writeString`, `readBytes` and
-- `writeBytes` of Essential Libraries/EEPROM/src/EEPROM.cpp. A C string is the list of the bytes
-- before its terminator, and `beyond` is what memory holds past the end of the buffer.
use jedge.Base.{
  ℕ, zero, suc, ◌+◌, ◌%◌, ◌^◌, ◌==◌, ltb, leb, if◌then◌else◌, add_size, not, Option, none, some,
  ◌>>=◌, List, [], ◌∷◌, ◌++◌, length, get_or, take, drop, memcpy, ℤ, pos, negsuc,
}
use jedge.Eeprom.Nvs.{Nvs}
use jedge.Eeprom.Store.{Eeprom, bytes}
use jedge.Eeprom.Values.{store}

-- `for (len = 0; len <= _size; len++) if (at[len] == 0) break;` with a 16-bit `len`, on fuel
unfoldable pub scan : (ℕ → ℕ) → ℕ → ℕ → ℕ → Option ℕ
scan at size zero len = none
scan at size (suc fuel) len =
    let next = scan at size fuel ((len + 1) % 2 ^ 16) in
    if not (leb len size) then some len else if at len == 0 then some len else next

module _ {nvs : Nvs} where
  -- `_data[i]`
  abbrev pub byte_at : (ℕ → ℕ) → Eeprom nvs → ℕ → ℕ
  byte_at beyond e i =
      if ltb i (length (bytes e.contents)) then get_or (bytes e.contents) i 0 else beyond i

  -- the scan of `readString` from an address
  abbrev pub string_end : (ℕ → ℕ) → ℕ → Eeprom nvs → Option ℕ
  string_end beyond a e = scan (λ i. byte_at beyond e (a + i)) e.size (e.size + 2) 0

  abbrev pub piece : ℕ → ℕ → Eeprom nvs → List ℕ
  piece a len e = take len (drop a (bytes e.contents))

  -- `readString(address, value, maxLen)`: what it returns, and the caller's buffer
  unfoldable pub read_string_into : (ℕ → ℕ) → ℤ → List ℕ → ℕ → Eeprom nvs → Option (ℕ × List ℕ)
  read_string_into beyond (negsuc _) value max_len e = some (0, value)
  read_string_into beyond (pos a) value max_len e =
      if ltb e.size (add_size a max_len) then some (0, value) else do
        len ← string_end beyond a e
        (if ltb e.size (add_size a len)
            then some (0, value)
            else if ltb max_len len
            then some (0, value)
            else some (len, memcpy (memcpy value 0 (piece a len e)) len (0 ∷ [])))

  -- `readString(address)`
  unfoldable pub read_string : (ℕ → ℕ) → ℤ → Eeprom nvs → Option (List ℕ)
  read_string beyond (negsuc _) e = some []
  read_string beyond (pos a) e = if ltb e.size a then some [] else do
    len ← string_end beyond a e
    (if ltb e.size (add_size a len) then some [] else some (piece a len e))

  -- `readBytes`: what it returns, and the caller's buffer
  unfoldable pub read_bytes : ℤ → List ℕ → ℕ → Eeprom nvs → ℕ × List ℕ
  read_bytes (negsuc _) value max_len e = (0, value)
  read_bytes (pos a) value max_len e =
      if max_len == 0
      then (0, value)
      else if ltb e.size (add_size a max_len)
      then (0, value)
      else (max_len, memcpy value 0 (piece a max_len e))

  -- `writeString(address, value)`, for both kinds of string
  unfoldable pub write_string : ℤ → List ℕ → Eeprom nvs → Option (ℕ × Eeprom nvs)
  write_string (negsuc _) value e = some (0, e)
  write_string (pos a) value e = if ltb e.size a then some (0, e) else do
    len ← scan (λ i. get_or value i 0) e.size (e.size + 2) 0
    (if ltb e.size (add_size a len)
        then some (0, e)
        else some (length value, store a (take (len + 1) (value ++ 0 ∷ [])) e))

  -- `writeBytes`, of the `len` bytes of `value`
  unfoldable pub write_bytes : ℤ → List ℕ → Eeprom nvs → ℕ × Eeprom nvs
  write_bytes (negsuc _) value e = (0, e)
  write_bytes (pos a) value e =
      if length value == 0
      then (0, e)
      else if ltb e.size (add_size a (length value))
      then (0, e)
      else (length value, store a value e)
