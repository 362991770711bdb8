-- ===== src/Ble/Hex.antt =====
-- Hexadecimal digits, as `printf` writes them and as `BLEUUID` and `strtoul` read them.
use jedge.Base.{
  ℕ, ◌+◌, ◌-◌, ◌*◌, ◌/◌, ◌%◌, ◌^◌, ◌<◌, ◌≡◌, ◌==◌, ltb, leb, if◌then◌else◌, Bool, false, ◌&&◌, ◌||◌,
  List, [], ◌∷◌, get_or, arith,
}

abbrev pub dash : ℕ
dash = b'-'

-- a digit of `%x`
unfoldable pub hex_char : ℕ → ℕ
hex_char n = if ltb n 10 then 48 + n else 87 + n

-- `%02x` of a byte
abbrev pub hex2 : ℕ → List ℕ
hex2 b = hex_char (b / 16) ∷ hex_char (b % 16) ∷ []

-- `%08x` of a 32-bit number
abbrev pub hex8 : ℕ → List ℕ
hex8 v =
    hex_char (v / 2 ^ 28 % 16)
    ∷ hex_char (v / 2 ^ 24 % 16)
    ∷ hex_char (v / 2 ^ 20 % 16)
    ∷ hex_char (v / 2 ^ 16 % 16)
    ∷ hex_char (v / 2 ^ 12 % 16)
    ∷ hex_char (v / 2 ^ 8 % 16)
    ∷ hex_char (v / 2 ^ 4 % 16)
    ∷ hex_char (v % 16)
    ∷ []

-- `if (c > '9') c -= 7;` and `c & 0x0F`
unfoldable pub nibble : ℕ → ℕ
nibble c = (if ltb 57 c then c - 7 else c) % 16

-- `((MSB & 0x0F) << 4) | (LSB & 0x0F)`
unfoldable pub pair : ℕ → ℕ → ℕ
pair c d = nibble c * 16 + nibble d

pub nibble-hex_char : (n : ℕ) → n < 16 → nibble (hex_char n) ≡ n
unfolding nibble hex_char
nibble-hex_char n h = ground arith

pub hex_char_ne : (n : ℕ) → n < 16 → (hex_char n == dash) ≡ false
unfolding hex_char
hex_char_ne n h = ground arith

-- The two digits of a byte are read as the byte.
pub pair-hex_char : (b : ℕ) → b < 256 → pair (hex_char (b / 16)) (hex_char (b % 16)) ≡ b
unfolding pair
pair-hex_char b h =
    let hi = nibble-hex_char (b / 16) (omega arith) in
    let lo = nibble-hex_char (b % 16) (omega arith) in omega arith

-- `isspace`
abbrev pub is_space : ℕ → Bool
is_space c = (c == 32) || leb 9 c && leb c 13

-- the value of a digit in base 16, or 16
unfoldable pub digit_value : ℕ → ℕ
digit_value c =
    if leb 48 c && leb c 57
    then c - 48
    else if leb 97 c && leb c 102
    then c - 87
    else if leb 65 c && leb c 70
    then c - 55
    else 16

-- the digits of a number, up to the first character that is none
unfoldable pub hex_digits : List ℕ → ℕ → ℕ
hex_digits [] n = n
hex_digits (c ∷ s) n =
    let more = hex_digits s (n * 16 + digit_value c) in if ltb (digit_value c) 16 then more else n

-- without an optional `0x`
abbrev pub skip_prefix : List ℕ → List ℕ
skip_prefix [] = []
skip_prefix (c ∷ []) = c ∷ []
skip_prefix (c ∷ x ∷ s) =
    if (c == 48) && ((x == 120) || (x == 88)) && ltb (digit_value (get_or s 0 0)) 16
    then s
    else c ∷ x ∷ s

-- `strtoul(s, NULL, 16)` for numbers of less than 32 bits
unfoldable pub strtoul : List ℕ → ℕ
strtoul [] = 0
strtoul (c ∷ s) =
    let rest = strtoul s in
    if is_space c
    then rest
    else if c == 43
    then hex_digits (skip_prefix s) 0
    else if c == 45
    then (2 ^ 32 - hex_digits (skip_prefix s) 0) % 2 ^ 32
    else hex_digits (skip_prefix (c ∷ s)) 0

pub digit_value-hex_char : (n : ℕ) → n < 16 → digit_value (hex_char n) ≡ n
unfolding digit_value hex_char
digit_value-hex_char n h = ground arith
