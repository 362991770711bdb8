-- ===== src/Ble/Base64.antt =====
-- `base64Encode` and `base64Decode` of Essential Libraries/BLE/src/GeneralUtils.cpp. The groups of
-- three bytes and of four characters are the arrays `a3` and `a4`, as far as they are filled.
use jedge.Base.{
  ℕ, ◌+◌, ◌-◌, ◌*◌, ◌/◌, ◌%◌, ◌==◌, leb, if◌then◌else◌, Bool, true, ◌&&◌, List, [], ◌∷◌, ◌++◌,
  length, get_or, take, replicate, memcpy, Option, none, some, ◌>>=◌, ltb,
}

-- `kBase64Alphabet`
abbrev pub alphabet : List ℕ
alphabet =
    65 ∷ 66 ∷ 67 ∷ 68 ∷ 69 ∷ 70 ∷ 71 ∷ 72 ∷ 73 ∷ 74 ∷ 75 ∷ 76 ∷ 77 ∷ 78 ∷ 79 ∷ 80 ∷ 81 ∷ 82 ∷ 83
    ∷ 84 ∷ 85 ∷ 86 ∷ 87 ∷ 88 ∷ 89 ∷ 90 ∷ 97 ∷ 98 ∷ 99 ∷ 100 ∷ 101 ∷ 102 ∷ 103 ∷ 104 ∷ 105 ∷ 106
    ∷ 107 ∷ 108 ∷ 109 ∷ 110 ∷ 111 ∷ 112 ∷ 113 ∷ 114 ∷ 115 ∷ 116 ∷ 117 ∷ 118 ∷ 119 ∷ 120 ∷ 121 ∷ 122
    ∷ 48 ∷ 49 ∷ 50 ∷ 51 ∷ 52 ∷ 53 ∷ 54 ∷ 55 ∷ 56 ∷ 57 ∷ 43 ∷ 47 ∷ []

abbrev pub equals_sign : ℕ
equals_sign = b'='

unfoldable pub base64_encoded_length : ℕ → ℕ
base64_encoded_length n = (n + 2 - (n + 2) % 3) / 3 * 4

-- `a3_to_a4`
abbrev pub a3_to_a4 : ℕ → ℕ → ℕ → List ℕ
a3_to_a4 a b c = a / 4 ∷ (a % 4 * 16 + b / 16) ∷ (b % 16 * 4 + c / 64) ∷ c % 64 ∷ []

-- `a4_to_a3`, whose results are `unsigned char`
abbrev pub a4_to_a3 : ℕ → ℕ → ℕ → ℕ → List ℕ
a4_to_a3 a b c d =
    (a * 4 + b / 16 % 4) % 256 ∷ (b % 16 * 16 + c / 4 % 16) % 256 ∷ (c % 4 * 64 + d) % 256 ∷ []

-- a character of the alphabet
unfoldable pub letter : ℕ → ℕ
letter i = get_or alphabet i 0

abbrev pub letters : List ℕ → List ℕ
letters [] = []
letters (i ∷ s) = letter i ∷ letters s

abbrev pub encode_group : ℕ → ℕ → ℕ → List ℕ
encode_group a b c = letters (a3_to_a4 a b c)

-- the loop of `base64Encode` and what follows it
unfoldable pub encode_loop : List ℕ → List ℕ
encode_loop [] = []
encode_loop (a ∷ []) = take 2 (encode_group a 0 0) ++ equals_sign ∷ equals_sign ∷ []
encode_loop (a ∷ b ∷ []) = take 3 (encode_group a b 0) ++ equals_sign ∷ []
encode_loop (a ∷ b ∷ c ∷ s) = encode_group a b c ++ encode_loop s

-- What was written to a string that was resized to `n` characters, and whether that is all of it.
abbrev pub into : ℕ → List ℕ → Bool × List ℕ
into n written = (length written == n, memcpy (replicate n 0) 0 written)

unfoldable pub base64_encode : List ℕ → Bool × List ℕ
base64_encode s = into (base64_encoded_length (length s)) (encode_loop s)

-- the number of `=` at the end of a string
unfoldable pub padding_length : List ℕ → ℕ → ℕ
padding_length [] n = n
padding_length (c ∷ s) n = padding_length s (if c == equals_sign then n + 1 else 0)

-- whether the loop of `DecodedLength`, which does not stop at the first character, leaves the string
unfoldable pub all_padding : List ℕ → Bool
all_padding [] = true
all_padding (c ∷ s) = (c == equals_sign) && all_padding s

-- `DecodedLength`; `none` for a read in front of the string, and for a negative length, on which
-- `resize` throws
unfoldable pub decoded_length : List ℕ → Option ℕ
decoded_length s =
    let n = 6 * length s / 8 in
    if all_padding s
    then none
    else if ltb n (padding_length s 0)
    then none
    else some (n - padding_length s 0)

unfoldable pub b64_lookup : ℕ → ℕ
b64_lookup c =
    if leb 65 c && leb c 90
    then c - 65
    else if leb 97 c && leb c 122
    then c - 71
    else if leb 48 c && leb c 57
    then c + 4
    else if c == 43
    then 62
    else if c == 47
    then 63
    else 255

abbrev pub decode_group : ℕ → ℕ → ℕ → ℕ → List ℕ
decode_group a b c d = a4_to_a3 (b64_lookup a) (b64_lookup b) (b64_lookup c) (b64_lookup d)

-- what `base64Decode` does after its loop, for a group of `i` characters
unfoldable pub decode_rest : List ℕ → List ℕ
decode_rest [] = []
decode_rest (a ∷ []) = []
decode_rest (a ∷ b ∷ []) = take 1 (decode_group a b 0 0)
decode_rest (a ∷ b ∷ c ∷ s) = take 2 (decode_group a b c 0)

-- the loop of `base64Decode`, with the characters of the group so far
unfoldable pub decode_loop : List ℕ → List ℕ → List ℕ
decode_loop group [] = decode_rest group
decode_loop group (c ∷ s) =
    let full = group ++ c ∷ [] in
    let decoded =
      decode_group (get_or full 0 0) (get_or full 1 0) (get_or full 2 0) (get_or full 3 0) in
    let after = decode_loop [] s in
    let more = decode_loop full s in
    if c == equals_sign
    then decode_rest group
    else if length full == 4
    then decoded ++ after
    else more

unfoldable pub base64_decode : List ℕ → Option (Bool × List ℕ)
base64_decode s = decoded_length s >>= λ n. some (into n (decode_loop [] s))
