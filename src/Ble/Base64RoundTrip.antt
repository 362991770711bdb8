-- ===== src/Ble/Base64RoundTrip.antt =====
-- What `base64Encode` writes is read back by `base64Decode`.
use jedge.Base.{
  ℕ, zero, suc, ◌+◌, ◌-◌, ◌*◌, ◌/◌, ◌%◌, ◌<◌, ◌≡◌, ◌==◌, ltb, Bool, true, false, not, ◌&&◌, List,
  [], ◌∷◌, ◌++◌, length, replicate, none, some, arith, refl, sym, ap, ◌∙◌, memcpy_all, ◌⊎◌, inl,
  inr, Bool-cases, length-replicate,
}
use jedge.Ble.UuidText.{AreBytes}
use jedge.Ble.Base64.{
  equals_sign, base64_encoded_length, a4_to_a3, letter, encode_loop, into, base64_encode,
  padding_length, all_padding, decoded_length, b64_lookup, decode_rest, decode_loop, base64_decode,
}

-- A test that holds for every number below `n`.
abbrev all_below : ℕ → (ℕ → Bool) → Bool
all_below zero f = true
all_below (suc n) f = f n && all_below n f

all_below_lem : (n : ℕ) (f : ℕ → Bool) → all_below n f ≡ true → (i : ℕ) → i < n → f i ≡ true
all_below_lem zero f h i below = absurd (omega arith)
all_below_lem (suc n) f h i below = elim (Bool-cases (f n)) [
  | inl here ↦ elim (last i n below) [
    | inl same ↦ rw same here
    | inr other ↦ all_below_lem n f (ground arith) i other
  ]
  | inr wrong ↦ absurd (ground arith)
]
  where
    last : (i n : ℕ) → i < suc n → (i ≡ n) ⊎ (i < n)
    last i n h = ground arith

-- Each letter is looked up as its place in the alphabet, and none is the sign for padding.
letter_ok : (i : ℕ) → i < 64 → (b64_lookup (letter i) == i) && not (letter i == equals_sign) ≡ true
unfolding letter b64_lookup
letter_ok i h =
    all_below_lem 64 (λ i. (b64_lookup (letter i) == i) && not (letter i == equals_sign)) refl i h

b64_lookup-letter : (i : ℕ) → i < 64 → b64_lookup (letter i) ≡ i
b64_lookup-letter i h = let e = letter_ok i h in ground arith

letter_ne : (i : ℕ) → i < 64 → (letter i == equals_sign) ≡ false
letter_ne i h = let e = letter_ok i h in ground arith

-- Four letters are decoded as a group.
decode_loop-letters :
    (i j k l : ℕ) (s : List ℕ)
    → i < 64
    → j < 64
    → k < 64
    → l < 64
    → decode_loop [] (letter i ∷ letter j ∷ letter k ∷ letter l ∷ s)
      ≡ a4_to_a3 i j k l ++ decode_loop [] s
unfolding decode_loop
decode_loop-letters i j k l s hi hj hk hl =
    rw (letter_ne i hi, letter_ne j hj, letter_ne k hk, letter_ne l hl)
      (rw
        (
          b64_lookup-letter i hi,
          b64_lookup-letter j hj,
          b64_lookup-letter k hk,
          b64_lookup-letter l hl,
        )
        refl)

-- Three bytes are their four letters' group.
group_bytes :
    (a b c : ℕ)
    → a < 256
    → b < 256
    → c < 256
    → a4_to_a3 (a / 4) (a % 4 * 16 + b / 16) (b % 16 * 4 + c / 64) (c % 64) ≡ a ∷ b ∷ c ∷ []
group_bytes a b c ha hb hc =
    let e1 : (a / 4 * 4 + (a % 4 * 16 + b / 16) / 16 % 4) % 256 ≡ a = omega arith in
    let e2 : ((a % 4 * 16 + b / 16) % 16 * 16 + (b % 16 * 4 + c / 64) / 4 % 16) % 256 ≡ b =
      omega arith in
    let e3 : ((b % 16 * 4 + c / 64) % 4 * 64 + c % 64) % 256 ≡ c = omega arith in
    rw (e1, e2, e3) refl

-- The letters of one byte and of two.
decode_loop-one :
    (i j : ℕ)
    → i < 64
    → j < 64
    → decode_loop [] (letter i ∷ letter j ∷ equals_sign ∷ equals_sign ∷ [])
      ≡ (i * 4 + j / 16 % 4) % 256 ∷ []
unfolding decode_loop decode_rest
decode_loop-one i j hi hj =
    rw (letter_ne i hi, letter_ne j hj) (rw (b64_lookup-letter i hi, b64_lookup-letter j hj) refl)

decode_loop-two :
    (i j k : ℕ)
    → i < 64
    → j < 64
    → k < 64
    → decode_loop [] (letter i ∷ letter j ∷ letter k ∷ equals_sign ∷ [])
      ≡ (i * 4 + j / 16 % 4) % 256 ∷ (j % 16 * 16 + k / 4 % 16) % 256 ∷ []
unfolding decode_loop decode_rest
decode_loop-two i j k hi hj hk =
    rw (letter_ne i hi, letter_ne j hj, letter_ne k hk)
      (rw (b64_lookup-letter i hi, b64_lookup-letter j hj, b64_lookup-letter k hk) refl)

decode_loop-encode_loop : (s : List ℕ) → AreBytes s → decode_loop [] (encode_loop s) ≡ s
unfolding encode_loop decode_loop decode_rest
decode_loop-encode_loop [] h = refl
decode_loop-encode_loop (a ∷ []) h =
    let e : (a / 4 * 4 + (a % 4 * 16 + 0) / 16 % 4) % 256 ≡ a = let h = h.0 in omega arith in
    decode_loop-one (a / 4) (a % 4 * 16 + 0) (let h = h.0 in omega arith) (omega arith)
    ∙ ap (λ x. x ∷ []) e
decode_loop-encode_loop (a ∷ b ∷ []) h =
    let ha = h.0 in
    let hb = h.1.0 in
    let e : (a / 4 * 4 + (a % 4 * 16 + b / 16) / 16 % 4) % 256 ≡ a = omega arith in
    let f : ((a % 4 * 16 + b / 16) % 16 * 16 + (b % 16 * 4 + 0) / 4 % 16) % 256 ≡ b = omega arith in
    decode_loop-two (a / 4) (a % 4 * 16 + b / 16) (b % 16 * 4 + 0) (omega arith) (omega arith)
      (omega arith)
    ∙ rw (e, f) refl
decode_loop-encode_loop (a ∷ b ∷ c ∷ s) h =
    decode_loop-letters (a / 4) (a % 4 * 16 + b / 16) (b % 16 * 4 + c / 64) (c % 64) (encode_loop s)
      (omega arith) (omega arith) (omega arith) (omega arith)
    ∙ ap (λ g. g ++ decode_loop [] (encode_loop s)) (group_bytes a b c h.0 h.1.0 h.1.1.0)
    ∙ ap (λ t. a ∷ b ∷ c ∷ t) (decode_loop-encode_loop s h.1.1.1)

-- The signs for padding that a text of some bytes ends in.
abbrev padding : List ℕ → ℕ
padding [] = 0
padding (a ∷ []) = 2
padding (a ∷ b ∷ []) = 1
padding (a ∷ b ∷ c ∷ s) = padding s

padding_length-encode_loop :
    (s : List ℕ) → AreBytes s → padding_length (encode_loop s) 0 ≡ padding s
unfolding padding_length encode_loop
padding_length-encode_loop [] h = refl
padding_length-encode_loop (a ∷ []) h = rw (letter_ne (a % 4 * 16 + 0) (omega arith)) refl
padding_length-encode_loop (a ∷ b ∷ []) h = rw (letter_ne (b % 16 * 4 + 0) (omega arith)) refl
padding_length-encode_loop (a ∷ b ∷ c ∷ s) h =
    rw (letter_ne (c % 64) (omega arith)) (padding_length-encode_loop s h.1.1.1)

lengths :
    (s : List ℕ)
    → (length (encode_loop s) ≡ base64_encoded_length (length s))
      × (6 * length (encode_loop s) / 8 ≡ length s + padding s)
unfolding encode_loop base64_encoded_length
lengths [] = (refl, refl)
lengths (a ∷ []) = (refl, refl)
lengths (a ∷ b ∷ []) = (refl, refl)
lengths (a ∷ b ∷ c ∷ s) = let (l, m) = lengths s in (omega arith, omega arith)

into_lem : (s : List ℕ) → into (length s) s ≡ (true, s)
into_lem s =
    let e : (length s == length s) ≡ true = ground arith in
    rw e (
      ap (λ t. (true, t))
        (memcpy_all (replicate (length s) 0) s (sym (length-replicate (length s) 0))))

round_trip :
    (s : List ℕ)
    → AreBytes s
    → all_padding (encode_loop s) ≡ false
    → ((base64_encode s).0 ≡ true) × (base64_decode (base64_encode s).1 ≡ some (true, s))
unfolding base64_encode base64_decode decoded_length
round_trip s h starts =
    let (l, m) = lengths s in
    let p = padding_length-encode_loop s h in
    let encoded : base64_encode s ≡ (true, encode_loop s) =
      ap (λ n. into n (encode_loop s)) (sym l) ∙ into_lem (encode_loop s) in
    let enough : ltb (6 * length (encode_loop s) / 8) (padding_length (encode_loop s) 0) ≡ false =
      ground arith in
    let n : 6 * length (encode_loop s) / 8 - padding_length (encode_loop s) 0 ≡ length s =
      omega arith in
    let decoded : base64_decode (encode_loop s) ≡ some (true, s) =
      rw starts (rw enough (rw n (rw (decode_loop-encode_loop s h) (ap some (into_lem s))))) in
    (ap (λ r. r.0) encoded, ap (λ r. base64_decode r.1) encoded ∙ decoded)

empty_lem : base64_decode (base64_encode []).1 ≡ none
unfolding base64_encode base64_decode decoded_length all_padding encode_loop base64_encoded_length
empty_lem = refl

-- A text that is not empty begins with a letter.
all_padding-encode_loop :
    (c : ℕ) (s : List ℕ) → AreBytes (c ∷ s) → all_padding (encode_loop (c ∷ s)) ≡ false
unfolding all_padding encode_loop
all_padding-encode_loop a [] h = rw (letter_ne (a / 4) (let h = h.0 in omega arith)) refl
all_padding-encode_loop a (b ∷ []) h = rw (letter_ne (a / 4) (let h = h.0 in omega arith)) refl
all_padding-encode_loop a (b ∷ c ∷ s) h = rw (letter_ne (a / 4) (let h = h.0 in omega arith)) refl

-- Every string of at least one byte is encoded, both functions report success, and decoding the text
-- gives the string back. Decoding the empty text reads in front of the string.
pub base64_decode-base64_encode :
    (c : ℕ) (s : List ℕ)
    → AreBytes (c ∷ s)
    → ((base64_encode (c ∷ s)).0 ≡ true)
      × (base64_decode (base64_encode (c ∷ s)).1 ≡ some (true, c ∷ s))
      × (base64_decode (base64_encode []).1 ≡ none)
base64_decode-base64_encode c s h =
    let (encoded, decoded) = round_trip (c ∷ s) h (all_padding-encode_loop c s h) in
    (encoded, decoded, empty_lem)
