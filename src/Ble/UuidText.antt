-- ===== src/Ble/UuidText.antt =====
-- What `BLEUUID` keeps when it turns to its 128-bit form, to text and back.
use jedge.Base.{
  ℕ, zero, suc, ◌+◌, ◌/◌, ◌%◌, ◌^◌, ◌<◌, ◌≡◌, ◌==◌, true, false, List, [], ◌∷◌, ◌++◌, length,
  get_or, take, drop, replicate, arith, refl, sym, ap, ◌∙◌, drop_all,
}
use mathlib.Core.Path.{subst}
use jedge.Ble.Hex.{dash, hex_char, hex2, hex8, hex_char_ne, pair-hex_char}
use jedge.Ble.Uuid.{
  Uuid, put_down, long_pairs, from_text, base_bytes, base_text, to_string, to128, same_bytes,
  equals,
}
use jedge.Ble.Uuid.Uuid.{unset, uuid16, uuid32, uuid128}

abbrev pub AreBytes : List ℕ → Type 0
AreBytes [] = true ≡ true
AreBytes (x ∷ s) = (x < 256) × AreBytes s

pub AreBytes-get_or : (b : List ℕ) → AreBytes b → (i : ℕ) → get_or b i 0 < 256
AreBytes-get_or [] h i = omega arith
AreBytes-get_or (x ∷ s) h zero = h.0
AreBytes-get_or (x ∷ s) h (suc i) = AreBytes-get_or s h.1 i

-- The values that fit the field of their length.
abbrev pub IsUuid : Uuid → Type 0
IsUuid unset = false ≡ true
IsUuid (uuid16 v) = v < 2 ^ 16
IsUuid (uuid32 v) = v < 2 ^ 32
IsUuid (uuid128 b) = (length b ≡ 16) × AreBytes b

-- The digits of a number are those of its four bytes.
hex8-bytes :
    (v : ℕ)
    → v < 2 ^ 32
    → hex2 (v / 2 ^ 24 % 256) ++ hex2 (v / 2 ^ 16 % 256) ++ hex2 (v / 2 ^ 8 % 256) ++ hex2 (v % 256)
      ≡ hex8 v
hex8-bytes v small =
    let a1 : v / 2 ^ 24 % 256 / 16 ≡ v / 2 ^ 28 % 16 = omega arith in
    let a2 : v / 2 ^ 24 % 256 % 16 ≡ v / 2 ^ 24 % 16 = omega arith in
    let b1 : v / 2 ^ 16 % 256 / 16 ≡ v / 2 ^ 20 % 16 = omega arith in
    let b2 : v / 2 ^ 16 % 256 % 16 ≡ v / 2 ^ 16 % 16 = omega arith in
    let c1 : v / 2 ^ 8 % 256 / 16 ≡ v / 2 ^ 12 % 16 = omega arith in
    let c2 : v / 2 ^ 8 % 256 % 16 ≡ v / 2 ^ 8 % 16 = omega arith in
    let d1 : v % 256 / 16 ≡ v / 2 ^ 4 % 16 = omega arith in
    let d2 : v % 256 % 16 ≡ v % 16 = omega arith in rw (a1, a2, b1, b2, c1, c2, d1, d2) refl

-- The 128-bit form of a UUID has the text of the UUID.
to_string-to128 : (u : Uuid) → IsUuid u → to_string (to128 u) ≡ to_string u
unfolding to_string to128 hex_char
to_string-to128 unset h = absurd cc
to_string-to128 (uuid16 v) h =
    let hi : v / 2 ^ 24 % 256 ≡ 0 = omega arith in
    let lo : v / 2 ^ 16 % 256 ≡ 0 = omega arith in
    let low = hex2 (v / 2 ^ 8 % 256) ++ hex2 (v % 256) in
    ap (λ d. d ++ base_text)
      (subst (λ z. hex2 0 ++ hex2 z ++ low ≡ hex8 v) lo
        (subst (λ z. hex2 z ++ hex2 (v / 2 ^ 16 % 256) ++ low ≡ hex8 v) hi
          (hex8-bytes v (omega arith))))
to_string-to128 (uuid32 v) h = ap (λ d. d ++ base_text) (hex8-bytes v h)
to_string-to128 (uuid128 b) h = refl

same_bytes_refl : (s : List ℕ) → same_bytes s s ≡ true
unfolding same_bytes
same_bytes_refl [] = refl
same_bytes_refl (x ∷ s) = let e : (x == x) ≡ true = ground arith in rw e (same_bytes_refl s)

-- A UUID equals its 128-bit form.
pub equals-to128 : (u : Uuid) → IsUuid u → equals u (to128 u) ≡ true
unfolding equals to128
equals-to128 unset h = absurd cc
equals-to128 (uuid16 v) h =
    ap (λ s. same_bytes s (to_string (uuid16 v))) (to_string-to128 (uuid16 v) h)
    ∙ same_bytes_refl (to_string (uuid16 v))
equals-to128 (uuid32 v) h =
    ap (λ s. same_bytes s (to_string (uuid32 v))) (to_string-to128 (uuid32 v) h)
    ∙ same_bytes_refl (to_string (uuid32 v))
equals-to128 (uuid128 b) h = same_bytes_refl (take 16 b)

-- A pair of digits, and one after a dash.
long_pairs-hex2 :
    (b e n : ℕ) (s bytes : List ℕ)
    → b < 256
    → long_pairs (hex2 b ++ e ∷ s) n bytes ≡ long_pairs (e ∷ s) (n + 1) (put_down n b bytes)
unfolding long_pairs
long_pairs-hex2 b e n s bytes h =
    let plain = hex_char_ne (b / 16) (omega arith) in rw plain (rw (pair-hex_char b h) refl)

long_pairs-dash :
    (b n : ℕ) (s bytes : List ℕ)
    → b < 256
    → long_pairs (dash ∷ hex2 b ++ s) n bytes ≡ long_pairs s (n + 1) (put_down n b bytes)
unfolding long_pairs
long_pairs-dash b n s bytes h = rw (pair-hex_char b h) refl

-- The last pair of digits.
long_pairs-end :
    (b n : ℕ) (bytes : List ℕ) → b < 256 → long_pairs (hex2 b) n bytes ≡ put_down n b bytes
unfolding long_pairs
long_pairs-end b n bytes h =
    let plain = hex_char_ne (b / 16) (omega arith) in rw plain (rw (pair-hex_char b h) refl)

-- The elements from an index on.
abbrev table : ℕ → ℕ → List ℕ → List ℕ
table i zero b = []
table i (suc n) b = get_or b i 0 ∷ table (i + 1) n b

table_lem : (b : List ℕ) (i n : ℕ) → i + n ≡ length b → table i n b ≡ drop i b
table_lem b i zero h = sym (drop_all i b (omega arith))
table_lem b i (suc n) h =
    ap (λ s. get_or b i 0 ∷ s) (table_lem b (i + 1) n (omega arith))
    ∙ sym (drop-cons b i (omega arith))
  where
    drop-cons : (b : List ℕ) (i : ℕ) → i < length b → drop i b ≡ get_or b i 0 ∷ drop (i + 1) b
    drop-cons [] i h = absurd (omega arith)
    drop-cons (x ∷ b) zero h = refl
    drop-cons (x ∷ b) (suc i) h =
        let e : suc (i + 1) ≡ suc i + 1 = omega arith in
        drop-cons b i (omega arith) ∙ ap (λ j. get_or b i 0 ∷ drop j (x ∷ b)) e

text_bytes :
    (b : List ℕ)
    → length b ≡ 16
    → ((i : ℕ) → get_or b i 0 < 256)
    → long_pairs (to_string (uuid128 b)) 0 (replicate 16 0) ≡ b
unfolding to_string
text_bytes b l small =
    let at : ℕ → ℕ = λ i. get_or b i 0 in
    long_pairs-hex2 (at 15) _ 0 _ _ (small 15)
    ∙ long_pairs-hex2 (at 14) _ 1 _ _ (small 14)
    ∙ long_pairs-hex2 (at 13) _ 2 _ _ (small 13)
    ∙ long_pairs-hex2 (at 12) _ 3 _ _ (small 12)
    ∙ long_pairs-dash (at 11) 4 _ _ (small 11)
    ∙ long_pairs-hex2 (at 10) _ 5 _ _ (small 10)
    ∙ long_pairs-dash (at 9) 6 _ _ (small 9)
    ∙ long_pairs-hex2 (at 8) _ 7 _ _ (small 8)
    ∙ long_pairs-dash (at 7) 8 _ _ (small 7)
    ∙ long_pairs-hex2 (at 6) _ 9 _ _ (small 6)
    ∙ long_pairs-dash (at 5) 10 _ _ (small 5)
    ∙ long_pairs-hex2 (at 4) _ 11 _ _ (small 4)
    ∙ long_pairs-hex2 (at 3) _ 12 _ _ (small 3)
    ∙ long_pairs-hex2 (at 2) _ 13 _ _ (small 2)
    ∙ long_pairs-hex2 (at 1) _ 14 _ _ (small 1)
    ∙ long_pairs-end (at 0) 15 _ (small 0)
    ∙ table_lem b 0 16 (sym l)

short_bytes :
    (a b c d : ℕ)
    → a < 256
    → b < 256
    → c < 256
    → d < 256
    → AreBytes (base_bytes ++ a ∷ b ∷ c ∷ d ∷ [])
short_bytes a b c d ha hb hc hd = (
  omega arith,
  (
    omega arith,
    (
      omega arith,
      (
        omega arith,
        (
          omega arith,
          (
            omega arith,
            (
              omega arith,
              (
                omega arith,
                (
                  omega arith,
                  (
                    omega arith,
                    (
                      omega arith,
                      (
                        omega arith,
                        (omega arith, (omega arith, (omega arith, (omega arith, refl)))),
                      ),
                    ),
                  ),
                ),
              ),
            ),
          ),
        ),
      ),
    ),
  ),
)

from_text-text :
    (b : List ℕ) → length b ≡ 16 → AreBytes b → from_text (to_string (uuid128 b)) ≡ uuid128 b
unfolding from_text to_string
from_text-text b l bytes = ap uuid128 (text_bytes b l (AreBytes-get_or b bytes))

-- The text of a UUID is read as its 128-bit form.
pub from_text-to_string : (u : Uuid) → IsUuid u → from_text (to_string u) ≡ to128 u
unfolding to128
from_text-to_string unset h = absurd cc
from_text-to_string (uuid16 v) h =
    ap from_text (sym (to_string-to128 (uuid16 v) h))
    ∙ from_text-text _ refl
        (short_bytes _ _ _ _ (omega arith) (omega arith) (omega arith) (omega arith))
from_text-to_string (uuid32 v) h =
    ap from_text (sym (to_string-to128 (uuid32 v) h))
    ∙ from_text-text _ refl
        (short_bytes _ _ _ _ (omega arith) (omega arith) (omega arith) (omega arith))
from_text-to_string (uuid128 b) h = from_text-text b h.0 h.1
