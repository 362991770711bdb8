-- ===== src/Eeprom/Encoding.antt =====
-- The values of `EEPROMClass` in memory: little-endian bytes, two's complement.
use jedge.Base.{
  ℕ, zero, suc, ◌+◌, ◌-◌, ◌*◌, ◌/◌, ◌%◌, ◌^◌, ◌<◌, ◌≡◌, ltb, if◌then◌else◌, List, [], ◌∷◌, length,
  ℤ, pos, negsuc, arith, refl, ap,
}
use native.Mathlib.Nat.{pow-suc, mod-eq_of_lt, mod-lt}

-- the `n` bytes of an unsigned number, and back
unfoldable pub to_bytes : ℕ → ℕ → List ℕ
to_bytes zero v = []
to_bytes (suc n) v = (v % 256) ∷ to_bytes n (v / 256)

unfoldable pub from_bytes : List ℕ → ℕ
from_bytes [] = 0
from_bytes (b ∷ bs) = b + 256 * from_bytes bs

-- the number of values of `n` bytes
abbrev pub values : ℕ → ℕ
values n = 256 ^ n

-- the bit pattern of a signed number of `n` bytes, and back
unfoldable pub to_pattern : ℕ → ℤ → ℕ
to_pattern n (pos v) = v % values n
to_pattern n (negsuc v) = values n - 1 - v % values n

unfoldable pub from_pattern : ℕ → ℕ → ℤ
from_pattern n v = if ltb v (values n / 2) then pos v else negsuc (values n - 1 - v)

pub length-to_bytes : (n v : ℕ) → length (to_bytes n v) ≡ n
unfolding to_bytes
length-to_bytes zero v = refl
length-to_bytes (suc n) v = ap suc (length-to_bytes n (v / 256))

-- A number that fits `n` bytes is read back from them.
pub from_bytes-to_bytes : (n v : ℕ) → v < values n → from_bytes (to_bytes n v) ≡ v
unfolding to_bytes from_bytes
from_bytes-to_bytes zero v h = omega arith
from_bytes-to_bytes (suc n) v h =
    let e : values (suc n) ≡ values n * 256 = pow-suc 256 n in
    omega (arith, from_bytes-to_bytes n (v / 256) (omega arith))

pattern_of_pos :
    (m v : ℕ)
    → v < m / 2
    → (if ltb (v % m) (m / 2) then pos (v % m) else negsuc (m - 1 - v % m)) ≡ pos v
pattern_of_pos m v h =
    let small : v < m = omega arith in let e : v % m ≡ v = mod-eq_of_lt small in rw e (ground arith)

pattern_of_negsuc :
    (k m v : ℕ)
    → m ≡ 2 * k
    → v < k
    → (let r = m - 1 - v % m in if ltb r (m / 2) then pos r else negsuc (m - 1 - r)) ≡ negsuc v
pattern_of_negsuc k m v even h =
    let small : v < m = omega arith in let e : v % m ≡ v = mod-eq_of_lt small in rw e (ground arith)

-- The range of a signed number of `n` bytes.
abbrev pub FitsSigned : ℕ → ℤ → Type 0
FitsSigned n (pos v) = v < values n / 2
FitsSigned n (negsuc v) = v < values n / 2

-- A signed number that fits its bytes is read back from its pattern.
pub from_pattern-to_pattern :
    (n : ℕ) (z : ℤ) → FitsSigned (suc n) z → from_pattern (suc n) (to_pattern (suc n) z) ≡ z
unfolding to_pattern from_pattern
from_pattern-to_pattern n (pos v) h = pattern_of_pos (values (suc n)) v h
from_pattern-to_pattern n (negsuc v) h =
    let e : values (suc n) ≡ values n * 256 = pow-suc 256 n in
    pattern_of_negsuc (128 * values n) (values (suc n)) v (omega arith) (omega arith)

pub to_pattern-lt : (n : ℕ) (z : ℤ) → 0 < values n → to_pattern n z < values n
unfolding to_pattern
to_pattern-lt n (pos v) h = mod-lt _ h
to_pattern-lt n (negsuc v) h = omega arith
