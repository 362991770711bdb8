-- ===== src/Ble/UuidRefusals.antt =====
-- The texts that `BLEUUID` does not read as UUIDs: one that it refuses, and one that it overruns.
use jedge.Base.{
  ℕ, suc, ◌+◌, ◌-◌, ◌*◌, ◌<◌, ◌≡◌, ◌==◌, leb, if◌then◌else◌, false, List, [], ◌∷◌, length, get_or,
  replicate, arith, refl, ap, ◌∙◌, length-set,
}
use jedge.Ble.Hex.{dash, pair}
use jedge.Ble.Uuid.{put_down, long_pairs, from_text, from_string, has_prefix_in}
use jedge.Ble.Uuid.Uuid.{unset, uuid128}

-- `fromString` takes away a leading "0x" to find the length of the UUID, and then reads the whole
-- text: every UUID of 36 characters with that prefix is refused.
from_string-prefixed : (s : List ℕ) → length s ≡ 36 → from_string (48 ∷ 120 ∷ s) ≡ unset
unfolding from_string from_text has_prefix_in
from_string-prefixed s l = rw l refl

length-put_down :
    (n v : ℕ) (b : List ℕ)
    → length b ≡ (if leb n 16 then 16 else n)
    → length (put_down n v b) ≡ (if leb (n + 1) 16 then 16 else n + 1)
length-put_down n v b l = ground (arith, length-set b (15 - n) v)

long_pairs-length :
    (s : List ℕ) (n : ℕ) (b : List ℕ)
    → ((i : ℕ) → i < length s → (get_or s i 0 == dash) ≡ false)
    → length b ≡ (if leb n 16 then 16 else n)
    → 2 * n + length s ≡ 36
    → length (long_pairs s n b) ≡ 18
unfolding long_pairs
long_pairs-length [] n b plain l total = ground arith
long_pairs-length (c ∷ []) n b plain l total = absurd (omega arith)
long_pairs-length (c ∷ d ∷ []) n b plain l total = rw (plain 0 (omega arith)) (
    length-put_down n (pair c d) b l
    ∙ (let full : n + 1 ≡ 18 = omega arith in ap (λ k. if leb k 16 then 16 else k) full))
long_pairs-length (c ∷ d ∷ e ∷ s) n b plain l total = rw (plain 0 (omega arith)) (
    long_pairs-length (e ∷ s) (n + 1) (put_down n (pair c d) b)
      (λ i below. plain (suc (suc i)) (omega arith)) (length-put_down n (pair c d) b l)
      (omega arith))

-- A text of 36 characters without a dash has 18 pairs of digits, and two of them are written below
-- the 16 bytes of the UUID: 18 bytes are written.
from_text-overruns :
    (s : List ℕ)
    → length s ≡ 36
    → ((i : ℕ) → i < length s → (get_or s i 0 == dash) ≡ false)
    → (b : List ℕ) × (from_text s ≡ uuid128 b) × (length b ≡ 18)
unfolding from_text
from_text-overruns s l plain = (
  long_pairs s 0 (replicate 16 0),
  rw l refl,
  long_pairs-length s 0 (replicate 16 0) plain refl (omega arith),
)
