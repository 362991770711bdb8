-- ===== src/Base/Memory.antt =====
-- The bytes of a buffer after a copy into it, one by one.
use Prim.Native.Nat.{ℕ, zero, suc, ◌+◌, ◌-◌, ◌≤◌, ◌<◌}
use mathlib.Core.Path.{◌≡◌, refl, ap, ap₂, ◌∙◌}
use mathlib.Core.List.{List, [], ◌∷◌, ◌++◌, append-nil}
use native.Mathlib.Omega.{arith}
use jedge.Base.Lists.{
  length, get_or, take, drop, memcpy, length-take, length-drop, get_or-append, get_or-take,
  get_or-drop, drop_all,
}

module _ {ℓ} {A : Type ℓ} where
  pub get_or-append_right :
      (xs ys : List A) (k : ℕ) (d : A)
      → length xs ≤ k
      → get_or (xs ++ ys) k d ≡ get_or ys (k - length xs) d
  get_or-append_right [] ys k d h = let e : k ≡ k - 0 = omega arith in ap (λ j. get_or ys j d) e
  get_or-append_right (x ∷ xs) ys zero d h = absurd (omega arith)
  get_or-append_right (x ∷ xs) ys (suc k) d h =
      let e : k - length xs ≡ suc k - suc (length xs) = omega arith in
      get_or-append_right xs ys k d (omega arith) ∙ ap (λ j. get_or ys j d) e

  -- Two lists of one length with the same elements are equal.
  pub list_ext :
      (xs ys : List A) (d : A)
      → length xs ≡ length ys
      → ((k : ℕ) → k < length xs → get_or xs k d ≡ get_or ys k d)
      → xs ≡ ys
  list_ext [] [] d e h = refl
  list_ext [] (y ∷ ys) d e h = absurd (omega arith)
  list_ext (x ∷ xs) [] d e h = absurd (omega arith)
  list_ext (x ∷ xs) (y ∷ ys) d e h =
      ap₂ ◌∷◌ (h 0 (omega arith))
        (list_ext xs ys d (omega arith) (λ k below. h (suc k) (omega arith)))

  -- The bytes after a copy: those copied in their range, the old ones beside it.
  pub get_or-memcpy_in :
      (dst : List A) (off : ℕ) (src : List A) (i : ℕ) (d : A)
      → off ≤ length dst
      → off ≤ i
      → i < off + length src
      → get_or (memcpy dst off src) i d ≡ get_or src (i - off) d
  get_or-memcpy_in dst off src i d h above below =
      let l = length-take off dst in
      let e : i - length (take off dst) ≡ i - off = omega arith in
      get_or-append_right (take off dst) (src ++ drop (off + length src) dst) i d (omega arith)
      ∙ ap (λ j. get_or (src ++ drop (off + length src) dst) j d) e
      ∙ get_or-append src (drop (off + length src) dst) (i - off) d (omega arith)

  pub get_or-memcpy_below :
      (dst : List A) (off : ℕ) (src : List A) (i : ℕ) (d : A)
      → off ≤ length dst
      → i < off
      → get_or (memcpy dst off src) i d ≡ get_or dst i d
  get_or-memcpy_below dst off src i d h below =
      get_or-append (take off dst) (src ++ drop (off + length src) dst) i d
        (omega (arith, length-take off dst))
      ∙ get_or-take off dst i d below

  pub get_or-memcpy_above :
      (dst : List A) (off : ℕ) (src : List A) (i : ℕ) (d : A)
      → off ≤ length dst
      → off + length src ≤ i
      → get_or (memcpy dst off src) i d ≡ get_or dst i d
  get_or-memcpy_above dst off src i d h above =
      let l = length-take off dst in
      let rest = drop (off + length src) dst in
      let e : i - length (take off dst) ≡ i - off = omega arith in
      let e' : off + length src + (i - off - length src) ≡ i = omega arith in
      get_or-append_right (take off dst) (src ++ rest) i d (omega arith)
      ∙ ap (λ j. get_or (src ++ rest) j d) e
      ∙ get_or-append_right src rest (i - off) d (omega arith)
      ∙ get_or-drop (off + length src) dst (i - off - length src) d
      ∙ ap (λ j. get_or dst j d) e'

  -- `n` elements from `a` on
  pub get_or-slice :
      (xs : List A) (a n k : ℕ) (d : A)
      → k < n
      → get_or (take n (drop a xs)) k d ≡ get_or xs (a + k) d
  get_or-slice xs a n k d h = get_or-take n (drop a xs) k d h ∙ get_or-drop a xs k d

  pub length-slice : (xs : List A) (a n : ℕ) → a + n ≤ length xs → length (take n (drop a xs)) ≡ n
  length-slice xs a n h = omega (arith, length-take n (drop a xs), length-drop a xs)

  pub take_all : (n : ℕ) (xs : List A) → length xs ≤ n → take n xs ≡ xs
  take_all zero [] h = refl
  take_all zero (x ∷ xs) h = absurd (omega arith)
  take_all (suc n) [] h = refl
  take_all (suc n) (x ∷ xs) h = ap (λ l. x ∷ l) (take_all n xs (omega arith))

  -- A copy over the whole of a buffer.
  pub memcpy_all : (dst src : List A) → length src ≡ length dst → memcpy dst 0 src ≡ src
  memcpy_all dst src h =
      ap (λ l. src ++ l) (drop_all (0 + length src) dst (omega arith)) ∙ append-nil src
