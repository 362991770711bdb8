-- ===== src/Base/Losses.antt =====
-- A sequence with elements left out, in order.
use mathlib.Core.List.{List, [], ◌∷◌, ◌++◌}

-- `Lossy xs ys`: `xs` is `ys` without some of its elements.
pub data Lossy {ℓ} {A : Type ℓ} : List A → List A → Type ℓ where
  done : Lossy [] []
  lost : {y : A} {xs ys : List A} → Lossy xs ys → Lossy xs (y ∷ ys)
  kept : {x : A} {xs ys : List A} → Lossy xs ys → Lossy (x ∷ xs) (x ∷ ys)

module _ {ℓ} {A : Type ℓ} where
  pub Lossy-refl : (xs : List A) → Lossy xs xs
  Lossy-refl [] = Lossy.done
  Lossy-refl (x ∷ xs) = Lossy.kept (Lossy-refl xs)

  pub Lossy-nil : (xs : List A) → Lossy [] xs
  Lossy-nil [] = Lossy.done
  Lossy-nil (x ∷ xs) = Lossy.lost (Lossy-nil xs)

  compose : {ys zs : List A} → Lossy ys zs → {xs : List A} → Lossy xs ys → Lossy xs zs
  compose Lossy.done a = a
  compose (Lossy.lost b) a = Lossy.lost (compose b a)
  compose (Lossy.kept b) (Lossy.lost a) = Lossy.lost (compose b a)
  compose (Lossy.kept b) (Lossy.kept a) = Lossy.kept (compose b a)

  pub Lossy-trans : {xs ys zs : List A} → Lossy xs ys → Lossy ys zs → Lossy xs zs
  Lossy-trans a b = compose b a

  pub Lossy-append :
      {xs xs' ys ys' : List A} → Lossy xs xs' → Lossy ys ys' → Lossy (xs ++ ys) (xs' ++ ys')
  Lossy-append Lossy.done b = b
  Lossy-append (Lossy.lost a) b = Lossy.lost (Lossy-append a b)
  Lossy-append (Lossy.kept a) b = Lossy.kept (Lossy-append a b)
