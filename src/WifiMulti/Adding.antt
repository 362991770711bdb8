-- ===== src/WifiMulti/Adding.antt =====
-- What `addAP` takes into the list.
use jedge.Base.{
  ℕ, ◌≤◌, ◌<◌, ◌≡◌, ◌==◌, ltb, Bool, true, false, ◌||◌, List, [], ◌∷◌, ◌++◌, length, Option, none,
  some, arith, refl, ◌⊎◌, inl, inr, Bool-cases,
}
use jedge.WifiMulti.Wifi.{Ap}
use jedge.WifiMulti.ApList.{add_ap, add_named, is_long}

-- the text of a passphrase, of which a null pointer has none
abbrev pub text_of : Option (List ℕ) → List ℕ
text_of none = []
text_of (some p) = p

-- an empty passphrase counts as none
abbrev pub kept : List ℕ → Option (List ℕ)
kept [] = none
kept (c ∷ p) = some (c ∷ p)

-- Why an entry is refused: there is no name, or one that is empty or longer than 31 bytes; a
-- passphrase longer than 63 bytes; no memory for the name, or none for a passphrase.
abbrev pub IsRefused : Option (List ℕ) → List ℕ → Bool → Bool → Type 0
IsRefused ssid passphrase name_copied copied =
    (ssid ≡ none)
    ⊎ ((s : List ℕ) × (ssid ≡ some s) × ((length s ≡ 0) ⊎ (31 < length s)))
    ⊎ (63 < length passphrase)
    ⊎ (name_copied ≡ false)
    ⊎ (0 < length passphrase) × (copied ≡ false)

-- The entry is added as it was given.
abbrev pub IsAdded : Option (List ℕ) → List ℕ → Bool → Bool → List Ap → Bool × List Ap → Type 0
IsAdded ssid passphrase name_copied copied aps r =
    (s : List ℕ) × (ssid ≡ some s)
    × (0 < length s)
    × (length s ≤ 31)
    × (length passphrase ≤ 63)
    × (name_copied ≡ true)
    × ((length passphrase ≡ 0) ⊎ (copied ≡ true))
    × (r ≡ (true, aps ++ (record { ssid = s; passphrase = kept passphrase }) ∷ []))

named-IsAdded :
    (s : List ℕ) (passphrase : Option (List ℕ)) (copied : Bool) (aps : List Ap)
    → length (text_of passphrase) ≤ 63
    → 0 < length s
    → length s ≤ 31
    → IsAdded (some s) (text_of passphrase) true copied aps (add_named s passphrase copied aps)
      ⊎ IsRefused (some s) (text_of passphrase) true copied
        × (add_named s passphrase copied aps ≡ (false, aps))
named-IsAdded s none copied aps h a b = inl (s, refl, a, b, h, refl, inl refl, refl)
named-IsAdded s (some []) copied aps h a b = inl (s, refl, a, b, h, refl, inl refl, refl)
named-IsAdded s (some (c ∷ p)) true aps h a b = inl (s, refl, a, b, h, refl, inr refl, refl)
named-IsAdded s (some (c ∷ p)) false aps h a b =
    inr (inr (inr (inr (inr (omega arith, refl)))), refl)

is_long_cases :
    (p : Option (List ℕ))
    → (is_long p ≡ true) × (63 < length (text_of p))
      ⊎ (is_long p ≡ false) × (length (text_of p) ≤ 63)
is_long_cases none = inr (refl, omega arith)
is_long_cases (some p) = ground arith

-- addAP returns true exactly where the name has 1 to 31 bytes, the passphrase is null or has at most
-- 63 bytes, and there is memory for the name and for a passphrase that is not empty; the list then
-- ends in an entry with that name and that passphrase, which is null where it was empty. Otherwise
-- it returns false and the list is as it was.
pub add_ap-outcomes :
    (ssid passphrase : Option (List ℕ)) (name_copied copied : Bool) (aps : List Ap)
    → IsAdded ssid
        (text_of passphrase)
        name_copied
        copied
        aps
        (add_ap ssid passphrase name_copied copied aps)
      ⊎ IsRefused ssid (text_of passphrase) name_copied copied
        × (add_ap ssid passphrase name_copied copied aps ≡ (false, aps))
unfolding add_ap
add_ap-outcomes none passphrase name_copied copied aps = inr (inl refl, refl)
add_ap-outcomes (some s) passphrase name_copied copied aps =
    elim (Bool-cases ((length s == 0) || ltb 31 (length s))) [
      | inl bad ↦ rw bad (inr (inr (inl (s, refl, ground arith)), refl))
      | inr good ↦ elim (is_long_cases passphrase) [
        | inl (long, more) ↦ rw (good, long) (inr (inr (inr (inl more)), refl))
        | inr (short, fits) ↦ elim (Bool-cases name_copied) [
          | inr full ↦ rw (good, short, full) (inr (inr (inr (inr (inl refl))), refl))
          | inl copy ↦
              rw (good, short, copy)
                (named-IsAdded s passphrase copied aps fits (ground arith) (ground arith))
        ]
      ]
    ]
