-- ===== src/Ble/Record.antt =====
-- The format of advertisements, and the records of `parseAdvertisement` by their own data.
use jedge.Base.{
  ℕ, zero, suc, ◌+◌, ◌-◌, ◌*◌, ◌/◌, ◌≤◌, ◌≡◌, ◌==◌, ltb, if◌then◌else◌, Bool, true, false, ◌||◌,
  List, [], ◌∷◌, ◌++◌, length, take, drop, arith, refl, ap, ◌∙◌, get_or-append, take-append,
  drop-append, length-drop,
}
use jedge.Ble.Uuid.{Uuid, from_memory}
use jedge.Ble.Uuid.Uuid.{uuid16, uuid32, uuid128}
use jedge.Ble.Advertised.{
  Device, set_service_uuid, services16, services32, number16, number32, service_data_at,
  read_record, set_name, set_manufacturer_data, set_tx_power, set_ad_flag, set_appearance,
  set_service_data, set_service_data_uuid,
}

-- What a payload is made of: a record of a type and data, or a byte of padding.
pub data Part : Type 0 where
  padding : Part
  element : ℕ → List ℕ → Part

abbrev pub encode_part : Part → List ℕ
encode_part Part.padding = 0 ∷ []
encode_part (Part.element ty data_) = (length data_ + 1) ∷ ty ∷ data_

abbrev pub encode : List Part → List ℕ
encode [] = []
encode (r ∷ rs) = encode_part r ++ encode rs

-- The data that a record of a type needs.
abbrev pub min_size : ℕ → ℕ
min_size ty =
    if (ty == 0x0A) || (ty == 0x01)
    then 1
    else if ty == 0x19
    then 2
    else if (ty == 0x07) || (ty == 0x06)
    then 16
    else 0

abbrev pub IsWhole : List Part → Type 0
IsWhole [] = true ≡ true
IsWhole (Part.padding ∷ rs) = IsWhole rs
IsWhole (Part.element ty data_ ∷ rs) = (min_size ty ≤ length data_) × IsWhole rs

-- What the records of a payload say, each by its own data.
abbrev pub read_parts : List Part → Device → Device
read_parts [] d = d
read_parts (Part.padding ∷ rs) d = read_parts rs d
read_parts (Part.element ty data_ ∷ rs) d = read_parts rs (read_record ty (length data_) data_ d)

if-agrees :
    {A : Type 0} {x x' y y' : A} (b : Bool)
    → (b ≡ true → x ≡ x')
    → (b ≡ false → y ≡ y')
    → (if b then x else y) ≡ (if b then x' else y')
if-agrees true f g = f refl
if-agrees false f g = g refl

number16-append : (s t : List ℕ) → 2 ≤ length s → number16 (s ++ t) ≡ number16 s
number16-append s t h =
    let a = get_or-append s t 0 0 (omega arith) in
    let b = get_or-append s t 1 0 (omega arith) in rw (a, b) refl

number32-append : (s t : List ℕ) → 4 ≤ length s → number32 (s ++ t) ≡ number32 s
number32-append s t h =
    let lo = number16-append s t (omega arith) in
    let hi =
      ap number16 (drop-append s t 2 (omega arith))
      ∙ number16-append (drop 2 s) t (omega (arith, length-drop 2 s)) in
    ap (λ a. a + number16 (drop 2 (s ++ t)) * 65536) lo ∙ ap (λ b. number16 s + b * 65536) hi

services16-append :
    (n : ℕ) (s t : List ℕ) (d : Device)
    → 2 * n ≤ length s
    → services16 n (s ++ t) d ≡ services16 n s d
unfolding services16
services16-append zero s t d h = refl
services16-append (suc n) s t d h =
    ap (λ p. services16 n p (set_service_uuid (uuid16 (number16 (s ++ t))) d))
      (drop-append s t 2 (omega arith))
    ∙ services16-append n (drop 2 s) t _ (omega (arith, length-drop 2 s))
    ∙ ap (λ v. services16 n (drop 2 s) (set_service_uuid (uuid16 v) d))
        (number16-append s t (omega arith))

services32-append :
    (n : ℕ) (s t : List ℕ) (d : Device)
    → 4 * n ≤ length s
    → services32 n (s ++ t) d ≡ services32 n s d
unfolding services32
services32-append zero s t d h = refl
services32-append (suc n) s t d h =
    ap (λ p. services32 n p (set_service_uuid (uuid32 (number32 (s ++ t))) d))
      (drop-append s t 4 (omega arith))
    ∙ services32-append n (drop 4 s) t _ (omega (arith, length-drop 4 s))
    ∙ ap (λ v. services32 n (drop 4 s) (set_service_uuid (uuid32 v) d))
        (number32-append s t (omega arith))

service_data_at-append :
    (n : ℕ) (u u' : Uuid) (s t : List ℕ) (d : Device)
    → (n ≤ length s → u ≡ u')
    → service_data_at n u (length s) (s ++ t) d ≡ service_data_at n u' (length s) s d
service_data_at-append n u u' s t d same =
    if-agrees (ltb (length s) n) (λ _. refl)
      λ enough.
        let e = same (ground arith) in
        let piece : n ≤ length s
            → take (length s - n) (drop n (s ++ t)) ≡ take (length s - n) (drop n s) =
          λ enough.
            ap (take (length s - n)) (drop-append s t n enough)
            ∙ take-append (drop n s) t (length s - n) (omega (arith, length-drop n s)) in
        rw e (
          if-agrees (ltb n (length s))
            (λ more.
              ap (λ p. set_service_data p (set_service_data_uuid u' d)) (piece (ground arith)))
            λ _. refl)

from_memory-append :
    (s t : List ℕ) → 16 ≤ length s → from_memory (s ++ t) 16 false ≡ from_memory s 16 false
unfolding from_memory
from_memory-append s t h = ap uuid128 (take-append s t 16 h)

-- A record is read from its own data, whatever follows.
pub read_record-append :
    (ty : ℕ) (s t : List ℕ) (d : Device)
    → min_size ty ≤ length s
    → read_record ty (length s) (s ++ t) d ≡ read_record ty (length s) s d
unfolding read_record
read_record-append ty s t d h =
    if-agrees (ty == 0x09) (λ _. ap (λ p. set_name p d) (take-append s t (length s) (omega arith)))
      λ _.
        if-agrees (ty == 0x0A)
          (λ e. ap (λ v. set_tx_power v d) (get_or-append s t 0 0 (ground arith)))
          λ _.
            if-agrees (ty == 0x19)
              (λ e. ap (λ v. set_appearance v d) (number16-append s t (ground arith)))
              λ _.
                if-agrees (ty == 0x01)
                  (λ e. ap (λ v. set_ad_flag v d) (get_or-append s t 0 0 (ground arith)))
                  λ _.
                    if-agrees ((ty == 0x03) || (ty == 0x02))
                      (λ _. services16-append (length s / 2) s t d (omega arith))
                      λ _.
                        if-agrees ((ty == 0x05) || (ty == 0x04))
                          (λ _. services32-append (length s / 4) s t d (omega arith))
                          λ _.
                            if-agrees ((ty == 0x07) || (ty == 0x06))
                              (λ e.
                                ap (λ u. set_service_uuid u d)
                                  (from_memory-append s t (ground arith)))
                              λ _.
                                if-agrees (ty == 0xFF)
                                  (λ _.
                                    ap (λ p. set_manufacturer_data p d)
                                      (take-append s t (length s) (omega arith)))
                                  λ _.
                                    if-agrees (ty == 0x16)
                                      (λ _.
                                        service_data_at-append 2 _ _ s t d
                                          (λ enough. ap uuid16 (number16-append s t enough)))
                                      λ _.
                                        if-agrees (ty == 0x20)
                                          (λ _.
                                            service_data_at-append 4 _ _ s t d
                                              (λ enough. ap uuid32 (number32-append s t enough)))
                                          λ _.
                                            if-agrees (ty == 0x21)
                                              (λ _.
                                                service_data_at-append 16 _ _ s t d
                                                  (λ enough. from_memory-append s t enough))
                                              λ _. refl
