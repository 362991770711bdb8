-- ===== src/Ble/Payload.antt =====
-- The loop of `parseAdvertisement` against the format of advertisements.
use jedge.Base.{
  ℕ, zero, suc, ◌+◌, ◌-◌, ◌%◌, ◌≤◌, ◌<◌, ◌≡◌, ◌==◌, leb, if◌then◌else◌, true, false, List, [], ◌∷◌,
  ◌++◌, length, take, drop, some, arith, refl, ap, ◌∙◌, inl, inr, Bool-cases, length-append,
}
use mathlib.Core.List.{append_assoc}
use jedge.Ble.Uuid.{Uuid, equals, to128}
use jedge.Ble.UuidText.{IsUuid, equals-to128}
use jedge.Ble.Advertised.{
  Device, set_payload, set_service_uuid, any_equals, is_advertising_service, read_record,
  parse_loop, parse_advertisement, set_name,
}
use jedge.Ble.Record.{Part, encode, min_size, IsWhole, read_parts, read_record-append}

-- One round of the loop, on a record.
parse_loop-element :
    (ty : ℕ) (s t : List ℕ) (fuel size total : ℕ) (d : Device)
    → min_size ty ≤ length s
    → parse_loop (suc fuel) ((length s + 1) ∷ ty ∷ (s ++ t)) size total d ≡ (
        if leb total ((size + 1 + (length s + 1)) % 256)
        then some (read_record ty (length s) s d)
        else parse_loop fuel t
            ((size + 1 + (length s + 1)) % 256)
            total
            (read_record ty (length s) s d))
unfolding parse_loop
parse_loop-element ty s t fuel size total d h =
    let more : (length s + 1 == 0) ≡ false = ground arith in
    let n : length s + 1 - 1 ≡ length s = omega arith in
    rw more (rw n (rw (drop-append_all s t, read_record-append ty s t d h) refl))
  where
    drop-append_all : (s t : List ℕ) → drop (length s) (s ++ t) ≡ t
    drop-append_all [] t = refl
    drop-append_all (x ∷ s) t = drop-append_all s t

length-encode : (rs : List Part) → 0 < length rs → 0 < length (encode rs)
length-encode [] h = h
length-encode (Part.padding ∷ rs) h = omega arith
length-encode (Part.element ty data_ ∷ rs) h = omega arith

element_round :
    (ty : ℕ) (s : List ℕ) (rs : List Part) (rest : List ℕ) (fuel size total : ℕ) (d : Device)
    → min_size ty ≤ length s
    → size + length (encode (Part.element ty s ∷ rs)) ≡ total
    → total < 256
    → parse_loop (suc fuel) (encode (Part.element ty s ∷ rs) ++ rest) size total d ≡ (
        if leb total (size + 1 + (length s + 1))
        then some (read_record ty (length s) s d)
        else parse_loop fuel
            (encode rs ++ rest)
            (size + 1 + (length s + 1))
            total
            (read_record ty (length s) s d))
element_round ty s rs rest fuel size total d h sum small =
    let l = length-append s (encode rs) in
    let n : (size + 1 + (length s + 1)) % 256 ≡ size + 1 + (length s + 1) = omega arith in
    ap (λ t. parse_loop (suc fuel) ((length s + 1) ∷ ty ∷ t) size total d)
      (append_assoc s (encode rs) rest)
    ∙ parse_loop-element ty s (encode rs ++ rest) fuel size total d h
    ∙ rw n refl

parse_loop-encode :
    (rs : List Part) (rest : List ℕ) (fuel size total : ℕ) (d : Device)
    → 0 < length rs
    → IsWhole rs
    → length rs ≤ fuel
    → size + length (encode rs) ≡ total
    → total < 256
    → parse_loop fuel (encode rs ++ rest) size total d ≡ some (read_parts rs d)
unfolding parse_loop
parse_loop-encode [] rest fuel size total d some_parts whole enough sum small = absurd (omega arith)
parse_loop-encode (r ∷ rs) rest zero size total d some_parts whole enough sum small =
    absurd (omega arith)
parse_loop-encode (Part.padding ∷ []) rest (suc fuel) size total d some_parts whole enough sum
      small =
    let done : leb total ((size + 1 + 0) % 256) ≡ true = ground arith in rw done refl
parse_loop-encode (Part.padding ∷ r ∷ rs) rest (suc fuel) size total d some_parts whole enough sum
      small =
    let l = length-encode (r ∷ rs) (omega arith) in
    let n : (size + 1 + 0) % 256 ≡ size + 1 = omega arith in
    let go_on : leb total (size + 1) ≡ false = ground arith in
    rw n (
      rw go_on (
        parse_loop-encode (r ∷ rs) rest fuel (size + 1) total d (omega arith) whole (omega arith)
          (omega arith) small))
parse_loop-encode (Part.element ty s ∷ []) rest (suc fuel) size total d some_parts whole enough sum
      small =
    let l = length-append s [] in
    let done : leb total (size + 1 + (length s + 1)) ≡ true = ground arith in
    element_round ty s [] rest fuel size total d whole.0 sum small ∙ rw done refl
parse_loop-encode (Part.element ty s ∷ r ∷ rs) rest (suc fuel) size total d some_parts whole enough
      sum small =
    let l = length-append s (encode (r ∷ rs)) in
    let more = length-encode (r ∷ rs) (omega arith) in
    let go_on : leb total (size + 1 + (length s + 1)) ≡ false = ground arith in
    element_round ty s (r ∷ rs) rest fuel size total d whole.0 sum small
    ∙ rw go_on (
        parse_loop-encode (r ∷ rs) rest fuel (size + 1 + (length s + 1)) total
          (read_record ty (length s) s d) (omega arith) whole.1 (omega arith) (omega arith) small)

-- `parseAdvertisement` reads a well-formed payload record by record, each by its own data: for at
-- least one record or byte of padding, at most 255 bytes, data as long as their types need, and
-- enough fuel, it ends, and the device is what the records make of it in turn, whatever memory
-- follows. A byte of padding is passed over and does not end the payload.
pub parse_advertisement-encode :
    (rs : List Part) (rest : List ℕ) (fuel : ℕ) (d : Device)
    → 0 < length rs
    → IsWhole rs
    → length rs ≤ fuel
    → length (encode rs) < 256
    → parse_advertisement fuel (encode rs ++ rest) (length (encode rs)) d
      ≡ some (read_parts rs (set_payload (encode rs ++ rest) (length (encode rs)) d))
unfolding parse_advertisement
parse_advertisement-encode rs rest fuel d some_parts whole enough small =
    parse_loop-encode rs rest fuel 0 (length (encode rs)) _ some_parts whole enough (omega arith)
      small

-- The length of a record is not checked against the payload's: a name whose length says that it
-- goes on past the end of the payload is read from the memory there.
pub parse_advertisement-overreads :
    (n total fuel : ℕ) (memory : List ℕ) (d : Device)
    → 0 < total
    → total < n + 2
    → n + 2 < 256
    → parse_advertisement (suc fuel) ((n + 1) ∷ 0x09 ∷ memory) total d
      ≡ some (set_name (take n memory) (set_payload ((n + 1) ∷ 0x09 ∷ memory) total d))
unfolding parse_advertisement parse_loop read_record
parse_advertisement-overreads n total fuel memory d some_bytes beyond small =
    let more : (n + 1 == 0) ≡ false = ground arith in
    let m : n + 1 - 1 ≡ n = omega arith in
    let done : leb total ((0 + 1 + (n + 1)) % 256) ≡ true = ground arith in
    rw done (rw more (rw m refl))

-- A service UUID that was found is advertised, in its own form and in its 128-bit form, whatever was
-- found before it.
set_service_uuid-advertises :
    (u : Uuid) (d : Device)
    → IsUuid u
    → is_advertising_service (to128 u) (set_service_uuid u d) ≡ true
unfolding is_advertising_service any_equals
set_service_uuid-advertises u d h = last d.service_uuids
  where
    last : (us : List Uuid) → any_equals (to128 u) (us ++ u ∷ []) ≡ true
    last [] = let e = equals-to128 u h in rw e refl
    last (v ∷ us) = elim (Bool-cases (equals v (to128 u))) [
      | inl e ↦ rw e refl
      | inr e ↦ rw e (last us)
    ]
