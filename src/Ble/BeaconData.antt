-- ===== src/Ble/BeaconData.antt =====
-- What the beacon classes send and receive.
use jedge.Base.{
  ℕ, suc, ◌+◌, ◌-◌, ◌*◌, ◌/◌, ◌%◌, ◌^◌, ◌<◌, ◌≡◌, ltb, false, List, [], ◌∷◌, ◌++◌, length, get_or,
  take, drop, replicate, some, arith, refl, ap, ◌∙◌, take_all, length-append, get_or-drop,
  get_or-append,
}
use jedge.Ble.Uuid.{Uuid, to128, from_memory}
use jedge.Ble.Uuid.Uuid.{unset, uuid16, uuid32, uuid128}
use jedge.Ble.UuidText.{AreBytes, AreBytes-get_or, IsUuid}
use jedge.Ble.Advertised.{number16, number32}
use jedge.Ble.EddystoneUrl.{
  EddystoneUrl, set_data, set_url, scheme_text, url_piece, decode_from, get_decoded_url,
}
use jedge.Ble.EddystoneTlm.{
  endian_change_u16, endian_change_u32, EddystoneTlm, tlm_set_data, get_volt, get_count, get_time,
  set_volt, Beacon, get_proximity_uuid, set_proximity_uuid,
}

number16_at :
    (k : ℕ) (s : List ℕ) → number16 (drop k s) ≡ get_or s (k + 0) 0 + get_or s (k + 1) 0 * 256
number16_at k s = rw (get_or-drop k s 0 0, get_or-drop k s 1 0) refl

number32_at :
    (k : ℕ) (s : List ℕ)
    → number32 (drop k s)
      ≡ get_or s (k + 0) 0
        + get_or s (k + 1) 0 * 256
        + (get_or s (k + 2) 0 + get_or s (k + 3) 0 * 256) * 65536
number32_at k s =
    let hi = get_or-drop 2 (drop k s) 0 0 ∙ get_or-drop k s 2 0 in
    let top = get_or-drop 2 (drop k s) 1 0 ∙ get_or-drop k s 3 0 in
    rw (get_or-drop k s 0 0, get_or-drop k s 1 0, hi, top) refl

-- A number whose bytes are exchanged.
change16 : (a b : ℕ) → a < 256 → b < 256 → endian_change_u16 (a + b * 256) ≡ a * 256 + b
unfolding endian_change_u16
change16 a b ha hb = omega arith

change32 :
    (a b c d : ℕ)
    → a < 256
    → b < 256
    → c < 256
    → d < 256
    → endian_change_u32 (a + b * 256 + (c + d * 256) * 65536) ≡ ((a * 256 + b) * 256 + c) * 256 + d
unfolding endian_change_u32
change32 a b c d ha hb hc hd = omega arith

-- The fields of a telemetry frame that was received are read with the most significant byte first.
tlm_fields :
    (s : List ℕ) (t : EddystoneTlm)
    → AreBytes s
    → length s ≡ 14
    → ((tlm_set_data s t).version ≡ get_or s 1 0)
      × (get_volt (tlm_set_data s t) ≡ get_or s 2 0 * 256 + get_or s 3 0)
      × (get_count (tlm_set_data s t)
          ≡ ((get_or s 6 0 * 256 + get_or s 7 0) * 256 + get_or s 8 0) * 256 + get_or s 9 0)
      × (get_time (tlm_set_data s t)
          ≡ (((get_or s 10 0 * 256 + get_or s 11 0) * 256 + get_or s 12 0) * 256 + get_or s 13 0)
            / 10)
unfolding tlm_set_data get_volt get_count get_time
tlm_fields s t h l =
    let at = AreBytes-get_or s h in
    let count_at : (k : ℕ)
        → endian_change_u32 (number32 (drop k s))
          ≡ ((get_or s (k + 0) 0 * 256 + get_or s (k + 1) 0) * 256 + get_or s (k + 2) 0) * 256
            + get_or s (k + 3) 0 =
      λ k.
        ap endian_change_u32 (number32_at k s)
        ∙ change32 (get_or s (k + 0) 0) (get_or s (k + 1) 0) (get_or s (k + 2) 0)
            (get_or s (k + 3) 0) (at (k + 0)) (at (k + 1)) (at (k + 2)) (at (k + 3)) in
    rw l (
      refl,
      ap endian_change_u16 (number16_at 2 s) ∙ change16 (get_or s 2 0) (get_or s 3 0) (at 2) (at 3),
      count_at 6,
      ap (λ n. n / 10) (count_at 10),
    )

-- What `setVolt` stores is read by `getVolt` with its bytes exchanged.
get_volt-set_volt :
    (v : ℕ) (t : EddystoneTlm) → v < 2 ^ 16 → get_volt (set_volt v t) ≡ v / 256 + v % 256 * 256
unfolding get_volt endian_change_u16
get_volt-set_volt v t h = omega arith

-- The proximity UUID of a beacon is the one that was set, in its 128-bit form.
get_proximity_uuid-set_proximity_uuid :
    (u : Uuid) (b : Beacon)
    → IsUuid u
    → (b' : Beacon) × (set_proximity_uuid u b ≡ some b') × (get_proximity_uuid b' ≡ to128 u)
unfolding set_proximity_uuid get_proximity_uuid from_memory to128
get_proximity_uuid-set_proximity_uuid unset b h = absurd cc
get_proximity_uuid-set_proximity_uuid (uuid16 v) b h = (_, refl, refl)
get_proximity_uuid-set_proximity_uuid (uuid32 v) b h = (_, refl, refl)
get_proximity_uuid-set_proximity_uuid (uuid128 s) b h =
    let whole = take_all 16 s (omega (arith, h.0)) in
    (_, refl, ap uuid128 (ap (take 16) whole ∙ whole))

-- What the bytes after the first of a URL stand for.
abbrev pub pieces : List ℕ → List ℕ
pieces [] = []
pieces (c ∷ s) = url_piece c ++ pieces s

decode_from_lem :
    (s memory : List ℕ) (i : ℕ)
    → ((k : ℕ) → k < length s → get_or memory (i + k) 0 ≡ get_or s k 0)
    → decode_from i (length s) memory ≡ pieces s
unfolding decode_from
decode_from_lem [] memory i same = refl
decode_from_lem (c ∷ s) memory i same =
    let here : get_or memory i 0 ≡ c =
      let e : i ≡ i + 0 = omega arith in ap (λ j. get_or memory j 0) e ∙ same 0 (omega arith) in
    rw here (
      ap (λ t. url_piece c ++ t)
        (decode_from_lem s memory (i + 1) λ k below.
          let e : i + 1 + k ≡ i + suc k = omega arith in
          ap (λ j. get_or memory j 0) e ∙ same (suc k) (omega arith)))

-- A URL of up to 16 bytes that was set is decoded byte for byte, whatever memory follows.
pub get_decoded_url-pieces :
    (c : ℕ) (s beyond : List ℕ) (b : EddystoneUrl)
    → length s < 16
    → get_decoded_url beyond (set_url (c ∷ s) b) ≡ scheme_text c ++ pieces s
unfolding get_decoded_url set_url
get_decoded_url-pieces c s beyond b h =
    let fits : ltb 16 (suc (length s)) ≡ false = ground arith in
    let n : suc (length s) - 1 ≡ length s = omega arith in
    let pad : List ℕ = drop (0 + suc (length s)) (replicate 16 0) in
    let at : (k : ℕ) → k < length s → get_or (c ∷ (s ++ pad ++ beyond)) (1 + k) 0 ≡ get_or s k 0 =
      λ k below.
        let e : 1 + k ≡ suc k = omega arith in
        ap (λ j. get_or (c ∷ (s ++ pad ++ beyond)) j 0) e
        ∙ get_or-append (s ++ pad) beyond k 0 (omega (arith, length-append s pad))
        ∙ get_or-append s pad k 0 below in
    rw fits
      (rw n (ap (λ t. scheme_text c ++ t) (decode_from_lem s (c ∷ (s ++ pad ++ beyond)) 1 at)))

-- A frame of less than two bytes makes the length of the URL wrap, far beyond its 16 bytes.
set_data-short :
    (s : List ℕ) (b : EddystoneUrl) → length s < 2 → (set_data s b).length_url ≡ 254 + length s
unfolding set_data
set_data-short s b h = ground arith
