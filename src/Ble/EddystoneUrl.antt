-- ===== src/Ble/EddystoneUrl.antt =====
-- `BLEEddystoneURL` of Essential Libraries/BLE/src/BLEEddystoneURL.cpp.
use jedge.Base.{
  ℕ, zero, suc, ◌+◌, ◌-◌, ◌%◌, ◌==◌, ltb, if◌then◌else◌, ◌&&◌, List, [], ◌∷◌, ◌++◌, length, get_or,
  drop, replicate, memcpy,
}

pub record EddystoneUrl : Type 0 where
  pub beacon_uuid : ℕ
  pub length_url : ℕ
  pub frame_type : ℕ
  -- the bytes of the transmission power and of the URL
  pub power : ℕ
  pub url : List ℕ

unfoldable pub new_eddystone_url : EddystoneUrl
new_eddystone_url = record {
  beacon_uuid = 0xFEAA;
  length_url = 0;
  frame_type = 0x10;
  power = 0;
  url = replicate 16 0;
}

unfoldable pub get_data : EddystoneUrl → List ℕ
get_data b = b.frame_type ∷ b.power ∷ b.url

-- `setData`; the length of the URL is 8 bits wide
unfoldable pub set_data : List ℕ → EddystoneUrl → EddystoneUrl
set_data data_ b =
    let raw = memcpy (replicate 18 0) 0 data_ in
    if ltb 18 (length data_) then b else record b {
      frame_type = get_or raw 0 0;
      power = get_or raw 1 0;
      url = drop 2 raw;
      length_url = (length data_ + 256 - 2) % 256;
    }

unfoldable pub set_url : List ℕ → EddystoneUrl → EddystoneUrl
set_url u b =
    if ltb 16 (length u)
    then b
    else record b { url = memcpy (replicate 16 0) 0 u; length_url = length u }

-- "http" and "www."
abbrev http : List ℕ
http = 104 ∷ 116 ∷ 116 ∷ 112 ∷ []

abbrev www : List ℕ
www = 119 ∷ 119 ∷ 119 ∷ 46 ∷ []

-- the first `switch` of `getDecodedURL`
unfoldable pub scheme_text : ℕ → List ℕ
scheme_text c =
    if c == 0
    then http ++ 58 ∷ 47 ∷ 47 ∷ www
    else if c == 1
    then http ++ 115 ∷ 58 ∷ 47 ∷ 47 ∷ www
    else if c == 2
    then http ++ 58 ∷ 47 ∷ 47 ∷ []
    else if c == 3
    then http ++ 115 ∷ 58 ∷ 47 ∷ 47 ∷ []
    else c ∷ []

-- com, org, edu, net, info, biz, gov
abbrev domains : List (List ℕ)
domains =
    (99 ∷ 111 ∷ 109 ∷ [])
    ∷ (111 ∷ 114 ∷ 103 ∷ [])
    ∷ (101 ∷ 100 ∷ 117 ∷ [])
    ∷ (110 ∷ 101 ∷ 116 ∷ [])
    ∷ (105 ∷ 110 ∷ 102 ∷ 111 ∷ [])
    ∷ (98 ∷ 105 ∷ 122 ∷ [])
    ∷ (103 ∷ 111 ∷ 118 ∷ [])
    ∷ []

-- what a byte of the URL stands for
unfoldable pub url_piece : ℕ → List ℕ
url_piece c =
    if ltb 33 c && ltb c 127
    then c ∷ []
    else if ltb c 7
    then 46 ∷ get_or domains c [] ++ 47 ∷ []
    else if ltb c 14
    then 46 ∷ get_or domains (c - 7) []
    else []

-- the loop of `getDecodedURL` over `n` bytes from index `i` on
unfoldable pub decode_from : ℕ → ℕ → List ℕ → List ℕ
decode_from i zero memory = []
decode_from i (suc n) memory = url_piece (get_or memory i 0) ++ decode_from (i + 1) n memory

-- `getDecodedURL`, where `beyond` is the memory after the URL
unfoldable pub get_decoded_url : List ℕ → EddystoneUrl → List ℕ
get_decoded_url beyond b =
    scheme_text (get_or b.url 0 0) ++ decode_from 1 (b.length_url - 1) (b.url ++ beyond)
