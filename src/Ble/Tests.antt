-- ===== src/Ble/Tests.antt =====
-- UUIDs and payloads at concrete inputs.
use jedge.Base.{
  none, ℕ, zero, suc, ◌<◌, ◌≡◌, ◌==◌, true, false, List, [], ◌∷◌, ◌++◌, length, get_or, replicate,
  some, arith, refl,
}
use jedge.Ble.Base64.{base64_encode, base64_decode}
use jedge.Ble.Base64RoundTrip.{base64_decode-base64_encode}
use jedge.Ble.Hex.{dash}
use jedge.Ble.Uuid.{to128, to_string, from_text}
use jedge.Ble.Uuid.Uuid.{uuid16}
use jedge.Ble.UuidText.{from_text-to_string}
use jedge.Ble.EddystoneUrl.{new_eddystone_url, set_url, get_decoded_url}
use jedge.Ble.UrlText.{codes, texts, text_of_scheme, get_decoded_url-set_url}
use jedge.Ble.UrlText.Scheme.{http}
use jedge.Ble.UrlText.Domain.{dot_org}
use jedge.Ble.UrlText.Token.{letter, site}
use jedge.Ble.Advertised.{
  new_device, set_payload, set_name, parse_advertisement, read_record, services16,
}
use jedge.Ble.Record.{Part, encode, read_parts}
use jedge.Ble.Payload.{parse_advertisement-encode, parse_advertisement-overreads}

base64_decode-base64_encode_example :
    ((base64_encode (74 ∷ 69 ∷ 68 ∷ 71 ∷ [])).0 ≡ true)
    × (base64_decode (base64_encode (74 ∷ 69 ∷ 68 ∷ 71 ∷ [])).1
        ≡ some (true, 74 ∷ 69 ∷ 68 ∷ 71 ∷ []))
    × (base64_decode (base64_encode []).1 ≡ none)
base64_decode-base64_encode_example =
    base64_decode-base64_encode 74 (69 ∷ 68 ∷ 71 ∷ [])
      (omega arith, (omega arith, (omega arith, (omega arith, refl))))

from_text-to_string_example : from_text (to_string (uuid16 0x180d)) ≡ to128 (uuid16 0x180d)
from_text-to_string_example = from_text-to_string (uuid16 0x180d) (omega arith)

get_or-replicate : (n k i : ℕ) → i < n → get_or (replicate n k) i 0 ≡ k
get_or-replicate zero k i h = absurd (omega arith)
get_or-replicate (suc n) k zero h = refl
get_or-replicate (suc n) k (suc i) h = get_or-replicate n k i (omega arith)

abbrev plain_text : List ℕ
plain_text = replicate 36 97

no_dash : (i : ℕ) → i < length plain_text → (get_or plain_text i 0 == dash) ≡ false
no_dash i h = let e = get_or-replicate 36 97 i (omega arith) in rw e refl

-- flags, two services of 16 bits, padding, and a name
abbrev parts : List Part
parts =
    Part.element 1 (6 ∷ [])
    ∷ Part.element 3 (0x0d ∷ 0x18 ∷ 0x0f ∷ 0x18 ∷ [])
    ∷ Part.padding
    ∷ Part.element 9 (74 ∷ 69 ∷ [])
    ∷ []

parse_advertisement-encode_example :
    parse_advertisement 9 (encode parts ++ 200 ∷ []) (length (encode parts)) new_device
    ≡ some (
        read_parts parts
          (set_payload (encode parts ++ 200 ∷ []) (length (encode parts)) new_device))
parse_advertisement-encode_example =
    parse_advertisement-encode parts (200 ∷ []) 9 new_device (omega arith)
      (omega arith, (omega arith, (omega arith, refl))) (omega arith) (omega arith)

parse_advertisement-overreads_example :
    parse_advertisement 1 (4 ∷ 0x09 ∷ 1 ∷ 2 ∷ 3 ∷ []) 2 new_device
    ≡ some (set_name (1 ∷ 2 ∷ 3 ∷ []) (set_payload (4 ∷ 0x09 ∷ 1 ∷ 2 ∷ 3 ∷ []) 2 new_device))
parse_advertisement-overreads_example =
    parse_advertisement-overreads 3 2 0 (1 ∷ 2 ∷ 3 ∷ []) new_device (omega arith) (omega arith)
      (omega arith)

-- The services of the payload are found.
services_found : (read_parts parts new_device).service_uuids ≡ uuid16 0x180d ∷ uuid16 0x180f ∷ []
unfolding new_device read_record services16
services_found = refl

-- a telemetry frame with 3000 mV
abbrev frame : List ℕ
frame = 0x20 ∷ 0 ∷ 11 ∷ 184 ∷ 23 ∷ 0 ∷ 0 ∷ 0 ∷ 1 ∷ 2 ∷ 0 ∷ 0 ∷ 4 ∷ 1 ∷ []

-- http://jd.org/a
get_decoded_url-set_url_example :
    get_decoded_url [] (
      set_url
        (2 ∷ codes (letter b'j' ∷ letter b'd' ∷ site dot_org ∷ letter b'a' ∷ []))
        new_eddystone_url)
    ≡ text_of_scheme http ++ texts (letter b'j' ∷ letter b'd' ∷ site dot_org ∷ letter b'a' ∷ [])
get_decoded_url-set_url_example =
    get_decoded_url-set_url http (letter b'j' ∷ letter b'd' ∷ site dot_org ∷ letter b'a' ∷ []) []
      new_eddystone_url
      (
        (omega arith, omega arith),
        ((omega arith, omega arith), (tt, ((omega arith, omega arith), tt))),
      )
      (omega arith)
