-- ===== src/Ble/Uuid.antt =====
-- `BLEUUID` of Essential Libraries/BLE/src/BLEUUID.cpp: a UUID of 16, 32 or 128 bits.
use jedge.Base.{
  ℕ, ◌+◌, ◌-◌, ◌*◌, ◌/◌, ◌%◌, ◌^◌, ◌==◌, leb, if◌then◌else◌, Bool, true, false, not, ◌&&◌, ◌||◌,
  List, [], ◌∷◌, ◌++◌, length, get_or, set, take, drop, replicate,
}
use jedge.Ble.Hex.{dash, hex2, hex8, pair, strtoul}

-- The value of a `BLEUUID`; the bytes of 128 bits are the least significant first.
pub data Uuid : Type 0 where
  unset : Uuid
  uuid16 : ℕ → Uuid
  uuid32 : ℕ → Uuid
  uuid128 : List ℕ → Uuid

-- `memrcpy` to the start of a new array
unfoldable pub memrcpy : List ℕ → List ℕ
memrcpy [] = []
memrcpy (x ∷ s) = memrcpy s ++ x ∷ []

-- the loop over the digits of a short UUID, whose first pair is shifted by `k` bits
unfoldable pub short_pairs : ℕ → List ℕ → ℕ → ℕ
short_pairs k [] n = n
short_pairs k (c ∷ []) n = n + pair c 0 * 2 ^ k
short_pairs k (c ∷ d ∷ s) n = short_pairs (k - 8) s (n + pair c d * 2 ^ k)

-- `uuid128[15 - n] = v`; past the start of the array a write lands below it.
abbrev pub put_down : ℕ → ℕ → List ℕ → List ℕ
put_down n v b = if leb n 15 then set b (15 - n) v else v ∷ b

-- the loop over a UUID of 36 characters; memory past the string reads as 0
unfoldable pub long_pairs : List ℕ → ℕ → List ℕ → List ℕ
long_pairs [] n b = b
long_pairs (c ∷ []) n b = if c == dash then put_down n (pair 0 0) b else put_down n (pair c 0) b
long_pairs (c ∷ d ∷ []) n b = if c == dash then put_down n (pair d 0) b else put_down n (pair c d) b
long_pairs (c ∷ d ∷ e ∷ s) n b =
    let after = long_pairs s (n + 1) (put_down n (pair d e) b) in
    let next = long_pairs (e ∷ s) (n + 1) (put_down n (pair c d) b) in
    if c == dash then after else next

-- `BLEUUID(std::string)`; bytes of 128 bits that it does not set are shown as 0
unfoldable pub from_text : List ℕ → Uuid
from_text value =
    if length value == 4
    then uuid16 (short_pairs 8 value 0)
    else if length value == 8
    then uuid32 (short_pairs 24 value 0)
    else if length value == 16
    then uuid128 (memrcpy value)
    else if length value == 36
    then uuid128 (long_pairs value 0 (replicate 16 0))
    else unset

-- `BLEUUID(pData, size, msbFirst)`, of the memory from `pData` on
unfoldable pub from_memory : List ℕ → ℕ → Bool → Uuid
from_memory data_ size msb_first =
    if not (size == 16)
    then unset
    else if msb_first
    then uuid128 (memrcpy (take 16 data_))
    else uuid128 (take 16 data_)

unfoldable pub bit_size : Uuid → ℕ
bit_size unset = 0
bit_size (uuid16 _) = 16
bit_size (uuid32 _) = 32
bit_size (uuid128 _) = 128

-- what follows the first eight digits of a short UUID: "-0000-1000-8000-00805f9b34fb"
abbrev pub base_text : List ℕ
base_text =
    dash ∷ 48 ∷ 48 ∷ 48 ∷ 48 ∷ dash ∷ 49 ∷ 48 ∷ 48 ∷ 48 ∷ dash ∷ 56 ∷ 48 ∷ 48 ∷ 48 ∷ dash ∷ 48 ∷ 48
    ∷ 56 ∷ 48 ∷ 53 ∷ 102 ∷ 57 ∷ 98 ∷ 51 ∷ 52 ∷ 102 ∷ 98 ∷ []

-- the digits of byte `i`
abbrev pub hex_at : List ℕ → ℕ → List ℕ
hex_at b i = hex2 (get_or b i 0)

unfoldable pub to_string : Uuid → List ℕ
to_string unset = 60 ∷ 78 ∷ 85 ∷ 76 ∷ 76 ∷ 62 ∷ []
to_string (uuid16 v) = hex8 v ++ base_text
to_string (uuid32 v) = hex8 v ++ base_text
to_string (uuid128 b) =
    hex_at b 15
    ++ hex_at b 14
    ++ hex_at b 13
    ++ hex_at b 12
    ++ dash ∷ hex_at b 11
    ++ hex_at b 10
    ++ dash ∷ hex_at b 9
    ++ hex_at b 8
    ++ dash ∷ hex_at b 7
    ++ hex_at b 6
    ++ dash ∷ hex_at b 5
    ++ hex_at b 4
    ++ hex_at b 3
    ++ hex_at b 2
    ++ hex_at b 1
    ++ hex_at b 0

-- the fixed part of a short UUID, from the least significant byte on
abbrev pub base_bytes : List ℕ
base_bytes = 0xfb ∷ 0x34 ∷ 0x9b ∷ 0x5f ∷ 0x80 ∷ 0 ∷ 0 ∷ 0x80 ∷ 0 ∷ 0x10 ∷ 0 ∷ 0 ∷ []

unfoldable pub to128 : Uuid → Uuid
to128 unset = unset
to128 (uuid16 v) = uuid128 (base_bytes ++ v % 256 ∷ v / 2 ^ 8 % 256 ∷ 0 ∷ 0 ∷ [])
to128 (uuid32 v) =
    uuid128 (base_bytes ++ v % 256 ∷ v / 2 ^ 8 % 256 ∷ v / 2 ^ 16 % 256 ∷ v / 2 ^ 24 % 256 ∷ [])
to128 (uuid128 b) = uuid128 b

-- `==` of strings, and `memcmp`
unfoldable pub same_bytes : List ℕ → List ℕ → Bool
same_bytes [] [] = true
same_bytes [] (y ∷ ys) = false
same_bytes (x ∷ xs) [] = false
same_bytes (x ∷ xs) (y ∷ ys) = (x == y) && same_bytes xs ys

unfoldable pub equals : Uuid → Uuid → Bool
equals unset v = false
equals u unset = false
equals (uuid16 a) (uuid16 b) = b == a
equals (uuid32 a) (uuid32 b) = b == a
equals (uuid128 a) (uuid128 b) = same_bytes (take 16 b) (take 16 a)
equals u v = same_bytes (to_string v) (to_string u)

-- `strstr(s, "0x") != nullptr`
unfoldable pub has_prefix_in : List ℕ → Bool
has_prefix_in [] = false
has_prefix_in (c ∷ s) = (c == 48) && (get_or s 0 0 == 120) || has_prefix_in s

-- `fromString`; `len` is 8 bits wide
unfoldable pub from_string : List ℕ → Uuid
from_string s =
    let start = if has_prefix_in s then 2 else 0 in
    let len = (length s + 256 - start) % 256 in
    if len == 4
    then uuid16 (strtoul (take len (drop start s)) % 2 ^ 16)
    else if len == 8
    then uuid32 (strtoul (take len (drop start s)))
    else if len == 36
    then from_text s
    else unset
