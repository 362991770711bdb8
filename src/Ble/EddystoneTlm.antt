-- ===== src/Ble/EddystoneTlm.antt =====
-- `BLEEddystoneTLM` and `BLEBeacon` of Essential Libraries/BLE/src: packed records whose bytes are sent
-- and received.
use jedge.Base.{
  ℕ, ◌+◌, ◌*◌, ◌/◌, ◌%◌, ◌^◌, ◌==◌, if◌then◌else◌, false, List, [], ◌∷◌, ◌++◌, length, get_or, take,
  drop, replicate, Option, none, some,
}
use jedge.Ble.Uuid.{Uuid, to128, from_memory}
use jedge.Ble.Uuid.Uuid.{unset, uuid16, uuid32, uuid128}
use jedge.Ble.Advertised.{number16, number32}

-- The little-endian bytes of a field.
abbrev pub bytes16 : ℕ → List ℕ
bytes16 v = v % 256 ∷ v / 256 % 256 ∷ []

abbrev pub bytes32 : ℕ → List ℕ
bytes32 v = v % 256 ∷ v / 2 ^ 8 % 256 ∷ v / 2 ^ 16 % 256 ∷ v / 2 ^ 24 % 256 ∷ []

-- `ENDIAN_CHANGE_U16` and `ENDIAN_CHANGE_U32`
unfoldable pub endian_change_u16 : ℕ → ℕ
endian_change_u16 x = x / 256 % 256 + x % 256 * 256

unfoldable pub endian_change_u32 : ℕ → ℕ
endian_change_u32 x =
    x / 2 ^ 24 % 256 + x / 2 ^ 16 % 256 * 2 ^ 8 + (x / 2 ^ 8 % 256 * 2 ^ 16 + x % 256 * 2 ^ 24)

pub record EddystoneTlm : Type 0 where
  pub beacon_uuid : ℕ
  pub frame_type : ℕ
  pub version : ℕ
  pub volt : ℕ
  pub temp : ℕ
  pub adv_count : ℕ
  pub tmil : ℕ

-- the constructor: 23.0 is made an integer before it is divided by 256
unfoldable pub new_eddystone_tlm : EddystoneTlm
new_eddystone_tlm = record {
  beacon_uuid = 0xFEAA;
  frame_type = 0x20;
  version = 0;
  volt = 3300;
  temp = 23 / 256;
  adv_count = 0;
  tmil = 0;
}

unfoldable pub tlm_get_data : EddystoneTlm → List ℕ
tlm_get_data t =
    t.frame_type ∷ t.version ∷ bytes16 t.volt
    ++ bytes16 t.temp
    ++ bytes32 t.adv_count
    ++ bytes32 t.tmil

unfoldable pub tlm_set_data : List ℕ → EddystoneTlm → EddystoneTlm
tlm_set_data b t =
    if length b == 14
    then record t {
      frame_type = get_or b 0 0;
      version = get_or b 1 0;
      volt = number16 (drop 2 b);
      temp = number16 (drop 4 b);
      adv_count = number32 (drop 6 b);
      tmil = number32 (drop 10 b);
    }
    else t

unfoldable pub get_volt : EddystoneTlm → ℕ
get_volt t = endian_change_u16 t.volt

unfoldable pub get_count : EddystoneTlm → ℕ
get_count t = endian_change_u32 t.adv_count

unfoldable pub get_time : EddystoneTlm → ℕ
get_time t = endian_change_u32 t.tmil / 10

abbrev pub set_version : ℕ → EddystoneTlm → EddystoneTlm
set_version v t = record t { version = v }

abbrev pub set_volt : ℕ → EddystoneTlm → EddystoneTlm
set_volt v t = record t { volt = v }

abbrev pub set_count : ℕ → EddystoneTlm → EddystoneTlm
set_count v t = record t { adv_count = v }

abbrev pub set_time : ℕ → EddystoneTlm → EddystoneTlm
set_time v t = record t { tmil = v }

pub record Beacon : Type 0 where
  pub manufacturer_id : ℕ
  pub sub_type : ℕ
  pub sub_type_length : ℕ
  pub proximity_uuid : List ℕ
  pub major : ℕ
  pub minor : ℕ
  -- the byte of the signal power
  pub signal_power : ℕ

unfoldable pub new_beacon : Beacon
new_beacon = record {
  manufacturer_id = 0x4c00;
  sub_type = 0x02;
  sub_type_length = 0x15;
  proximity_uuid = replicate 16 0;
  major = 0;
  minor = 0;
  signal_power = 0;
}

unfoldable pub beacon_get_data : Beacon → List ℕ
beacon_get_data b =
    bytes16 b.manufacturer_id
    ++ b.sub_type ∷ b.sub_type_length ∷ b.proximity_uuid
    ++ bytes16 b.major
    ++ bytes16 b.minor
    ++ b.signal_power ∷ []

unfoldable pub beacon_set_data : List ℕ → Beacon → Beacon
beacon_set_data s b =
    if length s == 25
    then record {
      manufacturer_id = number16 s;
      sub_type = get_or s 2 0;
      sub_type_length = get_or s 3 0;
      proximity_uuid = take 16 (drop 4 s);
      major = number16 (drop 20 s);
      minor = number16 (drop 22 s);
      signal_power = get_or s 24 0;
    }
    else b

unfoldable pub set_major : ℕ → Beacon → Beacon
set_major v b = record b { major = endian_change_u16 v }

unfoldable pub set_minor : ℕ → Beacon → Beacon
set_minor v b = record b { minor = endian_change_u16 v }

unfoldable pub set_manufacturer_id : ℕ → Beacon → Beacon
set_manufacturer_id v b = record b { manufacturer_id = endian_change_u16 v }

unfoldable pub get_proximity_uuid : Beacon → Uuid
get_proximity_uuid b = from_memory b.proximity_uuid 16 false

-- `setProximityUUID`, or `none` for a UUID that is not set, whose native value is a null pointer
unfoldable pub set_proximity_uuid : Uuid → Beacon → Option Beacon
set_proximity_uuid u b = elim (to128 u) [
  | unset ↦ none
  | uuid16 v ↦ none
  | uuid32 v ↦ none
  | uuid128 s ↦ some (record b { proximity_uuid = take 16 s })
]
