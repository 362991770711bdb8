-- ===== src/Ble/Advertised.antt =====
-- `BLEAdvertisedDevice` of Essential Libraries/BLE/src/BLEAdvertisedDevice.cpp: what a scan found out
-- about a device, and the parser of its advertisement. A payload is the memory from its first byte
-- on, also past its end; past the list memory reads as 0.
use jedge.Base.{
  ℕ, zero, suc, ◌+◌, ◌-◌, ◌*◌, ◌/◌, ◌%◌, ◌==◌, ltb, leb, if◌then◌else◌, Bool, true, false, ◌||◌,
  List, [], ◌∷◌, ◌++◌, get_or, take, drop, Option, none, some, ℤ, pos, negsuc,
}
use jedge.Ble.Uuid.{Uuid, from_memory, equals}
use jedge.Ble.Uuid.Uuid.{unset, uuid16, uuid32}

pub record Device : Type 0 where
  pub ad_flag : ℕ
  pub appearance : ℕ
  pub manufacturer_data : List ℕ
  pub name : List ℕ
  pub rssi : ℤ
  pub service_uuids : List Uuid
  pub tx_power : ℤ
  pub service_data : List (List ℕ)
  pub service_data_uuids : List Uuid
  pub payload : List ℕ
  pub payload_length : ℕ
  pub have_appearance : Bool
  pub have_manufacturer_data : Bool
  pub have_name : Bool
  pub have_rssi : Bool
  pub have_tx_power : Bool

unfoldable pub new_device : Device
new_device = record {
  ad_flag = 0;
  appearance = 0;
  manufacturer_data = [];
  name = [];
  rssi = negsuc 9998;
  service_uuids = [];
  tx_power = pos 0;
  service_data = [];
  service_data_uuids = [];
  payload = [];
  payload_length = 0;
  have_appearance = false;
  have_manufacturer_data = false;
  have_name = false;
  have_rssi = false;
  have_tx_power = false;
}

abbrev pub set_payload : List ℕ → ℕ → Device → Device
set_payload p n d = record d { payload = p; payload_length = n }

abbrev pub set_ad_flag : ℕ → Device → Device
set_ad_flag f d = record d { ad_flag = f }

abbrev pub set_appearance : ℕ → Device → Device
set_appearance a d = record d { appearance = a; have_appearance = true }

abbrev pub set_manufacturer_data : List ℕ → Device → Device
set_manufacturer_data m d = record d { manufacturer_data = m; have_manufacturer_data = true }

abbrev pub set_name : List ℕ → Device → Device
set_name s d = record d { name = s; have_name = true }

abbrev pub set_rssi : ℤ → Device → Device
set_rssi r d = record d { rssi = r; have_rssi = true }

abbrev pub set_service_uuid : Uuid → Device → Device
set_service_uuid u d = record d { service_uuids = d.service_uuids ++ u ∷ [] }

abbrev pub set_service_data : List ℕ → Device → Device
set_service_data s d = record d { service_data = d.service_data ++ s ∷ [] }

abbrev pub set_service_data_uuid : Uuid → Device → Device
set_service_data_uuid u d = record d { service_data_uuids = d.service_data_uuids ++ u ∷ [] }

-- `setTXPower(*payload)`: the byte as an `int8_t`
abbrev pub set_tx_power : ℕ → Device → Device
set_tx_power p d = record d {
  tx_power = if leb 128 p then negsuc (255 - p) else pos p;
  have_tx_power = true;
}

-- the first of `getServiceUUID()` and of `getServiceDataUUID()`
abbrev pub front : List Uuid → Uuid
front [] = unset
front (u ∷ us) = u

unfoldable pub get_service_uuid : Device → Uuid
get_service_uuid d = front d.service_uuids

unfoldable pub get_service_data_uuid : Device → Uuid
get_service_data_uuid d = front d.service_data_uuids

-- the loop of `isAdvertisingService`
unfoldable pub any_equals : Uuid → List Uuid → Bool
any_equals u [] = false
any_equals u (v ∷ vs) = equals v u || any_equals u vs

unfoldable pub is_advertising_service : Uuid → Device → Bool
is_advertising_service u d = any_equals u d.service_uuids

-- the little-endian numbers at the start of memory
abbrev pub number16 : List ℕ → ℕ
number16 p = get_or p 0 0 + get_or p 1 0 * 256

abbrev pub number32 : List ℕ → ℕ
number32 p = number16 p + number16 (drop 2 p) * 65536

-- the loops over lists of `n` service UUIDs
unfoldable pub services16 : ℕ → List ℕ → Device → Device
services16 zero p d = d
services16 (suc n) p d = services16 n (drop 2 p) (set_service_uuid (uuid16 (number16 p)) d)

unfoldable pub services32 : ℕ → List ℕ → Device → Device
services32 zero p d = d
services32 (suc n) p d = services32 n (drop 4 p) (set_service_uuid (uuid32 (number32 p)) d)

-- the three kinds of service data, behind a UUID of `n` bytes
abbrev pub service_data_at : ℕ → Uuid → ℕ → List ℕ → Device → Device
service_data_at n u length_ p d =
    if ltb length_ n
    then d
    else if ltb n length_
    then set_service_data (take (length_ - n) (drop n p)) (set_service_data_uuid u d)
    else set_service_data_uuid u d

-- the `switch` of `parseAdvertisement` on the type of a record, whose data start at `p`
unfoldable pub read_record : ℕ → ℕ → List ℕ → Device → Device
read_record ad_type length_ p d =
    if ad_type == 0x09
    then set_name (take length_ p) d
    else if ad_type == 0x0A
    then set_tx_power (get_or p 0 0) d
    else if ad_type == 0x19
    then set_appearance (number16 p) d
    else if ad_type == 0x01
    then set_ad_flag (get_or p 0 0) d
    else if (ad_type == 0x03) || (ad_type == 0x02)
    then services16 (length_ / 2) p d
    else if (ad_type == 0x05) || (ad_type == 0x04)
    then services32 (length_ / 4) p d
    else if (ad_type == 0x07) || (ad_type == 0x06)
    then set_service_uuid (from_memory p 16 false) d
    else if ad_type == 0xFF
    then set_manufacturer_data (take length_ p) d
    else if ad_type == 0x16
    then service_data_at 2 (uuid16 (number16 p)) length_ p d
    else if ad_type == 0x20
    then service_data_at 4 (uuid32 (number32 p)) length_ p d
    else if ad_type == 0x21
    then service_data_at 16 (from_memory p 16 false) length_ p d
    else d

-- the loop of `parseAdvertisement`, on fuel; `sizeConsumed` is 8 bits wide
unfoldable pub parse_loop : ℕ → List ℕ → ℕ → ℕ → Device → Option Device
parse_loop zero p size_consumed total_len d = none
parse_loop (suc fuel) p size_consumed total_len d =
    let length_ = get_or p 0 0 in
    let size = (size_consumed + 1 + length_) % 256 in
    let rest = if length_ == 0 then drop 1 p else drop (length_ - 1) (drop 2 p) in
    let d' = if length_ == 0 then d else read_record (get_or p 1 0) (length_ - 1) (drop 2 p) d in
    let more = parse_loop fuel rest size total_len d' in
    if leb total_len size then some d' else more

unfoldable pub parse_advertisement : ℕ → List ℕ → ℕ → Device → Option Device
parse_advertisement fuel p total_len d = parse_loop fuel p 0 total_len (set_payload p total_len d)
