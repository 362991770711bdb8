-- ===== src/Eeprom/Store.antt =====
-- The state of `EEPROMClass`, and the methods that open, close, commit and access it byte by byte:
-- Essential Libraries/EEPROM/src/EEPROM.cpp.
use jedge.Base.{
  ℕ, ◌-◌, ◌%◌, ◌^◌, ◌∷◌, ◌==◌, ltb, leb, if◌then◌else◌, Bool, true, false, not, ◌&&◌, Option, none,
  some, List, [], length, get_or, set, take, replicate, memcpy, ℤ, pos, negsuc,
}
use jedge.Eeprom.Nvs.{Nvs}

-- `ESP_ERR_NVS_NOT_FOUND`
abbrev pub not_found : ℕ
not_found = 0x1102

-- The key under which the room for a larger blob is tried: "expand".
abbrev pub expand_key : List ℕ
expand_key = b'e' ∷ b'x' ∷ b'p' ∷ b'a' ∷ b'n' ∷ b'd' ∷ []

pub record Eeprom (nvs : Nvs) : Type 0 where
  pub handle : nvs.Handle
  -- `none` for a null pointer
  pub contents : Option (List ℕ)
  pub size : ℕ
  pub dirty : Bool
  pub name : List ℕ
  pub user_defined_size : ℕ
  pub dev : nvs.Dev

-- What `_data` points to.
abbrev pub bytes : Option (List ℕ) → List ℕ
bytes none = []
bytes (some b) = b

-- What `nvs_get_blob` leaves in the buffer `b`.
abbrev pub fill : List ℕ → Option (List ℕ) → List ℕ
fill b none = b
fill b (some got) = memcpy b 0 got

module _ {nvs : Nvs} where
  open nvs use {
    Dev, Handle, no_handle, nvs_open, nvs_close, nvs_blob_size, nvs_get_blob, nvs_set_blob,
    nvs_erase_key, nvs_commit, malloc,
  }

  -- `EEPROMClass(name, user_defined_size)`; the other constructors use "eeprom" and 0
  unfoldable pub new_eeprom : List ℕ → ℕ → Dev → Eeprom nvs
  new_eeprom name n d = record {
    handle = no_handle;
    contents = none;
    size = 0;
    dirty = false;
    name = name;
    user_defined_size = n;
    dev = d;
  }

  -- the branch of `begin` that cuts a blob of `key_size` bytes down to `size`
  unfoldable pub truncate : ℕ → ℕ → Eeprom nvs → Bool × Eeprom nvs
  truncate size key_size e =
      let (room, d) = malloc key_size e.dev in
      elim room [
        | none ↦ (false, record e { dev = d })
        | some b ↦
            let kept = take size (fill b (nvs_get_blob e.handle e.name key_size d)) in
            let (_, d') = nvs_set_blob e.handle e.name kept d in
            (true, record e { dev = nvs_commit e.handle d' })
      ]

  -- the end of the branch of `begin` that makes a blob, or makes it longer
  unfoldable pub rewrite : ℕ → ℕ → Eeprom nvs → Bool × Eeprom nvs
  rewrite size key_size e =
      let (room, d) = malloc size e.dev in
      let old = nvs_get_blob e.handle e.name key_size d in
      let key_data = replicate size 0xFF in
      elim room [
        | none ↦ (false, record e { dev = d })
        | some _ ↦
            let filled = if ltb 0 key_size then fill key_data old else key_data in
            let d1 = if ltb 0 key_size then nvs_erase_key e.handle e.name d else d in
            let (_, d2) = nvs_set_blob e.handle e.name filled (nvs_commit e.handle d1) in
            (true, record e { dev = nvs_commit e.handle d2 })
      ]

  -- the branch of `begin` for a blob that is missing or shorter: is there room in the storage?
  unfoldable pub expand : ℕ → ℕ → Eeprom nvs → Bool × Eeprom nvs
  expand size key_size e =
      let (room, d) = malloc (size - key_size) e.dev in
      elim room [
        | none ↦ (false, record e { dev = d })
        | some b ↦
            let (err, d') = nvs_set_blob e.handle expand_key b d in
            if not (err == 0)
            then (false, record e { dev = d' })
            else rewrite size key_size (record e { dev = nvs_erase_key e.handle expand_key d' })
      ]

  -- the end of `begin`: the blob is read into memory
  unfoldable pub load : ℕ → Eeprom nvs → Bool × Eeprom nvs
  load size e =
      let (room, d) = malloc size e.dev in
      elim room [
        | none ↦ (false, record e { contents = none; dev = d })
        | some b ↦ elim (nvs_get_blob e.handle e.name size d) [
          | none ↦ (true, record e { contents = some b; size = size; dev = d })
          | some got ↦
              (true, record e { contents = some (memcpy b 0 got); size = length got; dev = d })
        ]
      ]

  -- `begin` with the namespace open
  unfoldable pub begin_open : ℕ → Eeprom nvs → Bool × Eeprom nvs
  begin_open size e =
      let (err, found) = nvs_blob_size e.handle e.name e.dev in
      let key_size = if err == 0 then found else 0 in
      let (sized, e') =
        if ltb size key_size
        then truncate size key_size e
        else if ltb key_size size
        then expand size key_size e
        else (true, e) in
      if not (err == 0) && not (err == not_found)
      then (false, e)
      else if sized
      then load size e'
      else (false, e')

  unfoldable pub begin : ℕ → Eeprom nvs → Bool × Eeprom nvs
  begin size e =
      let (err, h, d) = nvs_open e.name e.dev in
      if size == 0
      then (false, e)
      else if not (err == 0)
      then (false, record e { handle = h; dev = d })
      else begin_open size (record e { handle = h; dev = d })

  unfoldable pub commit : Eeprom nvs → Bool × Eeprom nvs
  commit e =
      let (err, d) = nvs_set_blob e.handle e.name (take e.size (bytes e.contents)) e.dev in
      if e.size == 0 then (false, e) else elim e.contents [
        | none ↦ (false, e)
        | some _ ↦
            if not e.dirty
            then (true, e)
            else if not (err == 0)
            then (false, record e { dev = d })
            else (true, record e { dev = d; dirty = false })
      ]

  unfoldable pub end : Eeprom nvs → Eeprom nvs
  end e =
      let e' = (commit e).1 in
      if e.size == 0 then e else record e' {
        contents = none;
        size = 0;
        dev = nvs_close e'.handle e'.dev;
        handle = no_handle;
      }

  unfoldable pub read : ℤ → Eeprom nvs → ℕ
  read (negsuc _) e = 0
  read (pos a) e = if leb e.size a then 0 else get_or (bytes e.contents) a 0

  -- the access of `write`, to the buffer
  abbrev pub write_at : ℕ → ℕ → Eeprom nvs → Eeprom nvs
  write_at a value e =
      if get_or (bytes e.contents) a 0 == value
      then e
      else record e { contents = some (set (bytes e.contents) a value); dirty = true }

  unfoldable pub write : ℤ → ℕ → Eeprom nvs → Eeprom nvs
  write (negsuc _) value e = e
  write (pos a) value e =
      if leb e.size a then e else elim e.contents [ none ↦ e | some _ ↦ write_at a value e ]

  -- `getDataPtr`: the caller may change the bytes, so they count as changed
  unfoldable pub get_data_ptr : Eeprom nvs → Option (List ℕ) × Eeprom nvs
  get_data_ptr e = (e.contents, record e { dirty = true })

  unfoldable pub length_of : Eeprom nvs → ℕ
  length_of e = e.user_defined_size % 2 ^ 16
