-- ===== src/Update/State.antt =====
-- The state of `UpdateClass`, and the private methods that write one sector: `_reset`, `_abort`,
-- `_writeBuffer`, `_verifyHeader` of Essential Libraries/Update/src/Updater.cpp, and the small
-- accessors of Update.h. A method takes the object and returns it changed, beside its result.
use jedge.Base.{
  ℕ, ◌+◌, ◌==◌, ltb, if◌then◌else◌, add_size, sub_size, Bool, true, false, not, ◌&&◌, Option, none,
  some, List, [], get_or, set, take, drop,
}
use jedge.Update.Esp.{Esp}
use jedge.Update.UpdateError

-- `SPI_FLASH_SEC_SIZE`
abbrev pub sector : ℕ
sector = 4096

-- `ENCRYPTED_BLOCK_SIZE`
abbrev pub block : ℕ
block = 16

-- `ESP_IMAGE_HEADER_MAGIC`
abbrev pub header_magic : ℕ
header_magic = 0xE9

-- `U_FLASH` and `U_SPIFFS`
abbrev pub u_flash : ℕ
u_flash = 0

abbrev pub u_spiffs : ℕ
u_spiffs = 100

-- The object and the device that it acts on. `led_pin` is `none` for the pin number -1; a progress
-- callback acts on the device, not on the object.
pub record Updater (esp : Esp) : Type 0 where
  pub error : ℕ
  pub buffer : Option (List ℕ)
  pub skip_buffer : Option (List ℕ)
  pub buffer_len : ℕ
  pub size : ℕ
  pub progress_callback : Option (ℕ → ℕ → esp.Dev → esp.Dev)
  pub progress : ℕ
  pub command : ℕ
  pub partition : Option esp.Partition
  pub target_md5 : List ℕ
  pub md5 : esp.Md5
  pub led_pin : Option ℕ
  pub led_on : Bool
  pub dev : esp.Dev

-- What a pointer points to; an invariant keeps the null pointer from being read.
abbrev pub bytes : Option (List ℕ) → List ℕ
bytes none = []
bytes (some b) = b

module _ (esp : Esp) where
  open esp use {Dev, digital_write, pin_mode_output}

  unfoldable pub light : Option ℕ → Bool → Dev → Dev
  light none level d = d
  light (some pin) level d = digital_write pin level d

  unfoldable pub arm : Option ℕ → Dev → Dev
  arm none d = d
  arm (some pin) d = pin_mode_output pin d

  unfoldable pub notify : Option (ℕ → ℕ → Dev → Dev) → ℕ → ℕ → Dev → Dev
  notify none a b d = d
  notify (some f) a b d = f a b d

module _ {esp : Esp} where
  open esp use {Dev, malloc, md5_add, partition_erase_range, partition_write}

  abbrev pub has_error : Updater esp → Bool
  has_error u = not (u.error == UpdateError.ok)

  abbrev pub is_running : Updater esp → Bool
  is_running u = ltb 0 u.size

  abbrev pub is_finished : Updater esp → Bool
  is_finished u = u.progress == u.size

  abbrev pub remaining : Updater esp → ℕ
  remaining u = sub_size u.size u.progress

  -- `if(_ledPin != -1) digitalWrite(_ledPin, level)`
  abbrev pub led : Bool → Updater esp → Updater esp
  led level u = record u { dev = light esp u.led_pin level u.dev }

  unfoldable pub reset : Updater esp → Updater esp
  reset u =
      led (not u.led_on)
        (record u { buffer = none; buffer_len = 0; progress = 0; size = 0; command = u_flash })

  unfoldable pub abort_with : ℕ → Updater esp → Updater esp
  abort_with err u = record (reset u) { error = err }

  -- `if (_progress_callback) _progress_callback(a, b)`
  abbrev pub call_progress : ℕ → ℕ → Updater esp → Updater esp
  call_progress a b u = record u { dev = notify esp u.progress_callback a b u.dev }

  -- `!_progress && _command == U_FLASH`: the sector with the image header
  abbrev pub is_first : Updater esp → Bool
  is_first u = u.progress == 0 && u.command == u_flash

  -- the end of `_writeBuffer`, once the sector is in the flash
  unfoldable pub sector_done : Updater esp → Bool × Updater esp
  sector_done u =
      let b = bytes u.buffer in
      let kept = if is_first u then set b 0 header_magic else b in
      let u' : Updater esp = record u {
        buffer = some kept;
        md5 = md5_add (take u.buffer_len kept) u.md5;
        progress = add_size u.progress u.buffer_len;
        buffer_len = 0;
      } in
      (true, call_progress u'.progress u'.size u')

  -- the middle of `_writeBuffer`: erase the sector, then write it without its first `skip` bytes
  unfoldable pub write_sector : ℕ → Updater esp → Bool × Updater esp
  write_sector skip u =
      let u0 : Updater esp = record u {
        dev = if u.progress == 0 then (call_progress 0 u.size u).dev else u.dev;
      } in
      let (erased, d) = partition_erase_range u0.partition u0.progress sector u0.dev in
      let u1 : Updater esp = record u0 { dev = d } in
      let (written, d') =
        partition_write u1.partition (u1.progress + skip) (drop skip (bytes u1.buffer))
          (sub_size u1.buffer_len skip) d in
      let u2 : Updater esp = record u1 { dev = d' } in
      if not erased
      then (false, abort_with UpdateError.erase u1)
      else if not written
      then (false, abort_with UpdateError.write u2)
      else sector_done u2

  -- `_writeBuffer`: the first 16 bytes of a firmware are stashed, and written only at the end
  unfoldable pub write_buffer : Updater esp → Bool × Updater esp
  write_buffer u =
      let b = bytes u.buffer in
      let (stash, d) = malloc block u.dev in
      if is_first u
      then if not (get_or b 0 0 == header_magic)
        then (false, abort_with UpdateError.magic_byte u)
        else elim stash [
          | none ↦ (false, record u { dev = d; skip_buffer = none })
          | some _ ↦ write_sector block (record u { dev = d; skip_buffer = some (take block b) })
        ]
      else write_sector 0 u

  unfoldable pub verify_header : ℕ → Updater esp → Bool × Updater esp
  verify_header byte u =
      if u.command == u_flash
      then if not (byte == header_magic)
        then (false, abort_with UpdateError.magic_byte u)
        else (true, u)
      else if u.command == u_spiffs
      then (true, u)
      else (false, u)
