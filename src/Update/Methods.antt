-- ===== src/Update/Methods.antt =====
-- The public methods of `UpdateClass` that start, end and undo an update: Essential
-- Libraries/Update/src/Updater.cpp.
use Prim.Native.String.{String}
use jedge.Base.{
  ℕ, ◌==◌, ltb, if◌then◌else◌, Bool, true, false, not, ◌&&◌, ◌||◌, Option, none, some, List, [],
  ◌∷◌, length, get_or,
}
use jedge.Update.Esp.{Esp}
use jedge.Update.State.{
  Updater, sector, block, header_magic, u_flash, u_spiffs, bytes, has_error, is_finished, reset,
  abort_with, write_buffer,
}
use jedge.Update.UpdateError
use jedge.Update.UpdateError.{err_to_str}

-- `UPDATE_SIZE_UNKNOWN`
abbrev pub size_unknown : ℕ
size_unknown = 0xFFFFFFFF

-- whether two byte strings are the same
abbrev pub equal : List ℕ → List ℕ → Bool
equal [] [] = true
equal (x ∷ xs) (y ∷ ys) = x == y && equal xs ys
equal _ _ = false

module _ (esp : Esp) where
  open esp use {Dev, Partition, partition_read}

  unfoldable pub partition_is_bootable : Option Partition → Dev → Bool
  partition_is_bootable none d = false
  partition_is_bootable (some p) d = elim (partition_read (some p) 0 block d) [
    | none ↦ false
    | some buf ↦ get_or buf 0 0 == header_magic
  ]

module _ {esp : Esp} where
  open esp use {
    Dev, Partition, Stream, partition_size, next_update_partition, find_spiffs, partition_read,
    partition_write, set_boot_partition, malloc, pin_mode_output, md5_new, md5_begin, md5_calculate,
    md5_to_string, peek, read_bytes, available, read,
  }

  -- the constructor; the fields that it does not set are zero in the global object
  unfoldable pub new_updater : Dev → Updater esp
  new_updater d = record {
    error = 0;
    buffer = none;
    skip_buffer = none;
    buffer_len = 0;
    size = 0;
    progress_callback = none;
    progress = 0;
    command = u_flash;
    partition = none;
    target_md5 = [];
    md5 = md5_new;
    led_pin = some 0;
    led_on = false;
    dev = d;
  }

  unfoldable pub on_progress : (ℕ → ℕ → Dev → Dev) → Updater esp → Updater esp
  on_progress fn u = record u { progress_callback = some fn }

  unfoldable pub enable_partition : Option Partition → Updater esp → Bool × Updater esp
  enable_partition none u = (false, u)
  enable_partition (some p) u =
      let (done, d) = partition_write (some p) 0 (bytes u.skip_buffer) block u.dev in
      (done, record u { dev = d })

  unfoldable pub can_roll_back : Updater esp → Bool
  can_roll_back u = elim u.buffer [
    | none ↦ partition_is_bootable esp (next_update_partition u.dev) u.dev
    | some _ ↦ false
  ]

  unfoldable pub roll_back : Updater esp → Bool × Updater esp
  roll_back u =
      let p = next_update_partition u.dev in
      let (err, d) = set_boot_partition p u.dev in
      elim u.buffer [
        | none ↦
            if partition_is_bootable esp p u.dev
            then (err == 0, record u { dev = d })
            else (false, u)
        | some _ ↦ (false, u)
      ]

  -- the end of `begin`, with the partition chosen
  unfoldable pub begin_at : ℕ → ℕ → Partition → Updater esp → Bool × Updater esp
  begin_at size command p u =
      let whole = size == size_unknown in
      let size' = if whole then partition_size p else size in
      let (block', d) = malloc sector u.dev in
      if not whole && ltb (partition_size p) size
      then (false, record u { error = UpdateError.size })
      else elim block' [
        | none ↦ (false, record u { buffer = none; dev = d })
        | some b ↦ (
          true,
          record u {
            buffer = some b;
            dev = d;
            size = size';
            command = command;
            md5 = md5_begin u.md5;
          },
        )
      ]

  -- `_partition = …; if(!_partition) …`
  unfoldable pub begin_in : ℕ → ℕ → Option Partition → Updater esp → Bool × Updater esp
  begin_in size command none u =
      (false, record u { partition = none; error = UpdateError.no_partition })
  begin_in size command (some p) u = begin_at size command p (record u { partition = some p })

  -- `begin(size, command, ledPin, ledOn, label)`
  unfoldable pub begin :
      ℕ → ℕ → Option ℕ → Bool → Option (List ℕ) → Updater esp → Bool × Updater esp
  begin size command led_pin led_on label u =
      let u0 = reset (record u { led_pin = led_pin; led_on = led_on }) in
      let u1 : Updater esp = record u0 { error = 0; target_md5 = []; md5 = md5_new } in
      if ltb 0 u.size
      then (false, u)
      else if size == 0
      then (false, record u1 { error = UpdateError.size })
      else if command == u_flash
      then begin_in size command (next_update_partition u1.dev) u1
      else if command == u_spiffs
      then begin_in size command (find_spiffs label u1.dev) u1
      else (false, record u1 { error = UpdateError.bad_argument })

  unfoldable pub abort : Updater esp → Updater esp
  abort u = abort_with UpdateError.aborted u

  unfoldable pub set_md5 : List ℕ → Updater esp → Bool × Updater esp
  set_md5 expected u =
      if not (length expected == 32) then (false, u) else (true, record u { target_md5 = expected })

  -- the case `U_FLASH` of `_verifyEnd`: write the stashed header, then choose the partition to boot
  unfoldable pub activate : Updater esp → Bool × Updater esp
  activate u =
      let (enabled, u1) = enable_partition u.partition u in
      let (err, d) = set_boot_partition u1.partition u1.dev in
      let u2 : Updater esp = record u1 { dev = d } in
      if not enabled
      then (false, abort_with UpdateError.read u1)
      else if not (partition_is_bootable esp u1.partition u1.dev)
      then (false, abort_with UpdateError.read u1)
      else if not (err == 0)
      then (false, abort_with UpdateError.activate u2)
      else (true, reset u2)

  unfoldable pub verify_end : Updater esp → Bool × Updater esp
  verify_end u =
      if u.command == u_flash
      then activate u
      else if u.command == u_spiffs
      then (true, reset u)
      else (false, u)

  -- the end of `end`: the digest, then `_verifyEnd`
  unfoldable pub check_md5 : Updater esp → Bool × Updater esp
  check_md5 u =
      let u1 : Updater esp = record u { md5 = md5_calculate u.md5 } in
      if ltb 0 (length u1.target_md5) && not (equal u1.target_md5 (md5_to_string u1.md5))
      then (false, abort_with UpdateError.md5 u1)
      else verify_end u1

  unfoldable pub end : Bool → Updater esp → Bool × Updater esp
  end even_if_remaining u =
      let flushed = if ltb 0 u.buffer_len then (write_buffer u).1 else u in
      if has_error u || u.size == 0
      then (false, u)
      else if not (is_finished u) && not even_if_remaining
      then (false, abort_with UpdateError.aborted u)
      else if even_if_remaining
      then check_md5 (record flushed { size = flushed.progress })
      else check_md5 u

  unfoldable pub clear_error : Updater esp → Updater esp
  clear_error u = record u { error = UpdateError.ok }

  unfoldable pub error_string : Updater esp → String
  error_string u = err_to_str u.error
