-- ===== src/Update/Witnesses.antt =====
-- The theorems on `UpdateClass` at concrete inputs, on the device of `Tests`.
use jedge.Base.{
  get_or, ℕ, ◌+◌, ◌<◌, ◌≡◌, true, false, none, some, List, [], ◌∷◌, ◌++◌, replicate, arith, refl,
  ◌⊎◌,
}
use jedge.Update.Esp.{Esp}
use jedge.Update.State.{
  Updater, u_flash, header_magic, reset, light, notify, write_buffer, write_sector, sector_done,
  abort_with,
}
use jedge.Update.UpdateError
use jedge.Update.Methods.{
  new_updater, begin, begin_in, begin_at, end, check_md5, verify_end, activate, enable_partition,
  partition_is_bootable,
}
use jedge.Update.Transfer.{write, write_loop, write_rest, write_stream, write_from}
use jedge.Update.Session.{update-Installed, update-not-bootable, update-magic}
use jedge.Update.Installed.{Installed}
use jedge.Update.Writes.{write-total}
use jedge.Update.Faults.{write-overcommits}
use jedge.Update.Stopped.{NoMemory, write-stops}
use jedge.Update.Digest.{IsLit, last_written, end-md5}
use jedge.Update.Tests.{
  memory_esp, memory_laws, memory_sizes, blank_flash, first_piece, second_piece, started, half,
  full, accepted, result,
}

abbrev idle : Updater memory_esp
idle = new_updater blank_flash

update-Installed_example :
    (p : ℕ) × Installed memory_laws p (first_piece ++ second_piece) (end false full).1.dev
    × (20 ≡ started.size)
unfolding write write_loop write_rest begin begin_in begin_at reset new_updater light write_buffer
    write_sector sector_done notify end check_md5 verify_end activate enable_partition
    partition_is_bootable
update-Installed_example =
    update-Installed memory_laws 20 u_flash none false none idle (λ _ _ e. cc) memory_sizes
      (λ _. omega arith) refl accepted (omega arith) refl

update-not-bootable_example : partition_is_bootable memory_esp full.partition full.dev ≡ false
unfolding write write_loop write_rest begin begin_in begin_at reset new_updater light write_buffer
    write_sector sector_done notify
update-not-bootable_example =
    update-not-bootable memory_laws 20 none false none idle (λ _ _ e. cc) memory_sizes (omega arith)
      refl accepted (omega arith) (omega arith)

write-total_example : (r : ℕ × Updater memory_esp) × (write first_piece started ≡ some r)
unfolding begin begin_in begin_at reset new_updater light
write-total_example = write-total first_piece started (omega arith) (omega arith)

-- 21 bytes for an update of 20
abbrev overlong : Updater memory_esp
overlong = result started (write (replicate 21 7) started)

write-stops_example :
    NoMemory overlong
    ⊎ (write first_piece overlong ≡ some (0, overlong))
      × (write_stream 3 first_piece overlong ≡ some (0, first_piece, overlong))
      × (write_from 3 first_piece overlong ≡ some (0, first_piece, overlong))
      × (end true overlong ≡ (false, overlong))
unfolding begin begin_in begin_at reset new_updater light write abort_with
write-stops_example =
    write-stops (replicate 21 7) 0 started overlong first_piece 3 first_piece true refl
      (omega arith)

update-magic_example : get_or (first_piece ++ second_piece) 0 0 ≡ header_magic
unfolding write write_loop write_rest begin begin_in begin_at reset new_updater light write_buffer
    write_sector sector_done notify end check_md5 verify_end activate enable_partition
    partition_is_bootable
update-magic_example =
    update-magic memory_laws 20 none false none idle (λ _ _ e. cc) memory_sizes (omega arith) refl
      accepted (omega arith) refl

abbrev wrong_md5 : Updater memory_esp
wrong_md5 = record full { target_md5 = 1 ∷ [] }

end-md5_example :
    ((end true wrong_md5).0 ≡ false)
    × (IsLit wrong_md5 (end true wrong_md5).1.dev
        ⊎ IsLit (last_written true wrong_md5) (end true wrong_md5).1.dev)
unfolding write write_loop write_rest begin begin_in begin_at reset new_updater light write_buffer
    write_sector sector_done notify
end-md5_example = end-md5 true wrong_md5 (λ e. cc) refl

-- 12 bytes are buffered, and 15 more are taken in for an update of 20
write-overcommits_example :
    (v : Updater memory_esp) × (write (replicate 15 7) half ≡ some (15, v))
    × (v.size < v.progress + v.buffer_len)
unfolding write write_loop write_rest begin begin_in begin_at reset new_updater light write_buffer
write-overcommits_example =
    write-overcommits half (replicate 15 7) refl (omega arith) (omega arith) (omega arith)
      (omega arith) (omega arith)

-- 16 of 20 bytes, when the client stops
abbrev block_piece : List ℕ
block_piece = header_magic ∷ replicate 15 7

abbrev partial : Updater memory_esp
partial = result started (write block_piece started)

-- The memory device with a flash that cannot be erased, and a stream that never delivers.
abbrev broken_esp : Esp
broken_esp = record memory_esp {
  partition_erase_range = λ _ _ _ d. (false, d);
  read_bytes = λ _ s. ([], s);
  peek = λ _. header_magic;
}

-- 16 bytes are in the flash, and 4 in the buffer.
abbrev late : Updater broken_esp
late = record (new_updater {esp = broken_esp} blank_flash) {
  buffer = some (replicate 4096 7);
  buffer_len = 4;
  size = 30;
  progress = 16;
  partition = some 1;
  skip_buffer = some block_piece;
}
