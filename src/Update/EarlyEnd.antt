-- ===== src/Update/EarlyEnd.antt =====
-- `end(true)` goes on after a failed write: the update that it gives up is activated all the same.
use jedge.Base.{not, ◌<◌, ◌≡◌, Bool, true, false, Option, none, some, [], arith, refl, some_inj}
use jedge.Update.Esp.{Esp}
use jedge.Update.State.{
  Updater, sector, block, reset, write_buffer, write_sector, abort_with, bytes, light,
}
use jedge.Update.UpdateError
use jedge.Update.Methods.{
  end, check_md5, verify_end, activate, enable_partition, partition_is_bootable,
}

module _ {esp : Esp} (u : Updater esp) (p : esp.Partition) (part : u.partition ≡ some p) where
  -- The object after a sector that could not be erased.
  abbrev given_up : Updater esp
  given_up =
      abort_with UpdateError.erase
        (record u { dev = (esp.partition_erase_range (some p) u.progress sector u.dev).1 })

  write_buffer-eq-given_up :
      0 < u.progress
      → (esp.partition_erase_range (some p) u.progress sector u.dev).0 ≡ false
      → write_buffer u ≡ (false, given_up)
  unfolding write_buffer write_sector
  write_buffer-eq-given_up later failed = ground (arith, part)

  abbrev pub enabled : Bool × esp.Dev
  enabled = esp.partition_write (some p) 0 (bytes u.skip_buffer) block (
      light esp u.led_pin (not u.led_on)
        (esp.partition_erase_range (some p) u.progress sector u.dev).1)

  enable-given_up :
      (q : Option esp.Partition) (v : Updater esp)
      → q ≡ some p
      → enable_partition q v ≡ (
        (esp.partition_write (some p) 0 (bytes v.skip_buffer) block v.dev).0,
        record v { dev = (esp.partition_write (some p) 0 (bytes v.skip_buffer) block v.dev).1 },
      )
  unfolding enable_partition
  enable-given_up none v e = cc
  enable-given_up (some q) v e = let r = some_inj e in ground arith

  activate-given_up :
      (v : Updater esp)
      → v.partition ≡ some p
      → v.skip_buffer ≡ u.skip_buffer
      → v.dev ≡ given_up.dev
      → enabled.0 ≡ true
      → partition_is_bootable esp (some p) enabled.1 ≡ true
      → (esp.set_boot_partition (some p) enabled.1).0 ≡ 0
      → ((activate v).0 ≡ true) × ((activate v).1.error ≡ v.error)
  unfolding activate reset abort_with
  activate-given_up v e e' e'' done boots chosen = ground (arith, enable-given_up v.partition v e)

  -- the object that `end(true)` hands to `_verifyEnd`
  abbrev handed_over : Updater esp
  handed_over = record given_up { size = given_up.progress; md5 = esp.md5_calculate given_up.md5 }

  end-handed_over :
      u.error ≡ 0
      → 0 < u.progress
      → 0 < u.size
      → 0 < u.buffer_len
      → u.target_md5 ≡ []
      → (esp.partition_erase_range (some p) u.progress sector u.dev).0 ≡ false
      → end true u ≡ activate handed_over
  unfolding end check_md5 verify_end abort_with reset
  end-handed_over ok later running more target failed =
      ground (arith, write_buffer-eq-given_up later failed)

  -- `end(true)` does not look at the result of its last write. Where a sector cannot be erased,
  -- the update is given up with UPDATE_ERROR_ERASE, and still its header is written and its partition
  -- chosen: where these succeed, the call returns true, for an image that is not all in the flash.
  end_early-ignores-erase :
      u.error ≡ 0
      → 0 < u.progress
      → 0 < u.size
      → 0 < u.buffer_len
      → u.target_md5 ≡ []
      → (esp.partition_erase_range (some p) u.progress sector u.dev).0 ≡ false
      → enabled.0 ≡ true
      → partition_is_bootable esp (some p) enabled.1 ≡ true
      → (esp.set_boot_partition (some p) enabled.1).0 ≡ 0
      → ((end true u).0 ≡ true) × ((end true u).1.error ≡ UpdateError.erase)
  unfolding abort_with reset
  end_early-ignores-erase ok later running more target failed done boots chosen =
      rw (end-handed_over ok later running more target failed)
        (activate-given_up handed_over part refl refl done boots chosen)
