-- ===== src/Update/Faults.antt =====
-- A `begin` that fails, and data that `write` takes in where the code's check misses.
use jedge.Base.{ℕ, ◌+◌, ◌≤◌, ◌<◌, ◌≡◌, some, List, arith, length, size_mod}
use jedge.Update.Esp.{Esp}
use jedge.Update.State.{Updater, sector}
use jedge.Update.Transfer.{write, write_loop, write_rest, collect}

module _ {esp : Esp} where
  -- write compares the data with what the flash lacks, and forgets what the buffer holds: in an
  -- update without an error that is not all in the flash, with a size below 2^32, data that fits
  -- what the flash lacks but not together with what the buffer holds, and that the buffer of one
  -- sector still has room for, is taken in whole, and the object then holds more bytes than the
  -- update has.
  pub write-overcommits :
      (u : Updater esp) (bytes_in : List ℕ)
      → u.error ≡ 0
      → u.progress < u.size
      → u.size < size_mod
      → u.progress + length bytes_in ≤ u.size
      → u.size < u.progress + u.buffer_len + length bytes_in
      → u.buffer_len + length bytes_in ≤ sector
      → (v : Updater esp) × (write bytes_in u ≡ some (length bytes_in, v))
        × (v.size < v.progress + v.buffer_len)
  unfolding write write_loop write_rest
  write-overcommits u bytes_in ok lacks small fits over room =
      (collect bytes_in u, ground arith, ground arith)
