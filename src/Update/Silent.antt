-- ===== src/Update/Silent.antt =====
-- `writeStream` of `UpdateClass` on a stream that has fallen silent.
use jedge.Base.{ℕ, zero, suc}
use jedge.Update.Esp.{Esp}
use jedge.Update.State.{Updater, arm}
use jedge.Update.UpdateError

-- the stream after a number of reads of `n` bytes
abbrev pub after_reads : (esp : Esp) → ℕ → ℕ → esp.Stream → esp.Stream
after_reads esp zero n s = s
after_reads esp (suc tries) n s = after_reads esp tries n (esp.read_bytes n s).1

module _ {esp : Esp} where
  -- the object that the loop of `writeStream` starts from
  abbrev pin_set : Updater esp → Updater esp
  pin_set u = record u { dev = arm esp u.led_pin u.dev }
