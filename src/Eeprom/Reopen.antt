-- ===== src/Eeprom/Reopen.antt =====
-- What was committed to `EEPROMClass` is there again after `end` and `begin`.
use jedge.Base.{Bool, ℕ, ◌≡◌, true, some, List}
use jedge.Eeprom.Nvs.{Nvs, NvsLaws}
use jedge.Eeprom.Store.{Eeprom}
use jedge.Eeprom.Persist.{Synced}

module _ {nvs : Nvs} (laws : NvsLaws nvs) where
  open laws use {space, blob}

  -- An object that a call has opened: its contents and size, with the blob in the storage.
  abbrev pub Opened : ℕ → List ℕ → Eeprom nvs → Bool × Eeprom nvs → Type 0
  Opened n b e r =
      (r.0 ≡ true)
      × (r.1.contents ≡ some b)
      × (r.1.size ≡ n)
      × (r.1.name ≡ e.name)
      × (r.1.handle ≡ e.handle)
      × (r.1.dev ≡ (nvs.malloc n e.dev).1)

  -- What `begin` gives for a blob that is stored.
  abbrev pub Restored : ℕ → List ℕ → Bool × Eeprom nvs → Type 0
  Restored n b r = (r.0 ≡ true) × (r.1.contents ≡ some b) × (r.1.size ≡ n) × Synced laws r.1
