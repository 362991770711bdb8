-- ===== src/Eeprom/Persist.antt =====
-- What `EEPROMClass` keeps in the non-volatile storage, and that it comes back after a commit.
use jedge.Base.{
  ℕ, ◌<◌, ◌≡◌, true, false, some, List, length, take, arith, refl, ap, ◌∙◌, ◌⊎◌, ◌≢◌, take_all, inl,
  inr,
}
use mathlib.Core.Path.{subst}
use jedge.Eeprom.Nvs.{Nvs, NvsLaws}
use jedge.Eeprom.Store.{Eeprom, bytes, new_eeprom, commit}

module _ {nvs : Nvs} (laws : NvsLaws nvs) where
  open laws use {space, blob}

  -- An object that has nothing to write back agrees with the storage.
  pub record Synced (e : Eeprom nvs) : Type 0 where
    pub length_is : length (bytes e.contents) ≡ e.size
    pub in_space : 0 < e.size → space e.handle ≡ e.name
    pub synced : e.dirty ≡ false → 0 < e.size → blob e.name e.name e.dev ≡ some (bytes e.contents)

  new_eeprom-Synced : (name : List ℕ) (n : ℕ) (d : nvs.Dev) → Synced (new_eeprom name n d)
  unfolding new_eeprom
  new_eeprom-Synced name n d = record {
    length_is = refl;
    in_space = λ h. absurd (omega arith);
    synced = λ _ h. absurd (omega arith);
  }

  module _ (e : Eeprom nvs) (h : Synced e) (some_size : 0 < e.size) where
    abbrev saved : ℕ × nvs.Dev
    saved = nvs.nvs_set_blob e.handle e.name (take e.size (bytes e.contents)) e.dev

    saved_blob : saved.0 ≡ 0 → blob e.name e.name saved.1 ≡ some (bytes e.contents)
    saved_blob ok =
        subst (λ s. blob s e.name saved.1 ≡ some (take e.size (bytes e.contents)))
          (h.in_space some_size)
          (laws.set_blob e.handle e.name (take e.size (bytes e.contents)) e.dev ok)
        ∙ ap some (take_all e.size (bytes e.contents) (omega (arith, h.length_is)))

    -- The outcomes of `commit` for an open object.
    commit_cases :
        {b : List ℕ}
        → e.contents ≡ some b
        → ((e.dirty ≡ false) × (commit e ≡ (true, e)))
          ⊎ (saved.0 ≢ 0) × (commit e ≡ (false, record e { dev = saved.1 })) × (e.dirty ≡ true)
          ⊎ (saved.0 ≡ 0) × (commit e ≡ (true, record e { dev = saved.1; dirty = false }))
    unfolding commit
    commit_cases open_ = ground arith

  -- The storage after a commit that succeeds.
  pub committed_blob :
      {e : Eeprom nvs} {b : List ℕ}
      → Synced e
      → 0 < e.size
      → e.contents ≡ some b
      → (commit e).0 ≡ true
      → (blob e.name e.name (commit e).1.dev ≡ some b) × ((commit e).1.name ≡ e.name)
  committed_blob {e} {b} h pos_size open_ done = elim (commit_cases e h pos_size open_) [
    | inl (clean, q) ↦ rw q (h.synced clean pos_size ∙ ap (λ c. some (bytes c)) open_, refl)
    | inr (inl (bad, q, _)) ↦ absurd (let r = ap (λ r. r.0) q in cc)
    | inr (inr (ok, q)) ↦ rw q (saved_blob e h pos_size ok ∙ ap (λ c. some (bytes c)) open_, refl)
  ]
