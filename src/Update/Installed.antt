-- ===== src/Update/Installed.antt =====
-- `_verifyEnd` puts the header in front of the image that is in the flash.
use jedge.Base.{
  sym, Option-cases, not, ℕ, ◌-◌, ◌<◌, ◌≡◌, ltb, Bool, true, Option, none, some, List, take, arith,
  refl, ap, ◌∙◌, inl, inr, Bool-cases, some_inj, length, length-take, get_or, get_or-take,
}
use jedge.Update.Esp.{Esp, FlashLaws}
use jedge.Update.State.{Updater, block, u_flash, header_magic, reset, light}
use jedge.Update.Methods.{enable_partition, activate, partition_is_bootable}
use jedge.Update.Image.{Holds}

module _ {esp : Esp} (laws : FlashLaws esp) where
  open laws use {cell}

  -- The whole image is in the flash.
  abbrev pub Installed : esp.Partition → List ℕ → esp.Dev → Type 0
  Installed p w d = (i : ℕ) → i < length w → cell p i d ≡ get_or w i 0

  light_cell :
      (p : esp.Partition) (pin : Option ℕ) (level : Bool) (d : esp.Dev) (i : ℕ)
      → cell p i (light esp pin level d) ≡ cell p i d
  unfolding light
  light_cell p none level d i = refl
  light_cell p (some pin) level d i = laws.digital_write_cell pin level d p i

  pub reset_cell :
      (p : esp.Partition) (u : Updater esp) (i : ℕ) → cell p i (reset u).dev ≡ cell p i u.dev
  unfolding reset
  reset_cell p u i = light_cell p u.led_pin (not u.led_on) u.dev i

  bootable-magic :
      (p : esp.Partition) (d : esp.Dev)
      → partition_is_bootable esp (some p) d ≡ true
      → cell p 0 d ≡ header_magic
  unfolding partition_is_bootable
  bootable-magic p d boots = elim (Option-cases (esp.partition_read (some p) 0 block d)) [
    | inl failed ↦ absurd (ground arith)
    | inr (b, got) ↦
        let e : get_or b 0 0 ≡ cell p 0 d = laws.read_at p 0 block d b 0 got (omega arith) in
        let r : get_or b 0 0 ≡ header_magic = ground arith in sym e ∙ r
  ]

  module _ {p : esp.Partition} {w : List ℕ} {u : Updater esp} (h : Holds laws p w u) where
    abbrev enabled : Bool × esp.Dev
    enabled = esp.partition_write (some p) 0 (take block w) block u.dev

    -- The header that was kept back completes the image.
    enabled-Installed :
        u.command ≡ u_flash
        → 0 < u.progress
        → u.progress ≡ length w
        → enabled.0 ≡ true
        → Installed p w enabled.1
    enabled-Installed c pos whole done i below = elim (Bool-cases (ltb i block)) [
      | inl head ↦
          laws.write_at p 0 (take block w) block u.dev i done (λ k _ to. h.blank c pos k to)
            (omega arith) (ground arith) (omega (arith, length-take block w, h.header c pos))
          ∙ (let e : i - 0 ≡ i = omega arith in ap (λ k. get_or (take block w) k 0) e)
          ∙ get_or-take block w i 0 (ground arith)
      | inr tail ↦
          laws.write_beside p 0 (take block w) block u.dev i (inr (ground arith))
          ∙ h.flashed i (ground arith) (omega arith)
    ]

    -- The object that `_verifyEnd` leaves behind on success.
    abbrev activated : Updater esp
    activated = reset (record u { dev = (esp.set_boot_partition (some p) enabled.1).1 })

    enable_partition-eq :
        (q : Option esp.Partition)
        → q ≡ some p
        → u.skip_buffer ≡ some (take block w)
        → enable_partition q u ≡ (enabled.0, record u { dev = enabled.1 })
    unfolding enable_partition
    enable_partition-eq none e stash = cc
    enable_partition-eq (some q) e stash = let r = some_inj e in ground arith

    activate-eq-activated :
        u.skip_buffer ≡ some (take block w)
        → (activate u).0 ≡ true
        → (enabled.0 ≡ true) × (activate u ≡ (true, activated))
    unfolding activate
    activate-eq-activated stash done =
        ground (arith, enable_partition-eq u.partition h.partition_is stash, h.partition_is)

    pub activate-Installed :
        u.command ≡ u_flash
        → 0 < u.progress
        → u.progress ≡ length w
        → (activate u).0 ≡ true
        → Installed p w (activate u).1.dev
    activate-Installed c pos whole done i below =
        let (written, e) = activate-eq-activated (h.stash c pos) done in
        ap (λ r. cell p i r.1.dev) e
        ∙ reset_cell p (record u { dev = (esp.set_boot_partition (some p) enabled.1).1 }) i
        ∙ laws.boot_cell (some p) enabled.1 p i
        ∙ enabled-Installed c pos whole written i below

    activate-bootable :
        u.skip_buffer ≡ some (take block w)
        → (activate u).0 ≡ true
        → partition_is_bootable esp (some p) enabled.1 ≡ true
    unfolding activate
    activate-bootable stash done =
        ground (arith, enable_partition-eq u.partition h.partition_is stash, h.partition_is)

    -- A firmware that is activated begins with the image magic.
    pub activate-magic :
        u.command ≡ u_flash
        → 0 < u.progress
        → u.progress ≡ length w
        → (activate u).0 ≡ true
        → get_or w 0 0 ≡ header_magic
    activate-magic c pos whole done =
        let stash = h.stash c pos in
        let (written, e) = activate-eq-activated stash done in
        sym (enabled-Installed c pos whole written 0 (omega arith))
        ∙ bootable-magic p enabled.1 (activate-bootable stash done)
