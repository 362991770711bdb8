-- ===== src/Update/Sector.antt =====
-- `_writeBuffer` moves the buffered part of the image into the flash.
use jedge.Base.{
  ℕ, ◌+◌, ◌-◌, ◌≤◌, ◌<◌, ◌≡◌, ◌==◌, if◌then◌else◌, sub_size, Bool, true, false, Option, none, some,
  List, length, get_or, take, drop, set, arith, refl, sym, ◌∙◌, ap, inl, inr, ◌⊎◌, length-drop,
  get_or-drop, get_or-take, Bool-cases, length-set, drop_all, add_size,
}
use mathlib.Core.Path.{subst}
use jedge.Update.Esp.{Esp, FlashLaws}
use jedge.Update.State.{
  Updater, sector, block, u_flash, header_magic, bytes, is_first, notify, write_sector, sector_done,
}
use jedge.Update.Image.{first_cell, Holds}

-- The byte `k` of the buffered part is the byte `progress + k` of the image.
pending_byte :
    (buf w : List ℕ) (n p k : ℕ)
    → take n buf ≡ drop p w
    → k < n
    → get_or buf k 0 ≡ get_or w (p + k) 0
pending_byte buf w n p k e h =
    sym (get_or-take n buf k 0 h) ∙ ap (λ l. get_or l k 0) e ∙ get_or-drop p w k 0

module _ {esp : Esp} (laws : FlashLaws esp) where
  open laws use {cell}

  -- A progress callback that leaves the flash alone, or none.
  notify_cell :
      (p : esp.Partition) (c : Option (ℕ → ℕ → esp.Dev → esp.Dev)) (a b : ℕ) (d : esp.Dev) (i : ℕ)
      → ((f : ℕ → ℕ → esp.Dev → esp.Dev)
          → c ≡ some f
          → (a b : ℕ) (d : esp.Dev) (i : ℕ) → cell p i (f a b d) ≡ cell p i d)
      → cell p i (notify esp c a b d) ≡ cell p i d
  unfolding notify
  notify_cell p none a b d i quiet = refl
  notify_cell p (some f) a b d i quiet = quiet f refl a b d i

  module _ {p : esp.Partition} {w : List ℕ} {u : Updater esp} (h : Holds laws p w u) where
    -- the device when the sector is erased and written
    abbrev pub started : esp.Dev
    started = if u.progress == 0 then notify esp u.progress_callback 0 u.size u.dev else u.dev

    abbrev pub erased : Bool × esp.Dev
    erased = esp.partition_erase_range (some p) u.progress sector started

    abbrev pub stored : ℕ → Bool × esp.Dev
    stored skip =
        esp.partition_write (some p) (u.progress + skip) (drop skip h.buf)
          (sub_size u.buffer_len skip) erased.1

    started_cell : (i : ℕ) → cell p i started ≡ cell p i u.dev
    started_cell i = ground (arith, notify_cell p u.progress_callback 0 u.size u.dev i h.quiet)

    -- Where the sector has been written, every byte taken in is in the flash, the skipped ones aside.
    stored_cell :
        (skip i : ℕ)
        → skip ≤ u.buffer_len
        → erased.0 ≡ true
        → (stored skip).0 ≡ true
        → first_cell u.command ≤ i
        → (i < u.progress) ⊎ (u.progress + skip ≤ i)
        → i < length w
        → cell p i (stored skip).1 ≡ get_or w i 0
    stored_cell skip i short clean done above (inl old) below =
        laws.write_beside p (u.progress + skip) (drop skip h.buf) (sub_size u.buffer_len skip)
          erased.1 i (inl (omega arith))
        ∙ laws.erase_below p u.progress sector started i old
        ∙ started_cell i
        ∙ h.flashed i above old
    stored_cell skip i short clean done above (inr new) below =
        let e : skip + (i - (u.progress + skip)) ≡ i - u.progress = omega arith in
        let e' : u.progress + (i - u.progress) ≡ i = omega arith in
        laws.write_at p (u.progress + skip) (drop skip h.buf) (sub_size u.buffer_len skip) erased.1
          i done
          (λ k from to.
            laws.erase_at p u.progress sector started k clean (omega arith)
              (omega (arith, h.room, h.total, h.fits, h.small)))
          new (omega (arith, h.total, h.small, h.fits))
          (omega (arith, length-drop skip h.buf, h.room, h.length_buf))
        ∙ get_or-drop skip h.buf (i - (u.progress + skip)) 0
        ∙ ap (λ k. get_or h.buf k 0) e
        ∙ pending_byte h.buf w u.buffer_len u.progress (i - u.progress) h.pending
            (omega (arith, h.total))
        ∙ ap (λ k. get_or w k 0) e'

    -- The record that `_writeBuffer` leaves behind on success.
    abbrev pub written : ℕ → Updater esp
    written skip = (sector_done (record u { dev = (stored skip).1 })).1

    written_cell : (skip i : ℕ) → cell p i (written skip).dev ≡ cell p i (stored skip).1
    unfolding sector_done
    written_cell skip i = notify_cell p u.progress_callback _ _ (stored skip).1 i h.quiet

    pub write_sector-eq-written :
        (skip : ℕ)
        → (write_sector skip u).0 ≡ true
        → (write_sector skip u ≡ (true, written skip))
          × (erased.0 ≡ true)
          × ((stored skip).0 ≡ true)
    unfolding write_sector sector_done
    write_sector-eq-written skip done = ground (arith, h.buffer_is, h.partition_is)

    -- `progress` after the sector
    progress_of_written : add_size u.progress u.buffer_len ≡ length w
    progress_of_written = omega (arith, h.total, h.fits, h.small)

    module _ (skip : ℕ) (short : skip ≤ u.buffer_len)
        (head : u.progress ≡ 0 → skip ≡ first_cell u.command) (body : 0 < u.progress → skip ≡ 0)
        (stashed : u.command ≡ u_flash → u.skip_buffer ≡ some (take block w))
        (clean : erased.0 ≡ true) (done : (stored skip).0 ≡ true) where
      split : (i : ℕ) → first_cell u.command ≤ i → (i < u.progress) ⊎ (u.progress + skip ≤ i)
      split i above = grind (arith, head, body)

      length_kept : (b : Bool) → length (if b then set h.buf 0 header_magic else h.buf) ≡ sector
      length_kept true = length-set h.buf 0 header_magic ∙ h.length_buf
      length_kept false = h.length_buf

      written_flashed :
          (i : ℕ)
          → first_cell u.command ≤ i
          → i < add_size u.progress u.buffer_len
          → cell p i (written skip).dev ≡ get_or w i 0
      written_flashed i above below =
          written_cell skip i
          ∙ stored_cell skip i short clean done above (split i above)
              (rw (← progress_of_written) below)

      written_blank : u.command ≡ u_flash → (i : ℕ) → i < block → cell p i (written skip).dev ≡ 0xFF
      written_blank c i below = elim (Bool-cases (u.progress == 0)) [
        | inl start ↦
            written_cell skip i
            ∙ laws.write_beside p (u.progress + skip) (drop skip h.buf) (sub_size u.buffer_len skip)
                erased.1 i (inl (ground (arith, head)))
            ∙ laws.erase_at p u.progress sector started i clean (ground arith) (ground arith)
        | inr later ↦
            written_cell skip i
            ∙ laws.write_beside p (u.progress + skip) (drop skip h.buf) (sub_size u.buffer_len skip)
                erased.1 i (inl (ground (arith, h.header c)))
            ∙ laws.erase_below p u.progress sector started i (ground (arith, h.header c))
            ∙ started_cell i
            ∙ h.blank c (ground arith) i below
      ]

      pub written-Holds : Holds laws p w (written skip)
      unfolding sector_done
      written-Holds = record {
        buf = if is_first u then set (bytes u.buffer) 0 header_magic else bytes u.buffer;
        buffer_is = refl;
        length_buf =
            subst
              (λ o. length (if is_first u then set (bytes o) 0 header_magic else bytes o) ≡ sector)
              (sym h.buffer_is) (length_kept (is_first u));
        partition_is = h.partition_is;
        no_error = h.no_error;
        room = omega arith;
        total = omega (arith, progress_of_written);
        fits = h.fits;
        running = h.running;
        small = h.small;
        pending = sym (drop_all _ w (omega (arith, progress_of_written)));
        flashed = written_flashed;
        blank = λ c _. written_blank c;
        stash = λ c _. stashed c;
        header = λ c _. ground (arith, progress_of_written, h.total, h.header c);
        quiet = h.quiet;
      }
