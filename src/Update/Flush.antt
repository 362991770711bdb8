-- ===== src/Update/Flush.antt =====
-- `_writeBuffer`, the header stash included: where it reports success, nothing of the image is lost.
use jedge.Base.{
  ℕ, ◌≤◌, ◌<◌, ◌≡◌, true, false, some, List, take, arith, refl, sym, ap, ◌∙◌, drop, take-take, inl,
  inr, Bool-cases,
}
use mathlib.Core.Path.{subst}
use jedge.Update.Esp.{Esp, FlashLaws}
use jedge.Update.State.{Updater, block, u_flash, is_first, write_sector, sector_done, write_buffer}
use jedge.Update.Image.{Holds, first_cell}
use jedge.Update.Sector.{write_sector-eq-written, written-Holds}

module _ {esp : Esp} (laws : FlashLaws esp) where
  -- What a sector in the flash leaves of the object.
  pub record Flushed (p : esp.Partition) (w : List ℕ) (u u' : Updater esp) : Type 0 where
    pub holds : Holds laws p w u'
    pub emptied : u'.buffer_len ≡ 0
    pub same_size : u'.size ≡ u.size
    pub same_command : u'.command ≡ u.command
    pub same_target : u'.target_md5 ≡ u.target_md5

  module _ {p : esp.Partition} {w : List ℕ} {u : Updater esp} (h : Holds laws p w u) where
    sector_Flushed :
        (skip : ℕ)
        → skip ≤ u.buffer_len
        → (u.progress ≡ 0 → skip ≡ first_cell u.command)
        → (0 < u.progress → skip ≡ 0)
        → (u.command ≡ u_flash → u.skip_buffer ≡ some (take block w))
        → (write_sector skip u).0 ≡ true
        → Flushed p w u (write_sector skip u).1
    unfolding sector_done
    sector_Flushed skip short head body stashed done =
        let e = write_sector-eq-written laws h skip done in
        subst (λ r. Flushed p w u r.1) (sym e.0)
          (record {
            holds = written-Holds laws h skip short head body stashed e.1 e.2;
            emptied = refl;
            same_size = refl;
            same_command = refl;
            same_target = refl;
          })

  module _ {p : esp.Partition} {w : List ℕ} {u : Updater esp} (h : Holds laws p w u) where
    abbrev with_stash : Updater esp
    with_stash = record u {
      dev = (esp.malloc block u.dev).1;
      skip_buffer = some (take block h.buf);
    }

    with_stash-Holds : u.progress ≡ 0 → Holds laws p w with_stash
    with_stash-Holds e = record {
      buf = h.buf;
      buffer_is = h.buffer_is;
      length_buf = h.length_buf;
      partition_is = h.partition_is;
      no_error = h.no_error;
      room = h.room;
      total = h.total;
      fits = h.fits;
      running = h.running;
      small = h.small;
      pending = h.pending;
      flashed = λ i _ below. absurd (omega arith);
      blank = λ _ pos. absurd (omega arith);
      stash = λ _ pos. absurd (omega arith);
      header = λ _ pos. absurd (omega arith);
      quiet = h.quiet;
    }

    -- The first 16 bytes of the buffer are those of the image.
    stash_is : u.progress ≡ 0 → block ≤ u.buffer_len → take block h.buf ≡ take block w
    stash_is e b =
        sym (take-take block u.buffer_len h.buf b)
        ∙ ap (take block) (h.pending ∙ ap (λ n. drop n w) e)

    write_buffer-first :
        is_first u ≡ true
        → (write_buffer u).0 ≡ true
        → write_buffer u ≡ write_sector block with_stash
    unfolding write_buffer
    write_buffer-first e done = ground (arith, h.buffer_is)

    write_buffer-later : is_first u ≡ false → write_buffer u ≡ write_sector 0 u
    unfolding write_buffer
    write_buffer-later e = ground arith

    -- Where `_writeBuffer` reports success, all the bytes taken in are in the flash, but for the
    -- header of a firmware, which is stashed.
    pub write_buffer-Flushed :
        (u.command ≡ u_flash → u.progress ≡ 0 → block ≤ u.buffer_len)
        → (write_buffer u).0 ≡ true
        → Flushed p w u (write_buffer u).1
    write_buffer-Flushed enough done = elim (Bool-cases (is_first u)) [
      | inl first ↦
          let e = write_buffer-first first done in
          let at_start : u.progress ≡ 0 = ground arith in
          let is_flash : u.command ≡ u_flash = ground arith in
          let hs = with_stash-Holds at_start in
          let f : Flushed p w with_stash (write_sector block with_stash).1 =
            sector_Flushed hs block (enough is_flash at_start) (λ _. ground arith)
              (λ n. absurd (omega arith))
              (λ _. ap some (stash_is at_start (enough is_flash at_start)))
              (ap (λ r. r.0) (sym e) ∙ done) in
          subst (λ r. Flushed p w u r.1) (sym e)
            (record {
              holds = f.holds;
              emptied = f.emptied;
              same_size = f.same_size;
              same_command = f.same_command;
              same_target = f.same_target;
            })
      | inr later ↦
          let e = write_buffer-later later in
          subst (λ r. Flushed p w u r.1) (sym e)
            (sector_Flushed h 0 (omega arith) (λ z. ground arith) (λ _. refl)
              (λ c. ground (arith, h.stash c)) (ap (λ r. r.0) (sym e) ∙ done))
    ]
