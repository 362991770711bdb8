-- ===== src/Update/Writes.antt =====
-- `write` of `UpdateClass`: it ends, and what it accepts is added to the image.
use jedge.Base.{
  not, ◌||◌, ℕ, zero, suc, ◌+◌, ◌≤◌, ◌<◌, ◌≡◌, ltb, Bool, true, false, some, List, [], ◌++◌, take,
  drop, arith, refl, sym, ap, ◌∙◌, inl, inr, Bool-cases, length, length-append, length-drop,
  size_mod, sub_size, add_size, memcpy, length-memcpy, take-memcpy, drop-append, get_or-append,
  take-append,
}
use mathlib.Core.Path.{subst}
use mathlib.Core.List.{append_assoc, append-nil}
use jedge.Update.Esp.{Esp, FlashLaws}
use jedge.Update.State.{
  Updater, sector, block, u_flash, bytes, write_sector, sector_done, write_buffer, remaining,
  has_error, is_running, abort_with, remaining,
}
use jedge.Update.UpdateError
use jedge.Update.Transfer.{collect, finish_write, write_loop, write}
use jedge.Update.Image.{Holds}
use jedge.Update.Flush.{Flushed, write_buffer-Flushed}

module _ {esp : Esp} where
  -- A sector that went to the flash leaves the buffer empty.
  pub write_buffer-emptied :
      (u : Updater esp) → (write_buffer u).0 ≡ true → (write_buffer u).1.buffer_len ≡ 0
  unfolding write_buffer write_sector sector_done
  write_buffer-emptied u done = ground arith

  write_loop-total :
      (fuel : ℕ) (left : List ℕ) (u : Updater esp)
      → u.buffer_len ≤ sector
      → u.buffer_len + length left < fuel
      → u.buffer_len + length left < size_mod
      → (r : Bool × List ℕ × Updater esp) × (write_loop fuel left u ≡ some r)
  unfolding write_loop
  write_loop-total zero left u room enough small = absurd (omega arith)
  write_loop-total (suc fuel) left u room enough small =
      elim (Bool-cases (ltb sector (add_size u.buffer_len (length left)))) [
        | inl full ↦
            let k = sub_size sector u.buffer_len in
            let u1 = collect (take k left) u in
            rw full (elim (Bool-cases (write_buffer u1).0) [
              | inl stored ↦
                  let e = write_buffer-emptied u1 stored in
                  let l = length-drop k left in
                  rw stored (
                    write_loop-total fuel (drop k left) (write_buffer u1).1 (omega arith)
                      (ground arith) (ground arith))
              | inr failed ↦ rw failed ((false, left, (write_buffer u1).1), refl)
            ])
        | inr fits ↦ rw fits ((true, left, u), refl)
      ]

  -- `write` always returns: its loop ends, for a buffer of one sector and a 32-bit length.
  pub write-total :
      (bytes_in : List ℕ) (u : Updater esp)
      → u.buffer_len ≤ sector
      → u.buffer_len + length bytes_in < size_mod
      → (r : ℕ × Updater esp) × (write bytes_in u ≡ some r)
  unfolding write
  write-total bytes_in u room small =
      let (r, e) =
        write_loop-total (suc (u.buffer_len + length bytes_in)) bytes_in u room (omega arith)
          small in
      elim (Bool-cases (has_error u || not (is_running u))) [
        | inl stopped ↦ rw stopped ((0, u), refl)
        | inr going ↦ rw going (elim (Bool-cases (ltb (remaining u) (length bytes_in))) [
          | inl big ↦ rw big ((0, abort_with UpdateError.space u), refl)
          | inr fits ↦ rw (fits, e) (finish_write (length bytes_in) r, refl)
        ])
      ]

module _ {esp : Esp} (laws : FlashLaws esp) where
  -- Bytes copied behind the buffered ones are the next ones of the image.
  pub collect-Holds :
      {p : esp.Partition} {w : List ℕ} {u : Updater esp} (piece : List ℕ)
      → Holds laws p w u
      → u.buffer_len + length piece ≤ sector
      → length w + length piece ≤ u.size
      → Holds laws p (w ++ piece) (collect piece u)
  collect-Holds {p} {w} {u} piece h room fits = record {
    buf = memcpy (bytes u.buffer) u.buffer_len piece;
    buffer_is = refl;
    length_buf =
        subst (λ o. length (memcpy (bytes o) u.buffer_len piece) ≡ sector) (sym h.buffer_is)
          (length-memcpy h.buf u.buffer_len piece (omega (arith, h.length_buf)) ∙ h.length_buf);
    partition_is = h.partition_is;
    no_error = h.no_error;
    room = omega arith;
    total = omega (arith, length-append w piece, h.total);
    fits = omega (arith, length-append w piece);
    running = h.running;
    small = h.small;
    pending =
        subst
          (λ o.
            take (add_size u.buffer_len (length piece)) (memcpy (bytes o) u.buffer_len piece)
            ≡ drop u.progress (w ++ piece))
          (sym h.buffer_is)
          (take-memcpy h.buf u.buffer_len piece _ (omega (arith, h.room, h.length_buf))
              (omega arith)
            ∙ ap (λ l. l ++ piece) h.pending
            ∙ sym (drop-append w piece u.progress (omega (arith, h.total))));
    flashed = λ i above below.
        h.flashed i above below ∙ sym (get_or-append w piece i 0 (omega (arith, h.total)));
    stash = λ c pos.
        h.stash c pos
        ∙ ap some (sym (take-append w piece block (omega (arith, h.total, h.header c pos))));
    blank = h.blank;
    header = h.header;
    quiet = h.quiet;
  }

  -- What a call of `write` leaves of the object where it took in `w`.
  pub record Wrote (p : esp.Partition) (w : List ℕ) (u u' : Updater esp) : Type 0 where
    pub holds : Holds laws p w u'
    pub same_size : u'.size ≡ u.size
    pub same_command : u'.command ≡ u.command
    pub same_target : u'.target_md5 ≡ u.target_md5

  pub collected-Flushed :
      {p : esp.Partition} {w : List ℕ} {u : Updater esp} (piece : List ℕ)
      → Holds laws p w u
      → u.buffer_len + length piece ≤ sector
      → length w + length piece ≤ u.size
      → (u.command ≡ u_flash → u.progress ≡ 0 → block ≤ u.buffer_len + length piece)
      → (write_buffer (collect piece u)).0 ≡ true
      → Flushed laws p (w ++ piece) (collect piece u) (write_buffer (collect piece u)).1
  collected-Flushed piece h room fits enough done =
      write_buffer-Flushed laws (collect-Holds piece h room fits) (λ c z. omega (arith, enough c z))
        done

  -- The rounds of the loop: what is taken in, and what is left for the rest of `write`.
  pub record Looped (p : esp.Partition) (w left rest : List ℕ) (u u' : Updater esp) : Type 0 where
    pub taken : List ℕ
    pub splits : left ≡ taken ++ rest
    pub wrote : Wrote p (w ++ taken) u u'
    pub leaves_room : u'.buffer_len + length rest ≤ sector
    pub leaves_some : 0 < length left → 0 < length rest

  pub Looped-here :
      {p : esp.Partition} {w : List ℕ} {u : Updater esp} (left : List ℕ)
      → Holds laws p w u
      → u.buffer_len + length left ≤ sector
      → Looped p w left left u u
  Looped-here {p} {w} {u} left h room = record {
    taken = [];
    splits = refl;
    wrote = record {
      holds = subst (λ l. Holds laws p l u) (sym (append-nil w)) h;
      same_size = refl;
      same_command = refl;
      same_target = refl;
    };
    leaves_room = room;
    leaves_some = λ pos. pos;
  }

  pub Looped-more :
      {p : esp.Partition} {w rest : List ℕ} {u u1 u' : Updater esp} (piece left : List ℕ)
      → Flushed laws p (w ++ piece) (collect piece u) u1
      → 0 < length left
      → Looped p (w ++ piece) left rest u1 u'
      → Looped p w (piece ++ left) rest u u'
  Looped-more {p} {w} {rest} {u} {u1} {u'} piece left f pos l = record {
    taken = piece ++ l.taken;
    splits = ap (λ k. piece ++ k) l.splits ∙ sym (append_assoc piece l.taken rest);
    wrote = record {
      holds = subst (λ k. Holds laws p k u') (append_assoc w piece l.taken) l.wrote.holds;
      same_size = l.wrote.same_size ∙ f.same_size;
      same_command = l.wrote.same_command ∙ f.same_command;
      same_target = l.wrote.same_target ∙ f.same_target;
    };
    leaves_room = l.leaves_room;
    leaves_some = λ _. l.leaves_some pos;
  }
