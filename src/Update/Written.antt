-- ===== src/Update/Written.antt =====
-- What `write` of `UpdateClass` accepts is added to the image, in order and in full.
use jedge.Base.{
  ℕ, suc, ◌+◌, ◌≤◌, ◌<◌, ◌≡◌, ltb, Bool, true, false, not, ◌||◌, some, List, ◌++◌, arith, sym, ap,
  ◌∙◌, inl, inr, some_inj, Option-cases, length, length-append, size_mod, sub_size,
}
use mathlib.Core.Path.{subst}
use mathlib.Core.List.{append_assoc}
use jedge.Update.Esp.{Esp, FlashLaws}
use jedge.Update.State.{Updater, sector, block, u_flash, remaining, has_error, is_running}
use jedge.Update.Transfer.{finish_write, write_loop, write_rest, write}
use jedge.Update.Image.{Holds}
use jedge.Update.Writes.{Wrote}
use jedge.Update.Accepted.{write_loop-Looped, write_loop-left, write_rest-Wrote}

module _ {esp : Esp} (laws : FlashLaws esp) where
  finish-Wrote :
      (fuel : ℕ) {p : esp.Partition} {w : List ℕ} {u u' : Updater esp} (bytes_in : List ℕ)
      → Holds laws p w u
      → 0 < length bytes_in
      → length w + length bytes_in ≤ u.size
      → (u.command ≡ u_flash → block ≤ u.size)
      → u.size + sector < size_mod
      → (r : Bool × List ℕ × Updater esp) → write_loop fuel bytes_in u ≡ some r
      → finish_write (length bytes_in) r ≡ (length bytes_in, u')
      → Wrote laws p (w ++ bytes_in) u u'
  finish-Wrote fuel {p} {w} {u} {u'} bytes_in h pos fits enough small (true, left, v) e done =
      let l = write_loop-Looped laws fuel w bytes_in u h fits enough small e in
      let same = l.wrote in
      let lengths = ap length l.splits ∙ length-append l.taken left in
      let o =
        write_rest-Wrote laws (length bytes_in) left same.holds l.leaves_room
          (omega (arith, lengths, length-append w l.taken, same.same_size))
          (λ c. omega (arith, same.same_size, enough (sym same.same_command ∙ c)))
          (l.leaves_some pos) (omega (arith, lengths)) (omega arith) (ap (λ r. r.0) done) in
      subst (λ r. Wrote laws p (w ++ bytes_in) u r) (ap (λ r. r.1) done)
        (record {
          holds =
              subst (λ k. Holds laws p k (write_rest (length bytes_in) left v).1)
                (append_assoc w l.taken left ∙ ap (λ k. w ++ k) (sym l.splits)) o.holds;
          same_size = o.same_size ∙ same.same_size;
          same_command = o.same_command ∙ same.same_command;
          same_target = o.same_target ∙ same.same_target;
        })
  finish-Wrote fuel {u} bytes_in h pos fits enough small (false, left, v) e done =
      let some_left = write_loop-left fuel bytes_in u h.room (omega (arith, h.room)) e in
      let n : sub_size (length bytes_in) (length left) ≡ length bytes_in = ap (λ r. r.0) done in
      absurd (omega (arith, some_left.0, some_left.1))

  -- `write` that reports all its bytes as written has added them to the image, for an update that
  -- they fit into. A firmware has at least the 16 bytes of a header block.
  pub write-Wrote :
      {p : esp.Partition} {w : List ℕ} {u u' : Updater esp} (bytes_in : List ℕ)
      → Holds laws p w u
      → 0 < length bytes_in
      → length w + length bytes_in ≤ u.size
      → (u.command ≡ u_flash → block ≤ u.size)
      → u.size + sector < size_mod
      → write bytes_in u ≡ some (length bytes_in, u')
      → Wrote laws p (w ++ bytes_in) u u'
  unfolding write
  write-Wrote {p} {w} {u} {u'} bytes_in h pos fits enough small e =
      let going : (has_error u || not (is_running u)) ≡ false =
        ground (arith, h.no_error, h.running) in
      let accepted : ltb (remaining u) (length bytes_in) ≡ false =
        ground (arith, h.total, h.fits, h.small) in
      let e1 = rw (going, accepted) at e in
      elim (Option-cases (write_loop (suc (u.buffer_len + length bytes_in)) bytes_in u)) [
        | inl out ↦ let e2 = rw out at e1 in cc
        | inr (r, er) ↦
            finish-Wrote _ bytes_in h pos fits enough small r er (some_inj (rw er at e1))
      ]
