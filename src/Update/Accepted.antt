-- ===== src/Update/Accepted.antt =====
-- What `write` of `UpdateClass` accepts is added to the image, in order and in full.
use jedge.Base.{
  ℕ, zero, suc, ◌+◌, ◌≤◌, ◌<◌, ◌≡◌, ◌==◌, ltb, Bool, true, false, some, List, ◌++◌, take, drop,
  arith, refl, sym, ap, ◌∙◌, inl, inr, Bool-cases, some_inj, length, length-append, length-drop,
  length-take, take-append-drop, size_mod, sub_size, add_size,
}
use mathlib.Core.Path.{subst}
use jedge.Update.Esp.{Esp, FlashLaws}
use jedge.Update.State.{Updater, sector, block, u_flash, write_buffer, remaining}
use jedge.Update.Transfer.{collect, write_loop, write_rest}
use jedge.Update.Image.{Holds}
use jedge.Update.Flush.{Flushed}
use jedge.Update.Writes.{
  Looped, Looped-here, Looped-more, Wrote, collected-Flushed, collect-Holds, write_buffer-emptied,
}

module _ {esp : Esp} (fuel : ℕ) (left : List ℕ) (u : Updater esp) where
  abbrev piece : List ℕ
  piece = take (sub_size sector u.buffer_len) left

  abbrev later : List ℕ
  later = drop (sub_size sector u.buffer_len) left

  abbrev is_over : Bool
  is_over = ltb sector (add_size u.buffer_len (length left))

  write_loop-last : is_over ≡ false → write_loop (suc fuel) left u ≡ some (true, left, u)
  unfolding write_loop
  write_loop-last last = rw last

  write_loop-stop :
      is_over ≡ true
      → (write_buffer (collect piece u)).0 ≡ false
      → write_loop (suc fuel) left u ≡ some (false, left, (write_buffer (collect piece u)).1)
  unfolding write_loop
  write_loop-stop over failed = rw over (rw failed)

  write_loop-next :
      is_over ≡ true
      → (write_buffer (collect piece u)).0 ≡ true
      → write_loop (suc fuel) left u ≡ write_loop fuel later (write_buffer (collect piece u)).1
  unfolding write_loop
  write_loop-next over stored = rw over (rw stored)

-- The lengths in a round that fills the sector.
record Round (b n size : ℕ) (left : List ℕ) : Type 0 where
  fills : b + length (take (sub_size sector b) left) ≡ sector
  keeps :
      length (take (sub_size sector b) left) + length (drop (sub_size sector b) left) ≡ length left
  goes_on : 0 < length (drop (sub_size sector b) left)

Round-lengths :
    (b n size : ℕ) (left : List ℕ)
    → b ≤ sector
    → b ≤ n
    → n + length left ≤ size
    → size + sector < size_mod
    → ltb sector (add_size b (length left)) ≡ true
    → Round b n size left
Round-lengths b n size left room part fits small over =
    let l = length-take (sub_size sector b) left in
    let l' = length-drop (sub_size sector b) left in
    record { fills = ground arith; keeps = ground arith; goes_on = ground arith }

-- Where the loop gives up, some of the data is left.
pub write_loop-left :
    {esp : Esp} (fuel : ℕ) (left : List ℕ) {rest : List ℕ} (u : Updater esp) {u' : Updater esp}
    → u.buffer_len ≤ sector
    → u.buffer_len + length left < size_mod
    → write_loop fuel left u ≡ some (false, rest, u')
    → (0 < length rest) × (length rest ≤ length left)
unfolding write_loop
write_loop-left zero left u room small e = cc
write_loop-left (suc fuel) left {rest} u {u'} room small e =
    elim (Bool-cases (is_over fuel left u)) [
      | inr last ↦ absurd (let e2 = sym (write_loop-last fuel left u last) ∙ e in cc)
      | inl full ↦
          let u1 = collect (piece fuel left u) u in
          elim (Bool-cases (write_buffer u1).0) [
            | inr failed ↦
                let e2 : left ≡ rest =
                  ap (λ (r : Bool × List ℕ × _). r.1)
                    (some_inj (sym (write_loop-stop fuel left u full failed) ∙ e)) in
                let l = ap length e2 in ground arith
            | inl stored ↦
                let ih =
                  write_loop-left fuel (later fuel left u) (write_buffer u1).1
                    (omega (arith, write_buffer-emptied u1 stored))
                    (ground (
                      arith,
                      write_buffer-emptied u1 stored,
                      length-drop (sub_size sector u.buffer_len) left,
                    ))
                    (sym (write_loop-next fuel left u full stored) ∙ e) in
                (ih.0, omega (arith, ih.1, length-drop (sub_size sector u.buffer_len) left))
          ]
    ]

module _ {esp : Esp} (laws : FlashLaws esp) where
  write_loop-zero :
      {p : esp.Partition} {w left rest : List ℕ} {u u' : Updater esp}
      → write_loop 0 left u ≡ some (true, rest, u')
      → Looped laws p w left rest u u'
  unfolding write_loop
  write_loop-zero e = cc

  pub write_loop-Looped :
      (fuel : ℕ) {p : esp.Partition} (w left : List ℕ) {rest : List ℕ} (u : Updater esp)
      {u' : Updater esp}
      → Holds laws p w u
      → length w + length left ≤ u.size
      → (u.command ≡ u_flash → block ≤ u.size)
      → u.size + sector < size_mod
      → write_loop fuel left u ≡ some (true, rest, u')
      → Looped laws p w left rest u u'
  write_loop-Looped zero w left u h fits enough small e = write_loop-zero e
  write_loop-Looped (suc fuel) {p} w left {rest} u {u'} h fits enough small e =
      elim (Bool-cases (is_over fuel left u)) [
        | inr last ↦
            subst (λ (r : Bool × List ℕ × Updater esp). Looped laws p w left r.1 u r.2)
              (some_inj (sym (write_loop-last fuel left u last) ∙ e))
              (Looped-here laws left h (ground (arith, h.total, h.fits, h.room)))
        | inl full ↦
            let u1 = collect (piece fuel left u) u in
            let r =
              Round-lengths u.buffer_len (length w) u.size left h.room (omega (arith, h.total)) fits
                small full in
            elim (Bool-cases (write_buffer u1).0) [
              | inr failed ↦
                  absurd (let e2 = sym (write_loop-stop fuel left u full failed) ∙ e in cc)
              | inl stored ↦
                  let f : Flushed laws p (w ++ piece fuel left u) u1 (write_buffer u1).1 =
                    collected-Flushed laws (piece fuel left u) h (omega (arith, r.fills))
                      (omega (arith, r.keeps)) (λ _ _. omega (arith, r.fills)) stored in
                  subst (λ l. Looped laws p w l rest u u')
                    (take-append-drop (sub_size sector u.buffer_len) left)
                    (Looped-more laws (piece fuel left u) (later fuel left u) f r.goes_on (
                      write_loop-Looped fuel (w ++ piece fuel left u) (later fuel left u)
                        (write_buffer u1).1 f.holds
                        (omega (arith, r.keeps, f.same_size, length-append w (piece fuel left u)))
                        (λ c. omega (arith, f.same_size, enough (sym f.same_command ∙ c)))
                        (omega (arith, f.same_size))
                        (sym (write_loop-next fuel left u full stored) ∙ e)))
            ]
      ]

  -- What is left fits the buffer: it is copied, and goes to the flash where it completes the image.
  pub write_rest-Wrote :
      (n : ℕ) {p : esp.Partition} {w : List ℕ} (left : List ℕ) {u : Updater esp}
      → Holds laws p w u
      → u.buffer_len + length left ≤ sector
      → length w + length left ≤ u.size
      → (u.command ≡ u_flash → block ≤ u.size)
      → 0 < length left
      → length left ≤ n
      → n < size_mod
      → (write_rest n left u).0 ≡ n
      → Wrote laws p (w ++ left) u (write_rest n left u).1
  unfolding write_rest
  write_rest-Wrote n {p} {w} left {u} h room fits enough pos part small e =
      let u1 = collect left u in
      let h1 = collect-Holds laws left h room fits in
      elim (Bool-cases (u1.buffer_len == remaining u1)) [
        | inr more ↦
            rw more
              (record { holds = h1; same_size = refl; same_command = refl; same_target = refl })
        | inl whole ↦ elim (Bool-cases (write_buffer u1).0) [
          | inr failed ↦ absurd (ground arith)
          | inl stored ↦
              let f : Flushed laws p (w ++ left) u1 (write_buffer u1).1 =
                collected-Flushed laws left h room fits
                  (λ c z. ground (arith, enough c, h.total, h.small, h.fits)) stored in
              rw whole (
                rw stored (record {
                  holds = f.holds;
                  same_size = f.same_size;
                  same_command = f.same_command;
                  same_target = f.same_target;
                }))
        ]
      ]
