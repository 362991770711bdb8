-- ===== src/Update/Stopped.antt =====
-- `write` of `UpdateClass` that does not report all its bytes.
use jedge.Base.{
  not, ◌||◌, ℕ, zero, suc, ◌+◌, ◌≡◌, ◌==◌, ltb, Bool, true, false, none, some, some_inj, List,
  arith, refl, sym, ap, ◌∙◌, ◌≢◌, length, take, drop, get_or, sub_size, add_size, ◌⊎◌, inl, inr,
  Bool-cases, Option-cases,
}
use mathlib.Core.Path.{subst}
use jedge.Update.Esp.{Esp}
use jedge.Update.State.{
  Updater, sector, block, has_error, is_running, is_first, remaining, write_buffer, write_sector,
  sector_done, abort_with, header_magic, bytes,
}
use jedge.Update.Methods.{end}
use jedge.Update.Transfer.{
  write, write_loop, write_rest, finish_write, collect, write_stream, write_from,
}

module _ {esp : Esp} where
  -- after an error, or with no update running
  abbrev pub IsStopped : Updater esp → Type 0
  IsStopped u = (u.error ≢ 0) ⊎ (u.size ≡ 0)

  -- Where an update is stopped, no method that takes data in or ends the update does anything.
  stopped_lem :
      (u : Updater esp) (bytes_in : List ℕ) (fuel : ℕ) (s : esp.Stream) (early : Bool)
      → (u.error ≢ 0) ⊎ (u.size ≡ 0)
      → (write bytes_in u ≡ some (0, u))
        × (write_stream fuel s u ≡ some (0, s, u))
        × (write_from fuel s u ≡ some (0, s, u))
        × (end early u ≡ (false, u))
  unfolding write write_stream write_from end
  stopped_lem u bytes_in fuel s early h =
      let off : (has_error u || not (is_running u)) ≡ true = ground arith in
      let off' : (has_error u || u.size == 0) ≡ true = ground arith in
      (rw off, rw off, rw off, rw off')

  -- the last thing that was done to the device is a call of malloc that failed
  abbrev pub NoMemory : Updater esp → Type 0
  NoMemory u = (d : esp.Dev) × ((esp.malloc block d).0 ≡ none) × (u.dev ≡ (esp.malloc block d).1)

  -- why a sector was not stored: an error, or no memory for the header
  abbrev pub IsShort : Updater esp → Type 0
  IsShort u = NoMemory u ⊎ IsStopped u

  write_sector-IsStopped :
      (skip : ℕ) (u : Updater esp)
      → (write_sector skip u).0 ≡ false
      → (write_sector skip u).1.error ≢ 0
  unfolding write_sector sector_done abort_with
  write_sector-IsStopped skip u failed = ground arith

  write_buffer-IsShort : (u : Updater esp) → (write_buffer u).0 ≡ false → IsShort (write_buffer u).1
  unfolding write_buffer abort_with
  write_buffer-IsShort u failed =
      let b = bytes u.buffer in
      let d = (esp.malloc block u.dev).1 in
      elim (Bool-cases (is_first u)) [
        | inr later ↦ rw later (inr (inl (write_sector-IsStopped 0 u (rw later at failed))))
        | inl first ↦ elim (Bool-cases (get_or b 0 0 == header_magic)) [
          | inr wrong ↦ rw (first, wrong) (inr (inl (omega arith)))
          | inl right ↦ elim (Option-cases (esp.malloc block u.dev).0) [
            | inl no_room ↦ rw (first, right, no_room) (inl (u.dev, no_room, refl))
            | inr (x, room) ↦
                rw (first, right, room)
                  (inr (
                    inl (
                      write_sector-IsStopped block
                        (record u { dev = d; skip_buffer = some (take block b) })
                        (rw (first, right, room) at failed))))
          ]
        ]
      ]

  write_loop-IsShort :
      (fuel : ℕ) (left left' : List ℕ) (u v : Updater esp)
      → write_loop fuel left u ≡ some (false, left', v)
      → IsShort v
  unfolding write_loop
  write_loop-IsShort zero left left' u v e = absurd cc
  write_loop-IsShort (suc fuel) left left' u v e =
      let k = sub_size sector u.buffer_len in
      let u1 = collect (take k left) u in
      elim (Bool-cases (ltb sector (add_size u.buffer_len (length left)))) [
        | inr fits ↦ let q = ap (λ r. r.0) (some_inj (rw fits at e)) in absurd cc
        | inl full ↦ elim (Bool-cases (write_buffer u1).0) [
          | inl stored ↦
              write_loop-IsShort fuel (drop k left) left' (write_buffer u1).1 v
                (rw (full, stored) at e)
          | inr failed ↦
              subst IsShort (ap (λ r. r.2) (some_inj (rw (full, failed) at e)))
                (write_buffer-IsShort u1 failed)
        ]
      ]

  finish_write-IsShort :
      (fuel n : ℕ) (bytes_in : List ℕ) (u : Updater esp) (r : Bool × List ℕ × Updater esp)
      → write_loop fuel bytes_in u ≡ some r
      → (finish_write n r).0 ≢ n
      → IsShort (finish_write n r).1
  unfolding write_rest
  finish_write-IsShort fuel n bytes_in u (false, left, v) e short =
      write_loop-IsShort fuel bytes_in left u v e
  finish_write-IsShort fuel n bytes_in u (true, left, v) e short =
      let u1 = collect left v in
      elim (Bool-cases (u1.buffer_len == remaining u1)) [
        | inr more ↦ absurd (short (rw more refl))
        | inl last ↦ elim (Bool-cases (write_buffer u1).0) [
          | inl stored ↦ absurd (short (rw (last, stored) refl))
          | inr failed ↦ rw (last, failed) (write_buffer-IsShort u1 failed)
        ]
      ]

  -- the result of a write that does not report all its bytes
  write-IsShort :
      (bytes_in : List ℕ) (n : ℕ) (u v : Updater esp)
      → write bytes_in u ≡ some (n, v)
      → n ≢ length bytes_in
      → IsShort v
  unfolding write abort_with
  write-IsShort bytes_in n u v e short =
      let fuel = suc (u.buffer_len + length bytes_in) in
      elim (Bool-cases (has_error u || not (is_running u))) [
        | inl off ↦ subst IsShort (ap (λ r. r.1) (some_inj (rw off at e))) (inr (ground arith))
        | inr on ↦ elim (Bool-cases (ltb (remaining u) (length bytes_in))) [
          | inl over ↦
              subst IsShort (ap (λ r. r.1) (some_inj (rw (on, over) at e)))
                (inr (inl (omega arith)))
          | inr fits ↦ elim (Option-cases (write_loop fuel bytes_in u)) [
            | inl out ↦ absurd (let q = rw (on, fits, out) at e in cc)
            | inr (r, got) ↦
                let q = some_inj (rw (on, fits, got) at e) in
                subst IsShort (ap (λ r. r.1) q) (
                  finish_write-IsShort fuel (length bytes_in) bytes_in u r got
                    (λ z. short (ap (λ r. r.0) (sym q) ∙ z)))
          ]
        ]
      ]

  -- A write that returns another number than that of its bytes, in whatever state and for whatever
  -- reason, stops the update: every later write, of any kind, reports 0 and every later end returns
  -- false, and they leave the object, the device and the stream as they are. The one exception is
  -- that there was no memory for the header of a firmware: the last call to the device was a malloc
  -- of a block that failed.
  pub write-stops :
      (bytes_in : List ℕ) (n : ℕ) (u v : Updater esp) (later : List ℕ) (fuel : ℕ) (s : esp.Stream)
      (early : Bool)
      → write bytes_in u ≡ some (n, v)
      → n ≢ length bytes_in
      → NoMemory v
        ⊎ (write later v ≡ some (0, v))
          × (write_stream fuel s v ≡ some (0, s, v))
          × (write_from fuel s v ≡ some (0, s, v))
          × (end early v ≡ (false, v))
  write-stops bytes_in n u v later fuel s early e short =
      elim (write-IsShort bytes_in n u v e short) [
        | inl no_room ↦ inl no_room
        | inr stopped ↦ inr (stopped_lem v later fuel s early stopped)
      ]
