-- ===== src/Update/Digest.antt =====
-- `end` of `UpdateClass` with a digest that was set.
use jedge.Base.{
  ℕ, get_or, take, some, Option-cases, not, ◌||◌, ◌&&◌, ◌≡◌, ◌==◌, ltb, if◌then◌else◌, if_both,
  Bool, true, false, List, [], arith, refl, sym, ap, ◌∙◌, ◌≢◌, length, ◌⊎◌, inl, inr, Bool-cases,
}
use jedge.Update.Esp.{Esp}
use jedge.Update.State.{
  Updater, block, bytes, header_magic, is_first, has_error, is_finished, reset, write_buffer,
  write_sector, sector_done, abort_with, light,
}
use jedge.Update.Methods.{end, check_md5, equal}

module _ {esp : Esp} where
  write_sector-target :
      (skip : ℕ) (u : Updater esp) → (write_sector skip u).1.target_md5 ≡ u.target_md5
  unfolding write_sector sector_done abort_with reset
  write_sector-target skip u = ground arith

  write_buffer-target : (u : Updater esp) → (write_buffer u).1.target_md5 ≡ u.target_md5
  unfolding write_buffer abort_with reset
  write_buffer-target u =
      let same = λ (r : Bool × Updater esp). r.1.target_md5 ≡ u.target_md5 in
      let d = (esp.malloc block u.dev).1 in
      if_both same (is_first u)
        (if_both same (not (get_or (bytes u.buffer) 0 0 == header_magic)) refl
          (elim (Option-cases (esp.malloc block u.dev).0) [
            | inl no_room ↦ rw no_room refl
            | inr (x, room) ↦ rw room (
                write_sector-target block
                  (record u { dev = d; skip_buffer = some (take block (bytes u.buffer)) }))
          ]))
        (write_sector-target 0 u)

  -- the object whose digest is checked: end(true) writes what is in the buffer first
  abbrev pub last_written : Bool → Updater esp → Updater esp
  last_written early u = if early && ltb 0 u.buffer_len then (write_buffer u).1 else u

  abbrev pub digest : Updater esp → List ℕ
  digest u = esp.md5_to_string (esp.md5_calculate u.md5)

  -- `d` is the device of the object, with at most its LED switched.
  abbrev pub IsLit : Updater esp → esp.Dev → Type 0
  IsLit u d = (d ≡ u.dev) ⊎ (d ≡ light esp u.led_pin (not u.led_on) u.dev)

  check_md5-wrong :
      (u : Updater esp)
      → u.target_md5 ≢ []
      → equal u.target_md5 (digest u) ≡ false
      → ((check_md5 u).0 ≡ false) × IsLit u (check_md5 u).1.dev
  unfolding check_md5 abort_with reset
  check_md5-wrong u target differs =
      let wrong : (ltb 0 (length u.target_md5) && not (equal u.target_md5 (digest u))) ≡ true =
        ground arith in
      rw wrong (refl, inr refl)

  last_written-target :
      (early : Bool) (u : Updater esp) → (last_written early u).target_md5 ≡ u.target_md5
  last_written-target early u =
      if_both (λ (v : Updater esp). v.target_md5 ≡ u.target_md5) (early && ltb 0 u.buffer_len)
        (write_buffer-target u) refl

  -- The image that is confirmed has the digest that was set: where the digest of all that was added
  -- to it, the rest of the buffer included for end(true), is another one, end returns false, for
  -- end() and end(true), in whatever state, and neither the header is written nor the partition to
  -- boot chosen: beyond the write of the rest of the buffer, the device has at most its LED switched.
  pub end-md5 :
      (early : Bool) (u : Updater esp)
      → u.target_md5 ≢ []
      → equal u.target_md5 (digest (last_written early u)) ≡ false
      → ((end early u).0 ≡ false)
        × (IsLit u (end early u).1.dev ⊎ IsLit (last_written early u) (end early u).1.dev)
  unfolding end abort_with reset
  end-md5 true u target differs =
      let v = last_written true u in
      let same = last_written-target true u in
      let (bad, lit) =
        check_md5-wrong (record v { size = v.progress }) (λ e. target (sym same ∙ e))
          (ap (λ t. equal t (digest v)) same ∙ differs) in
      elim (Bool-cases (has_error u || u.size == 0)) [
        | inl off ↦ rw off (refl, inl (inl refl))
        | inr on ↦
            let going : (not (is_finished u) && not true) ≡ false = ground arith in
            rw (on, going) (bad, inr lit)
      ]
  end-md5 false u target differs =
      let (bad, lit) = check_md5-wrong u target differs in
      elim (Bool-cases (has_error u || u.size == 0)) [
        | inl off ↦ rw off (refl, inl (inl refl))
        | inr on ↦ elim (Bool-cases (is_finished u)) [
          | inl whole ↦ rw (on, whole) (bad, inl lit)
          | inr part ↦ rw (on, part) (refl, inl (inr refl))
        ]
      ]
