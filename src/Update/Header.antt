-- ===== src/Update/Header.antt =====
-- A firmware that `end` confirms begins with the image magic.
use jedge.Base.{
  not, ◌&&◌, ◌||◌, ℕ, ◌<◌, ◌≡◌, ◌==◌, ltb, true, false, List, arith, inl, inr, Bool-cases, length,
  get_or,
}
use jedge.Update.Esp.{Esp, FlashLaws}
use jedge.Update.State.{Updater, header_magic, u_flash, has_error, is_finished}
use jedge.Update.Methods.{end, check_md5, verify_end, equal}
use jedge.Update.Image.{Holds}
use jedge.Update.Installed.{activate-magic}
use jedge.Update.Ends.{sized_Holds}

module _ {esp : Esp} (laws : FlashLaws esp) where
  verify_end-magic :
      {p : esp.Partition} {w : List ℕ} {u : Updater esp}
      → Holds laws p w u
      → u.command ≡ u_flash
      → 0 < u.progress
      → u.progress ≡ length w
      → (verify_end u).0 ≡ true
      → get_or w 0 0 ≡ header_magic
  unfolding verify_end
  verify_end-magic {u = u} h c pos whole done =
      let flash : (u.command == u_flash) ≡ true = ground arith in
      activate-magic laws h c pos whole (rw flash at done)

  check_md5-magic :
      {p : esp.Partition} {w : List ℕ} {u : Updater esp}
      → Holds laws p w u
      → u.command ≡ u_flash
      → 0 < u.progress
      → u.progress ≡ length w
      → (check_md5 u).0 ≡ true
      → get_or w 0 0 ≡ header_magic
  unfolding check_md5
  check_md5-magic {u = u} h c pos whole done =
      let m = esp.md5_calculate u.md5 in
      elim (Bool-cases
        (ltb 0 (length u.target_md5) && not (equal u.target_md5 (esp.md5_to_string m)))) [
          | inl wrong ↦ absurd (let e = rw wrong at done in cc)
          | inr right ↦
              verify_end-magic (sized_Holds laws m u.size h h.fits h.running h.small) c pos whole
                (rw right at done)
        ]

  pub end-magic :
      {p : esp.Partition} {w : List ℕ} {u : Updater esp}
      → Holds laws p w u
      → u.command ≡ u_flash
      → (end false u).0 ≡ true
      → get_or w 0 0 ≡ header_magic
  unfolding end
  end-magic {p} {w} {u} h c done =
      let going : (has_error u || u.size == 0) ≡ false = ground (arith, h.no_error, h.running) in
      elim (Bool-cases (is_finished u)) [
        | inr early ↦ absurd (let e = rw (going, early) at done in cc)
        | inl whole ↦
            check_md5-magic h c (ground (arith, h.running)) (ground (arith, h.total, h.fits))
              (rw (going, whole) at done)
      ]
