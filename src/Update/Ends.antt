-- ===== src/Update/Ends.antt =====
-- `end` that returns true leaves the whole image in the flash.
use jedge.Base.{
  not, ◌||◌, ◌&&◌, ℕ, ◌≤◌, ◌<◌, ◌≡◌, ◌==◌, ltb, true, false, List, arith, ◌∙◌, inl, inr, Bool-cases,
  length, size_mod,
}
use jedge.Update.Esp.{Esp, FlashLaws}
use jedge.Update.State.{Updater, u_flash, u_spiffs, has_error, is_finished}
use jedge.Update.Methods.{verify_end, check_md5, end, equal}
use jedge.Update.Image.{Holds}
use jedge.Update.Installed.{Installed, activate-Installed, reset_cell}

module _ {esp : Esp} (laws : FlashLaws esp) where
  -- Neither the digest nor the size says where the bytes are.
  pub sized_Holds :
      {p : esp.Partition} {w : List ℕ} {u : Updater esp} (m : esp.Md5) (n : ℕ)
      → Holds laws p w u
      → length w ≤ n
      → 0 < n
      → n < size_mod
      → Holds laws p w (record u { md5 = m; size = n })
  sized_Holds m n h fits running small = record {
    buf = h.buf;
    buffer_is = h.buffer_is;
    length_buf = h.length_buf;
    partition_is = h.partition_is;
    no_error = h.no_error;
    room = h.room;
    total = h.total;
    fits = fits;
    running = running;
    small = small;
    pending = h.pending;
    flashed = h.flashed;
    blank = h.blank;
    stash = h.stash;
    header = h.header;
    quiet = h.quiet;
  }

  verify_end-Installed :
      {p : esp.Partition} {w : List ℕ} {u : Updater esp}
      → Holds laws p w u
      → 0 < u.progress
      → u.progress ≡ length w
      → (verify_end u).0 ≡ true
      → Installed laws p w (verify_end u).1.dev
  unfolding verify_end
  verify_end-Installed {p} {w} {u} h pos whole done = elim (Bool-cases (u.command == u_flash)) [
    | inl flash ↦ rw flash (activate-Installed laws h (ground arith) pos whole (rw flash at done))
    | inr other ↦ elim (Bool-cases (u.command == u_spiffs)) [
      | inr neither ↦ absurd (ground arith)
      | inl spiffs ↦
          rw (other, spiffs)
            (λ i below. reset_cell laws p u i ∙ h.flashed i (ground arith) (omega arith))
    ]
  ]

  check_md5-Installed :
      {p : esp.Partition} {w : List ℕ} {u : Updater esp} (n : ℕ)
      → Holds laws p w u
      → 0 < u.progress
      → u.progress ≡ length w
      → length w ≤ n
      → n < size_mod
      → (check_md5 (record u { size = n })).0 ≡ true
      → Installed laws p w (check_md5 (record u { size = n })).1.dev
  unfolding check_md5
  check_md5-Installed {p} {w} {u} n h pos whole fits small done =
      let m = esp.md5_calculate u.md5 in
      elim (Bool-cases
        (ltb 0 (length u.target_md5) && not (equal u.target_md5 (esp.md5_to_string m)))) [
          | inl wrong ↦ absurd (let e = rw wrong at done in cc)
          | inr right ↦ rw right (
              verify_end-Installed (sized_Holds m n h fits (omega arith) small) pos whole
                (rw right at done))
        ]

  -- Where `end()` returns true, every byte that has been taken in is in the flash at its place, and
  -- as many were taken in as `begin` was told.
  pub end-Installed :
      {p : esp.Partition} {w : List ℕ} {u : Updater esp}
      → Holds laws p w u
      → (end false u).0 ≡ true
      → (length w ≡ u.size) × Installed laws p w (end false u).1.dev
  unfolding end
  end-Installed {p} {w} {u} h done =
      let going : (has_error u || u.size == 0) ≡ false = ground (arith, h.no_error, h.running) in
      elim (Bool-cases (is_finished u)) [
        | inr early ↦ absurd (let e = rw (going, early) at done in cc)
        | inl whole ↦ (
          ground (arith, h.total, h.fits),
          rw (going, whole)
              (check_md5-Installed u.size h (ground (arith, h.running))
                (ground (arith, h.total, h.fits)) h.fits h.small (rw (going, whole) at done)),
        )
      ]
