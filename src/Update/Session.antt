-- ===== src/Update/Session.antt =====
-- A whole update through `UpdateClass`: `begin`, the calls of `write`, `end`.
use jedge.Base.{
  ℕ, ◌+◌, ◌≤◌, ◌<◌, ◌≡◌, Bool, true, false, Option, some, List, [], ◌∷◌, ◌++◌, arith, refl, sym,
  ◌∙◌, length, length-append, size_mod, Option-cases, get_or, inl, inr,
}
use mathlib.Core.Path.{subst}
use mathlib.Core.List.{append_assoc, append-nil}
use jedge.Update.Esp.{Esp, FlashLaws}
use jedge.Update.State.{Updater, sector, block, u_flash, header_magic}
use jedge.Update.Methods.{begin, end, partition_is_bootable}
use jedge.Update.Transfer.{write}
use jedge.Update.Image.{Holds}
use jedge.Update.Written.{write-Wrote}
use jedge.Update.Installed.{Installed}
use jedge.Update.Ends.{end-Installed}
use jedge.Update.Header.{end-magic}
use jedge.Update.Begins.{Quiet, begin-Fresh}

-- the bytes of all the calls
abbrev pub flatten : List (List ℕ) → List ℕ
flatten [] = []
flatten (c ∷ cs) = c ++ flatten cs

-- Each call of `write` in turn reports all its bytes, of which there are some, as written.
pub data Accepts {esp : Esp} : Updater esp → List (List ℕ) → Updater esp → Type 0 where
  stop : {u : Updater esp} → Accepts u [] u
  more :
      {u v u' : Updater esp} (c : List ℕ) {cs : List (List ℕ)}
      → 0 < length c
      → write c u ≡ some (length c, v)
      → Accepts v cs u'
      → Accepts u (c ∷ cs) u'

module _ {esp : Esp} (laws : FlashLaws esp) where
  pub Accepts-Holds :
      {p : esp.Partition} (w : List ℕ) {cs : List (List ℕ)} {u u' : Updater esp}
      → Accepts u cs u'
      → Holds laws p w u
      → length w + length (flatten cs) ≤ u.size
      → (u.command ≡ u_flash → block ≤ u.size)
      → u.size + sector < size_mod
      → Holds laws p (w ++ flatten cs) u' × (u'.size ≡ u.size) × (u'.command ≡ u.command)
  Accepts-Holds {p} w (stop {u = u}) h fits enough small =
      (subst (λ l. Holds laws p l u) (sym (append-nil w)) h, refl, refl)
  Accepts-Holds {p} w {u' = u'} (more {u = u} {v = v} c {cs = cs} pos e rest) h fits enough small =
      let l = length-append c (flatten cs) in
      let o = write-Wrote laws c h pos (omega arith) enough small e in
      let ih =
        Accepts-Holds (w ++ c) rest o.holds (omega (arith, o.same_size, length-append w c))
          (λ k. omega (arith, o.same_size, enough (sym o.same_command ∙ k)))
          (omega (arith, o.same_size)) in
      (
        subst (λ k. Holds laws p k u') (append_assoc w c (flatten cs)) ih.0,
        ih.1 ∙ o.same_size,
        ih.2 ∙ o.same_command,
      )

  read_first-ne-magic :
      (p : esp.Partition) (d : esp.Dev)
      → laws.cell p 0 d ≡ 0xFF
      → partition_is_bootable esp (some p) d ≡ false
  unfolding partition_is_bootable
  read_first-ne-magic p d blank = elim (Option-cases (esp.partition_read (some p) 0 block d)) [
    | inl failed ↦ ground arith
    | inr (b, got) ↦
        let e : get_or b 0 0 ≡ 0xFF = laws.read_at p 0 block d b 0 got (omega arith) ∙ blank in
        ground arith
  ]

  -- Sizes of partitions: at least the header block, and with a sector below 4 GiB.
  abbrev pub AreSizes : Type 0
  AreSizes =
      (p : esp.Partition)
      → (block ≤ esp.partition_size p) × (esp.partition_size p + sector < size_mod)

  -- After `begin` and the calls of `write`, the object holds what they have taken in.
  session-Holds :
      (size command : ℕ) (pin : Option ℕ) (on : Bool) (label : Option (List ℕ)) (u : Updater esp)
      {cs : List (List ℕ)} {u' : Updater esp}
      → Quiet laws u
      → AreSizes
      → (command ≡ u_flash → block ≤ size)
      → (begin size command pin on label u).0 ≡ true
      → Accepts (begin size command pin on label u).1 cs u'
      → length (flatten cs) ≤ (begin size command pin on label u).1.size
      → (p : esp.Partition) × Holds laws p (flatten cs) u'
        × (u'.size ≡ (begin size command pin on label u).1.size)
        × (u'.command ≡ command)
  session-Holds size command pin on label u quiet sizes enough begun accepted fits =
      let sizes' : (p : esp.Partition)
          → (0 < esp.partition_size p) × (esp.partition_size p < size_mod) =
        λ p. (omega (arith, (sizes p).0), omega (arith, (sizes p).1)) in
      let started = (begin-Fresh laws size command pin on label u quiet sizes' begun).1 in
      let p = started.0 in
      let f = started.1 in
      let held =
        Accepts-Holds [] accepted f.holds (omega (arith, fits))
          (λ c. ground (arith, f.size_is, enough (sym f.command_is ∙ c), (sizes p).0))
          (omega (arith, f.size_fits, (sizes p).1)) in
      (p, held.0, held.1, held.2 ∙ f.command_is)

  -- A firmware cannot be booted before end: where begin has accepted a firmware of at least one
  -- 16-byte block, calls of write(data, len) have each taken in all of some bytes, together no more
  -- than the size of the update, and the first sector is in the flash, the partition of the update
  -- does not pass the check for a bootable one. The progress callback leaves the flash alone, and a
  -- partition has at least one block and with a sector is below 4 GiB.
  pub update-not-bootable :
      (size : ℕ) (pin : Option ℕ) (on : Bool) (label : Option (List ℕ)) (u : Updater esp)
      {cs : List (List ℕ)} {u' : Updater esp}
      → Quiet laws u
      → AreSizes
      → block ≤ size
      → (begin size u_flash pin on label u).0 ≡ true
      → Accepts (begin size u_flash pin on label u).1 cs u'
      → length (flatten cs) ≤ (begin size u_flash pin on label u).1.size
      → 0 < u'.progress
      → partition_is_bootable esp u'.partition u'.dev ≡ false
  update-not-bootable size pin on label u {cs} {u'} quiet sizes enough begun accepted fits stored =
      let (p, held, same, flash) =
        session-Holds size u_flash pin on label u quiet sizes (λ _. enough) begun accepted fits in
      subst (λ q. partition_is_bootable esp q u'.dev ≡ false) (sym held.partition_is)
        (read_first-ne-magic p u'.dev (held.blank flash stored 0 (omega arith)))

  -- An update that begin accepts, of which the calls of write(data, len) each take in all of some
  -- bytes, together no more than the size of the update, and that end() confirms, is in the flash of
  -- one partition byte for byte, as the concatenation of the pieces, header included, and these are
  -- exactly as many bytes as the size of the update. The progress callback leaves the flash alone; a
  -- firmware is given a size of at least one 16-byte block; a partition has at least one block and
  -- with a sector is below 4 GiB.
  pub update-Installed :
      (size command : ℕ) (pin : Option ℕ) (on : Bool) (label : Option (List ℕ)) (u : Updater esp)
      {cs : List (List ℕ)} {u' : Updater esp}
      → Quiet laws u
      → AreSizes
      → (command ≡ u_flash → block ≤ size)
      → (begin size command pin on label u).0 ≡ true
      → Accepts (begin size command pin on label u).1 cs u'
      → length (flatten cs) ≤ (begin size command pin on label u).1.size
      → (end false u').0 ≡ true
      → (p : esp.Partition) × Installed laws p (flatten cs) (end false u').1.dev
        × (length (flatten cs) ≡ (begin size command pin on label u).1.size)
  update-Installed size command pin on label u quiet sizes enough begun accepted fits ended =
      let (p, held, same, _) =
        session-Holds size command pin on label u quiet sizes enough begun accepted fits in
      let done = end-Installed laws held ended in (p, done.1, done.0 ∙ same)

  -- A firmware that end() confirms begins with the magic byte of an image, 0xE9: the first of the
  -- bytes that the calls of write(data, len) have taken in, under the conditions that each call has
  -- taken in all of some bytes, together no more than the size of the update, which is at least one
  -- 16-byte block, that the progress callback leaves the flash alone, and that a partition has at
  -- least one block and with a sector is below 4 GiB.
  pub update-magic :
      (size : ℕ) (pin : Option ℕ) (on : Bool) (label : Option (List ℕ)) (u : Updater esp)
      {cs : List (List ℕ)} {u' : Updater esp}
      → Quiet laws u
      → AreSizes
      → block ≤ size
      → (begin size u_flash pin on label u).0 ≡ true
      → Accepts (begin size u_flash pin on label u).1 cs u'
      → length (flatten cs) ≤ (begin size u_flash pin on label u).1.size
      → (end false u').0 ≡ true
      → get_or (flatten cs) 0 0 ≡ header_magic
  update-magic size pin on label u quiet sizes enough begun accepted fits ended =
      let (p, held, same, flash) =
        session-Holds size u_flash pin on label u quiet sizes (λ _. enough) begun accepted fits in
      end-magic laws held flash ended
