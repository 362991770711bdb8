-- ===== src/Update/Begins.antt =====
-- `begin` of `UpdateClass`: what it accepts, and the update that it starts.
use jedge.Base.{
  not, ◌&&◌, ℕ, ◌≤◌, ◌<◌, ◌≡◌, ◌==◌, if◌then◌else◌, ltb, Bool, true, Option, none, some, List, [],
  take, drop, arith, refl, sym, ap, ◌∙◌, inl, inr, Bool-cases, Option-cases, size_mod,
}
use jedge.Update.Esp.{Esp, FlashLaws}
use jedge.Update.State.{Updater, sector, u_flash, u_spiffs, reset}
use jedge.Update.Methods.{begin, begin_at, begin_in, size_unknown}
use jedge.Update.Image.{Holds}

module _ {esp : Esp} (laws : FlashLaws esp) where
  -- A new update in partition `p`, with nothing taken in.
  pub record Fresh (p : esp.Partition) (size command : ℕ) (u : Updater esp) : Type 0 where
    pub holds : Holds laws p [] u
    pub size_is : u.size ≡ (if size == size_unknown then esp.partition_size p else size)
    pub size_fits : u.size ≤ esp.partition_size p
    pub command_is : u.command ≡ command
    pub no_target : u.target_md5 ≡ []

  -- The progress callback leaves the flash alone.
  abbrev pub Quiet : Updater esp → Type 0
  Quiet u =
      (p : esp.Partition) (f : ℕ → ℕ → esp.Dev → esp.Dev)
      → u.progress_callback ≡ some f
      → (a b : ℕ) (d : esp.Dev) (i : ℕ) → laws.cell p i (f a b d) ≡ laws.cell p i d

  begin_at-Fresh :
      (size command : ℕ) (p : esp.Partition) (u : Updater esp)
      → Quiet u
      → 0 < size
      → 0 < esp.partition_size p
      → esp.partition_size p < size_mod
      → u.partition ≡ some p
      → u.error ≡ 0
      → u.progress ≡ 0
      → u.buffer_len ≡ 0
      → u.target_md5 ≡ []
      → (begin_at size command p u).0 ≡ true
      → Fresh p size command (begin_at size command p u).1
  unfolding begin_at
  begin_at-Fresh size command p u quiet pos nonempty small part ok start empty target done =
      elim (Bool-cases (not (size == size_unknown) && ltb (esp.partition_size p) size)) [
        | inl big ↦ absurd (let e = rw big at done in cc)
        | inr fits ↦ rw fits (elim (Option-cases (esp.malloc sector u.dev).0) [
          | inl out ↦ absurd (let e = rw (fits, out) at done in cc)
          | inr (b, got) ↦ rw got (record {
            holds = record {
              buf = b;
              buffer_is = refl;
              length_buf = laws.malloc_length sector u.dev b got;
              partition_is = part;
              no_error = ok;
              room = omega arith;
              total = omega arith;
              fits = omega arith;
              running = ground arith;
              small = ground arith;
              pending = ap (λ n. take n b) empty ∙ ap (λ n. drop {A = ℕ} n []) (sym start);
              flashed = λ i _ below. absurd (omega arith);
              blank = λ _ below. absurd (omega arith);
              stash = λ _ below. absurd (omega arith);
              header = λ _ below. absurd (omega arith);
              quiet = quiet p;
            };
            size_is = refl;
            size_fits = ground arith;
            command_is = refl;
            no_target = target;
          })
        ])
      ]

  begin_in-Fresh :
      (size command : ℕ) (q : Option esp.Partition) (u : Updater esp)
      → Quiet u
      → 0 < size
      → ((p : esp.Partition) → (0 < esp.partition_size p) × (esp.partition_size p < size_mod))
      → u.error ≡ 0
      → u.progress ≡ 0
      → u.buffer_len ≡ 0
      → u.target_md5 ≡ []
      → (begin_in size command q u).0 ≡ true
      → (p : esp.Partition) × (q ≡ some p) × Fresh p size command (begin_in size command q u).1
  unfolding begin_in
  begin_in-Fresh size command none u quiet pos sizes ok start empty target done = cc
  begin_in-Fresh size command (some p) u quiet pos sizes ok start empty target done = (
    p,
    refl,
    begin_at-Fresh size command p (record u { partition = some p }) quiet pos (sizes p).0
        (sizes p).1 refl ok start empty target done,
  )

  -- Where `begin` returns true, no update was running, the size asked for fits the partition, and a
  -- new update with an empty image has started; partitions are neither empty nor of 4 GiB.
  pub begin-Fresh :
      (size command : ℕ) (pin : Option ℕ) (on : Bool) (label : Option (List ℕ)) (u : Updater esp)
      → Quiet u
      → ((p : esp.Partition) → (0 < esp.partition_size p) × (esp.partition_size p < size_mod))
      → (begin size command pin on label u).0 ≡ true
      → (u.size ≡ 0)
        × ((p : esp.Partition) × Fresh p size command (begin size command pin on label u).1)
  unfolding begin reset
  begin-Fresh size command pin on label u quiet sizes done =
      let u0 = reset (record u { led_pin = pin; led_on = on }) in
      let u1 : Updater esp = record u0 { error = 0; target_md5 = []; md5 = esp.md5_new } in
      elim (Bool-cases (ltb 0 u.size)) [
        | inl running ↦ absurd (let e = rw running at done in cc)
        | inr idle ↦ elim (Bool-cases (size == 0)) [
          | inl nothing ↦ absurd (let e = rw (idle, nothing) at done in cc)
          | inr pos ↦ elim (Bool-cases (command == u_flash)) [
            | inl flash ↦
                let (p, e, f) =
                  begin_in-Fresh size command (esp.next_update_partition u1.dev) u1 quiet
                    (ground arith) sizes refl refl refl refl (rw (idle, pos, flash) at done) in
                (ground arith, rw (idle, pos, flash) (p, f))
            | inr other ↦ elim (Bool-cases (command == u_spiffs)) [
              | inl spiffs ↦
                  let (p, e, f) =
                    begin_in-Fresh size command (esp.find_spiffs label u1.dev) u1 quiet
                      (ground arith) sizes refl refl refl refl
                      (rw (idle, pos, other, spiffs) at done) in
                  (ground arith, rw (idle, pos, other, spiffs) (p, f))
              | inr neither ↦ absurd (let e = rw (idle, pos, other, neither) at done in cc)
            ]
          ]
        ]
      ]
