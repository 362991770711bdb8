-- ===== src/Eeprom/Tests.antt =====
-- The storage kept in memory, an `EEPROMClass` of 16 bytes in it, and the theorems at them.
use jedge.Base.{
  ℕ, zero, suc, ◌+◌, ◌≡◌, ◌==◌, leb, if◌then◌else◌, Bool, true, false, ◌&&◌, Option, none, some,
  List, [], ◌∷◌, length, replicate, pos, negsuc, arith, refl, sym, ap, ◌∙◌, inr, some_inj,
  length-replicate,
}
use jedge.Eeprom.Nvs.{Nvs, NvsLaws}
use jedge.Eeprom.Store.{
  Eeprom, bytes, not_found, new_eeprom, begin, begin_open, expand, rewrite, load, write,
}
use jedge.Eeprom.Values.{
  read_all, write_all, read_byte, write_byte, read_u_char, write_u_char, read_u_short,
  write_u_short, read_u_int, write_u_int, read_u_long, write_u_long, read_u_long64, write_u_long64,
  read_char, write_char, read_short, write_short, read_int, write_int, read_long, write_long,
  read_long64, write_long64, read_bool, write_bool,
}
use jedge.Eeprom.Access.{IsSized, read_all-write_all_ne}
use jedge.Eeprom.Typed.{typed_round_trip}
use jedge.Eeprom.Strings.{scan, write_string, read_string}
use jedge.Eeprom.StringRoundTrip.{IsText, read_string-write_string, write_string-overflows}

abbrev same_text : List ℕ → List ℕ → Bool
same_text [] [] = true
same_text [] (y ∷ ys) = false
same_text (x ∷ xs) [] = false
same_text (x ∷ xs) (y ∷ ys) = (x == y) && same_text xs ys

same_text_refl : (s : List ℕ) → same_text s s ≡ true
same_text_refl [] = refl
same_text_refl (x ∷ s) = let e : (x == x) ≡ true = ground arith in rw e (same_text_refl s)

-- What a namespace keeps under a key.
abbrev Blobs : Type 0
Blobs = List ℕ → List ℕ → Option (List ℕ)

abbrev memory_nvs : Nvs
memory_nvs = record {
  Dev = Blobs;
  Handle = List ℕ;
  no_handle = [];
  nvs_open = λ name d. (0, name, d);
  nvs_close = λ _ d. d;
  nvs_blob_size = λ h k d. elim (d h k) [ none ↦ (not_found, 0) | some b ↦ (0, length b) ];
  nvs_get_blob =
      λ h k n d. elim (d h k) [ none ↦ none | some b ↦ if leb (length b) n then some b else none ];
  nvs_set_blob = λ h k b d. (0, λ s t. if same_text s h && same_text t k then some b else d s t);
  nvs_erase_key = λ h k d s t. if same_text s h && same_text t k then none else d s t;
  nvs_commit = λ _ d. d;
  malloc = λ n d. (some (replicate n 0), d);
}

memory_laws : NvsLaws memory_nvs
memory_laws = record {
  space = λ h. h;
  blob = λ s k d. d s k;
  malloc_length = λ n d b e. ap length (sym (some_inj e)) ∙ length-replicate n 0;
  malloc_blob = λ n d s k. refl;
  blob_size = λ h k d b there. rw there refl;
  get_blob = λ h k n d b there fits.
      let l : leb (length b) n ≡ true = ground arith in rw there (rw l refl);
  set_blob = λ h k b d ok. rw (same_text_refl h) (rw (same_text_refl k) refl);
  open_space = λ name d ok. refl;
  open_blob = λ name d s k. refl;
  close_blob = λ h d s k. refl;
}

abbrev closed : Eeprom memory_nvs
closed = new_eeprom (1 ∷ 2 ∷ []) 16 (λ _ _. none)

-- opened on an empty storage
abbrev opened : Eeprom memory_nvs
opened = (begin 16 closed).1

-- A string of two bytes fits at 4, and its bytes read back.
hello :
    (read_string
      (λ _. 7)
      (pos 4)
      (elim (write_string (pos 4) (104 ∷ 105 ∷ []) opened) [ none ↦ opened | some r ↦ r.1 ]))
    ≡ some (104 ∷ 105 ∷ [])
unfolding begin begin_open expand rewrite load new_eeprom read_string write_string scan
hello = refl

opened-IsSized : IsSized opened
unfolding begin begin_open expand rewrite load new_eeprom
opened-IsSized = record { length_is = refl; bounded = omega arith }

abbrev changed : Eeprom memory_nvs
changed = write (pos 3) 9 opened

typed_round_trip_example :
    (read_byte (pos 15) (write_byte (pos 15) 200 opened).1 ≡ 200)
    × (read_u_char (pos 15) (write_u_char (pos 15) 200 opened).1 ≡ 200)
    × (read_u_short (pos 14) (write_u_short (pos 14) 60000 opened).1 ≡ 60000)
    × (read_u_int (pos 12) (write_u_int (pos 12) 4000000000 opened).1 ≡ 4000000000)
    × (read_u_long (pos 12) (write_u_long (pos 12) 4000000000 opened).1 ≡ 4000000000)
    × (read_u_long64 (pos 8) (write_u_long64 (pos 8) 18000000000000000000 opened).1
        ≡ 18000000000000000000)
    × (read_char (pos 15) (write_char (pos 15) (negsuc 4) opened).1 ≡ (negsuc 4))
    × (read_short (pos 14) (write_short (pos 14) (negsuc 4000) opened).1 ≡ (negsuc 4000))
    × (read_int (pos 12) (write_int (pos 12) (pos 5) opened).1 ≡ (pos 5))
    × (read_long (pos 12) (write_long (pos 12) (pos 5) opened).1 ≡ (pos 5))
    × (read_long64 (pos 8) (write_long64 (pos 8) (negsuc 6) opened).1 ≡ (negsuc 6))
    × (read_bool (pos 15) (write_bool (pos 15) true opened).1 ≡ true)
unfolding begin begin_open expand rewrite load new_eeprom
typed_round_trip_example =
    typed_round_trip 15 14 12 8 opened 200 60000 4000000000 18000000000000000000 (negsuc 4)
      (negsuc 4000) (pos 5) (negsuc 6) true opened-IsSized (omega arith) (omega arith) (omega arith)
      (omega arith) (omega arith) (omega arith) (omega arith) (omega arith) (omega arith)
      (omega arith) (omega arith) (omega arith)

read_all-write_all_ne_example :
    read_all (0 ∷ 0 ∷ []) (pos 6) (write_all (1 ∷ 2 ∷ 3 ∷ []) (pos 3) opened).1
    ≡ read_all (0 ∷ 0 ∷ []) (pos 6) opened
unfolding begin begin_open expand rewrite load new_eeprom
read_all-write_all_ne_example =
    read_all-write_all_ne (1 ∷ 2 ∷ 3 ∷ []) (0 ∷ 0 ∷ []) 3 6 opened opened-IsSized (omega arith)
      (omega arith) (inr (omega arith))

hi-IsText : IsText (104 ∷ 105 ∷ [])
hi-IsText zero h e = absurd (omega arith)
hi-IsText (suc zero) h e = absurd (omega arith)
hi-IsText (suc (suc i)) h e = absurd (omega arith)

read_string-write_string_example :
    (e : Eeprom memory_nvs) × (write_string (pos 4) (104 ∷ 105 ∷ []) opened ≡ some (2, e))
    × (read_string (λ _. 7) (pos 4) e ≡ some (104 ∷ 105 ∷ []))
unfolding begin begin_open expand rewrite load new_eeprom
read_string-write_string_example =
    read_string-write_string (λ _. 7) 4 (104 ∷ 105 ∷ []) opened opened-IsSized (omega arith)
      hi-IsText (omega arith)

write_string-overflows_example :
    (e : Eeprom memory_nvs) × (write_string (pos 14) (104 ∷ 105 ∷ []) opened ≡ some (2, e))
    × (length (bytes e.contents) ≡ e.size + 1)
unfolding begin begin_open expand rewrite load new_eeprom
write_string-overflows_example =
    write_string-overflows 14 (104 ∷ 105 ∷ []) opened opened-IsSized (omega arith) hi-IsText refl
