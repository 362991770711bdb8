-- ===== src/Update/Tests.antt =====
-- `UpdateClass` on a device of one partition of 64 bytes, kept in memory: runs, and the theorems
-- at them.
use jedge.Base.{
  ◌&&◌, ℕ, zero, suc, ◌+◌, ◌-◌, ◌≤◌, ◌<◌, ◌≡◌, if◌then◌else◌, ltb, leb, Bool, true, false, Option,
  none, some, List, [], ◌∷◌, ◌++◌, take, drop, replicate, arith, refl, sym, ap, ◌∙◌, inl, length,
  get_or, length-replicate, ◌⊎◌, some_inj, size_mod,
}
use jedge.Update.Esp.{Esp, FlashLaws}
use jedge.Update.State.{
  Updater, sector, block, u_flash, header_magic, reset, light, notify, write_buffer, write_sector,
  sector_done,
}
use jedge.Update.Methods.{new_updater, begin, begin_in, begin_at}
use jedge.Update.Transfer.{write, write_loop, write_rest}
use jedge.Update.Session.{Accepts, stop, more}

abbrev pub in_range : ℕ → ℕ → ℕ → Bool
in_range off n i = leb off i && ltb i (off + n)

abbrev pub read_cells : (ℕ → ℕ) → ℕ → ℕ → List ℕ
read_cells d off zero = []
read_cells d off (suc n) = d off ∷ read_cells d (off + 1) n

pub read_cells_at :
    (d : ℕ → ℕ) (off n k : ℕ) → k < n → get_or (read_cells d off n) k 0 ≡ d (off + k)
read_cells_at d off zero k h = absurd (omega arith)
read_cells_at d off (suc n) zero h = let e : off ≡ off + 0 = omega arith in ap d e
read_cells_at d off (suc n) (suc k) h =
    let e : off + 1 + k ≡ off + suc k = omega arith in
    read_cells_at d (off + 1) n k (omega arith) ∙ ap d e

abbrev pub memory_esp : Esp
memory_esp = record {
  Dev = ℕ → ℕ;
  Partition = ℕ;
  Stream = List ℕ;
  Md5 = List ℕ;
  partition_size = λ _. 64;
  next_update_partition = λ _. some 1;
  find_spiffs = λ _ _. none;
  partition_read = λ _ off n d. some (read_cells d off n);
  partition_write =
      λ _ off src n d. (true, λ i. if in_range off n i then get_or src (i - off) 0 else d i);
  partition_erase_range = λ _ off n d. (true, λ i. if in_range off n i then 255 else d i);
  set_boot_partition = λ _ d. (0, d);
  malloc = λ n d. (some (replicate n 0), d);
  pin_mode_output = λ _ d. d;
  digital_write = λ _ _ d. d;
  md5_new = [];
  md5_begin = λ m. m;
  md5_add = λ xs m. m ++ xs;
  md5_calculate = λ m. m;
  md5_to_string = λ m. m;
  peek = λ s. get_or s 0 255;
  read_bytes = λ n s. (take n s, drop n s);
  available = λ s. length s;
  read = λ n s. (take n s, drop n s);
}

pub memory_malloc :
    (n : ℕ) (d : ℕ → ℕ) (b : List ℕ) → (memory_esp.malloc n d).0 ≡ some b → length b ≡ n
memory_malloc n d b e = ap length (sym (some_inj e)) ∙ length-replicate n 0

pub memory_at :
    (off n i : ℕ) (d d' : ℕ → ℕ)
    → off ≤ i
    → i < off + n
    → (if in_range off n i then d i else d' i) ≡ d i
memory_at off n i d d' above below = ground arith

pub memory_beside :
    (off n i : ℕ) (d d' : ℕ → ℕ)
    → (i < off) ⊎ (off + n ≤ i)
    → (if in_range off n i then d i else d' i) ≡ d' i
memory_beside off n i d d' h = ground arith

abbrev pub memory_laws : FlashLaws memory_esp
memory_laws = record {
  cell = λ _ i d. d i;
  malloc_length = memory_malloc;
  digital_write_cell = λ _ _ _ _ _. refl;
  boot_cell = λ _ _ _ _. refl;
  erase_at = λ p off n d i _ above below. memory_at off n i (λ _. 255) d above below;
  erase_below = λ p off n d i h. memory_beside off n i (λ _. 255) d (inl h);
  write_at = λ p off src n d i _ _ above below _.
      memory_at off n i (λ k. get_or src (k - off) 0) d above below;
  write_beside = λ p off src n d i h. memory_beside off n i (λ k. get_or src (k - off) 0) d h;
  read_at =
      λ p off n d b k e h. ap (λ l. get_or l k 0) (sym (some_inj e)) ∙ read_cells_at d off n k h;
}

abbrev pub blank_flash : ℕ → ℕ
blank_flash _ = 0

-- A firmware of 20 bytes, in pieces of 12 and 8.
abbrev pub first_piece : List ℕ
first_piece = header_magic ∷ 1 ∷ 2 ∷ 3 ∷ 4 ∷ 5 ∷ 6 ∷ 7 ∷ 8 ∷ 9 ∷ 10 ∷ 11 ∷ []

abbrev pub second_piece : List ℕ
second_piece = 12 ∷ 13 ∷ 14 ∷ 15 ∷ 16 ∷ 17 ∷ 18 ∷ 19 ∷ []

abbrev pub result : Updater memory_esp → Option (ℕ × Updater memory_esp) → Updater memory_esp
result u none = u
result u (some r) = r.1

abbrev pub started : Updater memory_esp
started = (begin 20 u_flash none false none (new_updater blank_flash)).1

abbrev pub half : Updater memory_esp
half = result started (write first_piece started)

abbrev pub full : Updater memory_esp
full = result half (write second_piece half)

pub accepted : Accepts started (first_piece ∷ second_piece ∷ []) full
unfolding write write_loop write_rest begin begin_in begin_at reset new_updater light write_buffer
    write_sector sector_done notify
accepted = more first_piece (omega arith) refl (more second_piece (omega arith) refl stop)

pub memory_sizes : (p : ℕ) → (block ≤ 64) × (64 + sector < size_mod)
memory_sizes p = (omega arith, omega arith)
