-- ===== src/Update/Image.antt =====
-- What an `UpdateClass` object in the middle of an update holds of the image: the sectors that
-- are in the flash, the stashed header and the buffered rest.
use jedge.Base.{
  ℕ, ◌+◌, ◌≤◌, ◌<◌, ◌≡◌, ◌==◌, if◌then◌else◌, size_mod, some, List, length, get_or, take, drop,
}
use jedge.Update.Esp.{Esp, FlashLaws}
use jedge.Update.State.{Updater, sector, block, u_flash}

-- where the bytes in the flash begin: a firmware's header comes last
abbrev pub first_cell : ℕ → ℕ
first_cell command = if command == u_flash then block else 0

module _ {esp : Esp} (laws : FlashLaws esp) where
  open laws use {cell}

  -- `w` is all that has been taken in since `begin`.
  pub record Holds (p : esp.Partition) (w : List ℕ) (u : Updater esp) : Type 0 where
    pub buf : List ℕ
    pub buffer_is : u.buffer ≡ some buf
    pub length_buf : length buf ≡ sector
    pub partition_is : u.partition ≡ some p
    pub no_error : u.error ≡ 0
    pub room : u.buffer_len ≤ sector
    pub total : length w ≡ u.progress + u.buffer_len
    pub fits : length w ≤ u.size
    pub running : 0 < u.size
    pub small : u.size < size_mod
    pub pending : take u.buffer_len buf ≡ drop u.progress w
    pub flashed :
        (i : ℕ) → first_cell u.command ≤ i → i < u.progress → cell p i u.dev ≡ get_or w i 0
    -- the header block stays erased until the end
    pub blank : u.command ≡ u_flash → 0 < u.progress → (i : ℕ) → i < block → cell p i u.dev ≡ 0xFF
    pub stash : u.command ≡ u_flash → 0 < u.progress → u.skip_buffer ≡ some (take block w)
    pub header : u.command ≡ u_flash → 0 < u.progress → block ≤ u.progress
    pub quiet :
        (f : ℕ → ℕ → esp.Dev → esp.Dev)
        → u.progress_callback ≡ some f
        → (a b : ℕ) (d : esp.Dev) (i : ℕ) → cell p i (f a b d) ≡ cell p i d
