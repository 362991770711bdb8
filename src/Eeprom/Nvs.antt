-- ===== src/Eeprom/Nvs.antt =====
-- What `EEPROMClass` calls and does not implement: the non-volatile storage and the heap of ESP-IDF.
use jedge.Base.{ℕ, ◌≤◌, ◌≡◌, Option, some, List, length}

pub record Nvs : Type 1 where
  pub Dev : Type 0
  pub Handle : Type 0
  -- handle 0
  pub no_handle : Handle
  -- `nvs_open(name, NVS_READWRITE, &handle)`, nonzero for an error
  pub nvs_open : List ℕ → Dev → ℕ × Handle × Dev
  pub nvs_close : Handle → Dev → Dev
  -- `nvs_get_blob(handle, key, NULL, &size)`: the result, and the size if it is ESP_OK
  pub nvs_blob_size : Handle → List ℕ → Dev → ℕ × ℕ
  -- `nvs_get_blob(handle, key, buf, &size)`: the bytes that it copies, or `none` on an error
  pub nvs_get_blob : Handle → List ℕ → ℕ → Dev → Option (List ℕ)
  pub nvs_set_blob : Handle → List ℕ → List ℕ → Dev → ℕ × Dev
  pub nvs_erase_key : Handle → List ℕ → Dev → Dev
  pub nvs_commit : Handle → Dev → Dev
  -- `malloc(size)`: indeterminate bytes, or `none`
  pub malloc : ℕ → Dev → Option (List ℕ) × Dev

-- The documented behaviour that theorems about the stored bytes rely on: a handle stands for the
-- namespace that it was opened with, and `blob s k d` is what namespace `s` stores under key `k`.
pub record NvsLaws (nvs : Nvs) : Type 0 where
  pub space : nvs.Handle → List ℕ
  pub blob : List ℕ → List ℕ → nvs.Dev → Option (List ℕ)
  pub malloc_length :
      (n : ℕ) (d : nvs.Dev) (b : List ℕ) → (nvs.malloc n d).0 ≡ some b → length b ≡ n
  pub malloc_blob : (n : ℕ) (d : nvs.Dev) (s k : List ℕ) → blob s k (nvs.malloc n d).1 ≡ blob s k d
  pub blob_size :
      (h : nvs.Handle) (k : List ℕ) (d : nvs.Dev) (b : List ℕ)
      → blob (space h) k d ≡ some b
      → nvs.nvs_blob_size h k d ≡ (0, length b)
  -- A blob that fits is copied in whole.
  pub get_blob :
      (h : nvs.Handle) (k : List ℕ) (n : ℕ) (d : nvs.Dev) (b : List ℕ)
      → blob (space h) k d ≡ some b
      → length b ≤ n
      → nvs.nvs_get_blob h k n d ≡ some b
  -- A blob that was set is there.
  pub set_blob :
      (h : nvs.Handle) (k b : List ℕ) (d : nvs.Dev)
      → (nvs.nvs_set_blob h k b d).0 ≡ 0
      → blob (space h) k (nvs.nvs_set_blob h k b d).1 ≡ some b
  pub open_space :
      (name : List ℕ) (d : nvs.Dev)
      → (nvs.nvs_open name d).0 ≡ 0
      → space (nvs.nvs_open name d).1 ≡ name
  -- Opening and closing change no blob.
  pub open_blob :
      (name : List ℕ) (d : nvs.Dev) (s k : List ℕ) → blob s k (nvs.nvs_open name d).2 ≡ blob s k d
  pub close_blob :
      (h : nvs.Handle) (d : nvs.Dev) (s k : List ℕ) → blob s k (nvs.nvs_close h d) ≡ blob s k d
