-- ===== src/Update/Esp.antt =====
-- What `UpdateClass` calls and does not implement: the ESP-IDF flash, OTA and partition functions,
-- the heap, the GPIO pins, the MD5 builder and the Arduino stream. Each call may change the
-- device; what it reports is up to the device. A null pointer is `none`.
use jedge.Base.{ℕ, ◌+◌, ◌-◌, ◌⊎◌, ◌≤◌, ◌<◌, ◌≡◌, Bool, true, Option, some, List, length, get_or}

pub record Esp : Type 1 where
  pub Dev : Type 0
  pub Partition : Type 0
  pub Stream : Type 0
  pub Md5 : Type 0
  -- `partition->size`
  pub partition_size : Partition → ℕ
  -- `esp_ota_get_next_update_partition(NULL)` and `esp_partition_find_first(DATA, SPIFFS, label)`
  pub next_update_partition : Dev → Option Partition
  pub find_spiffs : Option (List ℕ) → Dev → Option Partition
  -- `ESP.partitionRead(partition, off, buf, size)`: the bytes, or `none` where it returns false
  pub partition_read : Option Partition → ℕ → ℕ → Dev → Option (List ℕ)
  -- `ESP.partitionEraseRange(partition, off, size)`
  pub partition_erase_range : Option Partition → ℕ → ℕ → Dev → Bool × Dev
  -- `ESP.partitionWrite(partition, off, source, size)`; the list is what `source` points to
  pub partition_write : Option Partition → ℕ → List ℕ → ℕ → Dev → Bool × Dev
  -- `esp_ota_set_boot_partition(partition)`, nonzero for an error
  pub set_boot_partition : Option Partition → Dev → ℕ × Dev
  -- `malloc(size)`: indeterminate bytes, or `none`
  pub malloc : ℕ → Dev → Option (List ℕ) × Dev
  pub pin_mode_output : ℕ → Dev → Dev
  pub digital_write : ℕ → Bool → Dev → Dev
  -- `MD5Builder`
  pub md5_new : Md5
  pub md5_begin : Md5 → Md5
  pub md5_add : List ℕ → Md5 → Md5
  pub md5_calculate : Md5 → Md5
  pub md5_to_string : Md5 → List ℕ
  -- `data.peek()` as the byte that it passes on, and `data.readBytes(buf, n)`
  pub peek : Stream → ℕ
  pub read_bytes : ℕ → Stream → List ℕ × Stream
  -- `data.available()` and `data.read(buf, n)` of the objects that the template `write` takes
  pub available : Stream → ℕ
  pub read : ℕ → Stream → List ℕ × Stream

-- The documented behaviour that theorems about the flash rely on. `cell p i d` is the byte at
-- offset `i` of partition `p`.
pub record FlashLaws (esp : Esp) : Type 0 where
  pub cell : esp.Partition → ℕ → esp.Dev → ℕ
  -- A block from the heap has the size asked for.
  pub malloc_length :
      (n : ℕ) (d : esp.Dev) (b : List ℕ) → (esp.malloc n d).0 ≡ some b → length b ≡ n
  -- Pins and the choice of the boot partition leave the flash alone.
  pub digital_write_cell :
      (pin : ℕ) (level : Bool) (d : esp.Dev) (p : esp.Partition) (i : ℕ)
      → cell p i (esp.digital_write pin level d) ≡ cell p i d
  pub boot_cell :
      (q : Option esp.Partition) (d : esp.Dev) (p : esp.Partition) (i : ℕ)
      → cell p i (esp.set_boot_partition q d).1 ≡ cell p i d
  -- An erased range reads 0xFF, and erasing leaves what lies below it alone.
  pub erase_at :
      (p : esp.Partition) (off n : ℕ) (d : esp.Dev) (i : ℕ)
      → (esp.partition_erase_range (some p) off n d).0 ≡ true
      → off ≤ i
      → i < off + n
      → cell p i (esp.partition_erase_range (some p) off n d).1 ≡ 0xFF
  pub erase_below :
      (p : esp.Partition) (off n : ℕ) (d : esp.Dev) (i : ℕ)
      → i < off
      → cell p i (esp.partition_erase_range (some p) off n d).1 ≡ cell p i d
  -- A write to erased flash that is reported as done stores the bytes, and leaves what lies beside
  -- them alone.
  pub write_at :
      (p : esp.Partition) (off : ℕ) (src : List ℕ) (n : ℕ) (d : esp.Dev) (i : ℕ)
      → (esp.partition_write (some p) off src n d).0 ≡ true
      → ((k : ℕ) → off ≤ k → k < off + n → cell p k d ≡ 0xFF)
      → off ≤ i
      → i < off + n
      → n ≤ length src
      → cell p i (esp.partition_write (some p) off src n d).1 ≡ get_or src (i - off) 0
  pub write_beside :
      (p : esp.Partition) (off : ℕ) (src : List ℕ) (n : ℕ) (d : esp.Dev) (i : ℕ)
      → (i < off) ⊎ (off + n ≤ i)
      → cell p i (esp.partition_write (some p) off src n d).1 ≡ cell p i d
  -- A read that is reported as done gives the bytes that are there.
  pub read_at :
      (p : esp.Partition) (off n : ℕ) (d : esp.Dev) (b : List ℕ) (k : ℕ)
      → esp.partition_read (some p) off n d ≡ some b
      → k < n
      → get_or b k 0 ≡ cell p (off + k) d
