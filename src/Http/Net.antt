-- ===== src/Http/Net.antt =====
-- What `HTTPClient` calls: the TCP client, the stream that it writes to, and the heap.
use jedge.Base.{ℕ, ◌≤◌, ◌<◌, ◌≡◌, Bool, true, List, ◌++◌, length, take, Option, some}

pub record Net : Type 1 where
  pub Dev : Type 0
  -- `_client->connected()`, `available()`, `readBytes(buff, n)`, `read()`, `readStringUntil('\n')` and
  -- `stop()`
  pub connected : Dev → Bool
  pub available : Dev → ℕ
  pub read_bytes : ℕ → Dev → List ℕ × Dev
  pub read_byte : Dev → Dev
  pub read_line : Dev → List ℕ × Dev
  pub stop : Dev → Dev
  -- `stream->write(data, n)`, `getWriteError()` and `clearWriteError()`
  pub write : List ℕ → Dev → ℕ × Dev
  pub write_error : Dev → ℕ
  pub clear_write_error : Dev → Dev
  -- `delay`, and `malloc` with what its memory holds
  pub delay : Dev → Dev
  pub malloc : ℕ → Dev → Option (List ℕ)

-- Their documented behaviour, with the bytes that were read and those that the stream has taken: the
-- bytes that are available are read at once, and a write takes a first part of its bytes.
pub record NetLaws (net : Net) : Type 0 where
  pub taken : net.Dev → List ℕ
  pub written : net.Dev → List ℕ
  pub read_full : (n : ℕ) (d : net.Dev) → n ≤ net.available d → length (net.read_bytes n d).0 ≡ n
  pub taken-read_bytes :
      (n : ℕ) (d : net.Dev) → taken (net.read_bytes n d).1 ≡ taken d ++ (net.read_bytes n d).0
  pub written-read_bytes : (n : ℕ) (d : net.Dev) → written (net.read_bytes n d).1 ≡ written d
  pub write_most : (x : List ℕ) (d : net.Dev) → (net.write x d).0 ≤ length x
  pub written-write :
      (x : List ℕ) (d : net.Dev) → written (net.write x d).1 ≡ written d ++ take (net.write x d).0 x
  pub taken-write : (x : List ℕ) (d : net.Dev) → taken (net.write x d).1 ≡ taken d
  pub taken-clear_write_error : (d : net.Dev) → taken (net.clear_write_error d) ≡ taken d
  pub written-clear_write_error : (d : net.Dev) → written (net.clear_write_error d) ≡ written d
  pub taken-delay : (d : net.Dev) → taken (net.delay d) ≡ taken d
  pub written-delay : (d : net.Dev) → written (net.delay d) ≡ written d
  pub written-read_byte : (d : net.Dev) → written (net.read_byte d) ≡ written d
  pub written-read_line : (d : net.Dev) → written (net.read_line d).1 ≡ written d
  pub written-stop : (d : net.Dev) → written (net.stop d) ≡ written d
  pub malloc_length : (n : ℕ) (d : net.Dev) (b : List ℕ) → net.malloc n d ≡ some b → length b ≡ n

-- A server that sends and waits only so often before it closes the connection: `polls` of the client's
-- looks at it are left.
pub record Closes (net : Net) : Type 0 where
  pub polls : net.Dev → ℕ
  pub polls-delay :
      (d : net.Dev) → net.connected d ≡ true → net.available d ≡ 0 → polls (net.delay d) < polls d
  pub polls-read_bytes :
      (n : ℕ) (d : net.Dev) → 0 < n → n ≤ net.available d → polls (net.read_bytes n d).1 < polls d
  pub polls-write : (x : List ℕ) (d : net.Dev) → polls (net.write x d).1 ≤ polls d
  pub polls-clear_write_error : (d : net.Dev) → polls (net.clear_write_error d) ≤ polls d
  pub polls_later : (d : net.Dev) → polls (net.delay d) ≤ polls d
  pub polls-read_byte : (d : net.Dev) → 0 < net.available d → polls (net.read_byte d) < polls d
  pub polls-read_line :
      (d : net.Dev) → 0 < length (net.read_line d).0 → polls (net.read_line d).1 < polls d
  pub polls-read_most : (n : ℕ) (d : net.Dev) → polls (net.read_bytes n d).1 ≤ polls d
  pub polls-read_line_most : (d : net.Dev) → polls (net.read_line d).1 ≤ polls d
  pub polls-stop : (d : net.Dev) → polls (net.stop d) ≤ polls d
