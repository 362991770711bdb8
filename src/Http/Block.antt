-- ===== src/Http/Block.antt =====
-- `HTTPClient::writeToStreamDataBlock` of Essential Libraries/HTTPClient/src/HTTPClient.cpp. The count
-- of the bytes is below 2^31, where an `int` ends.
use jedge.Base.{
  ℕ, zero, suc, ◌+◌, ◌-◌, ◌==◌, ltb, if◌then◌else◌, Bool, true, false, not, ◌&&◌, ◌||◌, List,
  length, take, drop, memcpy, Option, none, some, ◌>>=◌, ℤ, pos, negsuc,
}
use jedge.Http.Net.{Net}

-- `HTTP_TCP_BUFFER_SIZE`
abbrev pub tcp_buffer_size : ℕ
tcp_buffer_size = 1460

-- `HTTPC_ERROR_STREAM_WRITE` and `HTTPC_ERROR_TOO_LESS_RAM`
abbrev pub stream_write : ℤ
stream_write = negsuc 9

abbrev pub too_less_ram : ℤ
too_less_ram = negsuc 7

abbrev pub buff_size : ℤ → ℕ
buff_size (pos n) = if ltb 0 n && ltb n tcp_buffer_size then n else tcp_buffer_size
buff_size (negsuc _) = tcp_buffer_size

-- `len > 0 || len == -1`
abbrev pub wants : ℤ → Bool
wants (pos n) = ltb 0 n
wants (negsuc zero) = true
wants (negsuc (suc _)) = false

-- `readBytes`, from what is wanted, what the buffer holds and what is available
unfoldable pub to_read : ℤ → ℕ → ℕ → ℕ
to_read (pos n) room available =
    let m = if ltb 0 n && ltb n available then n else available in if ltb room m then room else m
to_read (negsuc _) room available = if ltb room available then room else available

-- `len -= readBytes`
abbrev pub shrink : ℤ → ℕ → ℤ
shrink (pos n) asked = if ltb 0 n then pos (n - asked) else pos n
shrink (negsuc n) asked = negsuc n

module _ (net : Net) where
  open net use {
    Dev, connected, available, read_bytes, write, write_error, clear_write_error, delay, malloc,
  }

  -- `connected()`
  abbrev pub is_connected : Dev → Bool
  is_connected d = ltb 0 (available d) || connected d

  -- the second check for a write error: whether the loop goes on
  abbrev pub checked : ℕ → Dev → Bool × ℕ × Dev
  checked n d = (write_error d == 0, n, d)

  -- the second try, for the bytes that are left after `n`
  unfoldable pub retry : ℕ → ℕ → List ℕ → Dev → Bool × ℕ × Dev
  retry n left rest d =
      let (m, d1) = write rest d in if m == left then checked (n + m) d1 else (false, n + m, d1)

  -- the write of the bytes read, and the bytes counted
  unfoldable pub pass_on : ℕ → List ℕ → List ℕ → Dev → Bool × ℕ × Dev
  pass_on asked buff got d =
      let (n, d1) = write got d in
      let d2 = if write_error d1 == 0 then d1 else clear_write_error d1 in
      if n == length got
      then checked n d1
      else retry n (asked - n) (take (asked - n) (drop n buff)) (delay d2)

  -- the loop, on fuel: whether it came to its end, the bytes counted
  unfoldable pub block_loop : ℕ → ℤ → List ℕ → ℕ → Dev → Option (Bool × ℕ × Dev)
  block_loop zero len buff n d = none
  block_loop (suc fuel) len buff n d =
      let asked = to_read len (length buff) (available d) in
      let (got, d1) = read_bytes asked d in
      let buff1 = memcpy buff 0 got in
      let (ok, k, d2) = pass_on asked buff1 got d1 in
      let next = block_loop fuel (shrink len asked) buff1 (n + k) (delay d2) in
      let idle = block_loop fuel len buff n (delay d) in
      if not (is_connected d && wants len)
      then some (true, n, d)
      else if available d == 0
      then idle
      else if asked == 0
      then some (true, n, d)
      else if ok
      then next
      else some (false, n + k, d2)

  -- the end: the bytes written, or an error
  unfoldable pub finish_block : ℤ → Bool × ℕ × Dev → ℤ × Dev
  finish_block size (false, n, d) = (stream_write, d)
  finish_block (pos s) (true, n, d) =
      if ltb 0 s && not (s == n) then (stream_write, d) else (pos n, d)
  finish_block (negsuc _) (true, n, d) = (pos n, d)

  abbrev pub block_with : ℕ → ℤ → Option (List ℕ) → Dev → Option (ℤ × Dev)
  block_with fuel size none d = some (too_less_ram, d)
  block_with fuel size (some buff) d =
      block_loop fuel size buff 0 d >>= λ r. some (finish_block size r)

  unfoldable pub write_to_stream_data_block : ℕ → ℤ → Dev → Option (ℤ × Dev)
  write_to_stream_data_block fuel size d = block_with fuel size (malloc (buff_size size) d) d
