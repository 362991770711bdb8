-- ===== src/Http/Chunks.antt =====
-- `HTTPClient::writeToStream` of Essential Libraries/HTTPClient/src/HTTPClient.cpp, with its chunked
-- transfer, `returnError` and `disconnect`. The counts are below 2^31, where an `int` ends. `_size`, which
-- the last chunk may set, is read there and not after it.
use jedge.Base.{
  ℕ, zero, suc, ◌+◌, ◌-◌, ◌*◌, ◌^◌, ◌==◌, ltb, leb, if◌then◌else◌, min, Bool, true, false, not,
  ◌&&◌, ◌||◌, List, [], ◌∷◌, length, Option, none, some, ◌>>=◌, ℤ, pos, negsuc,
}
use jedge.Http.Net.{Net}
use jedge.Http.Block.{stream_write, is_connected, write_to_stream_data_block}

-- the other error codes
abbrev pub not_connected : ℤ
not_connected = negsuc 3

abbrev pub connection_lost : ℤ
connection_lost = negsuc 4

abbrev pub no_stream : ℤ
no_stream = negsuc 5

abbrev pub encoding_error : ℤ
encoding_error = negsuc 8

abbrev pub read_timeout : ℤ
read_timeout = negsuc 10

-- `transferEncoding_t`, and any other value of it
pub data Encoding : Type 0 where
  identity : Encoding
  chunked : Encoding
  unknown : Encoding

-- a digit of base 16
abbrev pub hex_digit : ℕ → Option ℕ
hex_digit c =
    if leb 48 c && leb c 57
    then some (c - 48)
    else if leb 65 c && leb c 70
    then some (c - 55)
    else if leb 97 c && leb c 102
    then some (c - 87)
    else none

unfoldable pub hex_value : List ℕ → ℕ → ℕ
hex_value [] n = n
hex_value (c ∷ s) n = elim (hex_digit c) [ none ↦ n | some k ↦ hex_value s (n * 16 + k) ]

abbrev pub is_space : ℕ → Bool
is_space c = (c == 32) || (leb 9 c && leb c 13)

unfoldable pub skip_space : List ℕ → List ℕ
skip_space [] = []
skip_space (c ∷ s) = let rest = skip_space s in if is_space c then rest else c ∷ s

-- a prefix `0x` is passed over
abbrev pub skip_prefix : List ℕ → List ℕ
skip_prefix (c ∷ x ∷ s) = if (c == 48) && ((x == 120) || (x == 88)) then s else c ∷ x ∷ s
skip_prefix s = s

-- the number with its sign, within the 32 bits of a `long`
abbrev pub signed_value : Bool → ℕ → ℤ
signed_value false n = pos (min n (2 ^ 31 - 1))
signed_value true zero = pos 0
signed_value true (suc n) = negsuc (min n (2 ^ 31 - 1))

abbrev pub signed_text : List ℕ → ℤ
signed_text [] = pos 0
signed_text (c ∷ s) =
    if c == 45
    then signed_value true (hex_value (skip_prefix s) 0)
    else if c == 43
    then signed_value false (hex_value (skip_prefix s) 0)
    else signed_value false (hex_value (skip_prefix (c ∷ s)) 0)

-- `strtol(.., NULL, 16)` of a chunk's header; what `trim` removes is what `strtol` passes over
unfoldable pub chunk_len : List ℕ → ℤ
chunk_len header = signed_text (skip_space header)

-- `size + len`
abbrev pub plus_int : ℕ → ℤ → ℤ
plus_int n (pos m) = pos (n + m)
plus_int n (negsuc k) = if ltb k n then pos (n - suc k) else negsuc (k - n)

-- `_size <= 0`
abbrev pub none_given : ℤ → Bool
none_given (pos n) = n == 0
none_given (negsuc _) = true

-- `ret != _size`
abbrev pub is_count : ℕ → ℤ → Bool
is_count n (pos m) = n == m
is_count n (negsuc _) = false

-- the trailing `\r\n` of a chunk
abbrev pub is_line_end : List ℕ → Bool
is_line_end (a ∷ b ∷ []) = (a == 13) && (b == 10)
is_line_end _ = false

module _ (net : Net) where
  open net use {Dev, available, read_bytes, read_byte, read_line, stop, delay}

  -- `returnError` of a negative number
  abbrev pub return_error : ℤ → Dev → ℤ × Dev
  return_error err d = (err, if is_connected net d then stop d else d)

  -- the end of the last chunk: `given` is `_size`, `size` the sum of the chunks, `n` the bytes written
  unfoldable pub last_chunk : ℤ → ℤ → ℕ → Dev → ℤ × Dev
  last_chunk given size n d =
      if is_count n (if none_given given then size else given)
      then (pos n, d)
      else return_error stream_write d

  -- what follows a chunk: its line end, and the next chunk
  abbrev pub after_block : (ℕ → Dev → Option (ℤ × Dev)) → ℕ → ℤ × Dev → Option (ℤ × Dev)
  after_block later n (negsuc k, d) = some (return_error (negsuc k) d)
  after_block later n (pos r, d) =
      let (ending, d1) = read_bytes 2 d in
      let next = later (n + r) (delay d1) in
      if is_line_end ending then next else some (return_error read_timeout d1)

  -- what follows the header of a chunk
  abbrev pub with_len :
      ℕ → (ℕ → ℕ → Dev → Option (ℤ × Dev)) → ℤ → ℕ → ℕ → ℤ → Dev → Option (ℤ × Dev)
  with_len fuel later given size n (pos (suc m)) d =
      write_to_stream_data_block net fuel (pos (suc m)) d >>= after_block (later (size + suc m)) n
  with_len fuel later given size n (pos zero) d =
      some (last_chunk given (plus_int size (pos zero)) n d)
  with_len fuel later given size n (negsuc k) d =
      some (last_chunk given (plus_int size (negsuc k)) n d)

  -- the loop of the chunked transfer, on fuel: the sum of the chunks, and the bytes written
  unfoldable pub chunk_loop : ℕ → ℤ → ℕ → ℕ → Dev → Option (ℤ × Dev)
  chunk_loop zero given size n d = none
  chunk_loop (suc fuel) given size n d =
      let (header, d1) = read_line d in
      let next = with_len (suc fuel) (chunk_loop fuel given) given size n (chunk_len header) d1 in
      if not (is_connected net d)
      then some (return_error connection_lost d)
      else if length header == 0
      then some (return_error read_timeout d1)
      else next

  -- the loop of `disconnect`, on fuel
  unfoldable pub drain : ℕ → Dev → Option Dev
  drain zero d = none
  drain (suc fuel) d =
      let rest = drain fuel (read_byte d) in if available d == 0 then some d else rest

  -- `disconnect(true)`; `keep` for a connection that is to be used again
  unfoldable pub disconnect : ℕ → Bool → Dev → Option Dev
  disconnect fuel keep d =
      let drained = drain fuel d >>= λ d'. some (if keep then d' else stop d') in
      if is_connected net d then drained else some d

  -- the error of a block that is not chunked
  abbrev pub told : ℤ × Dev → ℤ × Dev
  told (negsuc k, d) = return_error (negsuc k) d
  told (pos n, d) = (pos n, d)

  abbrev pub transfer : ℕ → Encoding → ℤ → Dev → Option (ℤ × Dev)
  transfer fuel Encoding.identity given d =
      write_to_stream_data_block net fuel given d >>= λ r. some (told r)
  transfer fuel Encoding.chunked given d = chunk_loop fuel given 0 0 d
  transfer fuel Encoding.unknown given d = some (return_error encoding_error d)

  abbrev pub finish_transfer : ℕ → Bool → ℤ × Dev → Option (ℤ × Dev)
  finish_transfer fuel keep (negsuc k, d) = some (negsuc k, d)
  finish_transfer fuel keep (pos n, d) = disconnect fuel keep d >>= λ d'. some (pos n, d')

  unfoldable pub write_to_stream : ℕ → Bool → Encoding → ℤ → Bool → Dev → Option (ℤ × Dev)
  write_to_stream fuel has_stream encoding given keep d =
      let all = transfer fuel encoding given d >>= finish_transfer fuel keep in
      if not has_stream
      then some (return_error no_stream d)
      else if not (is_connected net d)
      then some (return_error not_connected d)
      else all
