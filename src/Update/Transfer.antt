-- ===== src/Update/Transfer.antt =====
-- The methods of `UpdateClass` that take the image in: `write` and `writeStream` of Essential
-- Libraries/Update/src/Updater.cpp, and the template `write` of Update.h. A loop takes fuel; `none`
-- means that it ran out.
use jedge.Base.{
  ℕ, zero, suc, ◌+◌, ◌==◌, ltb, if◌then◌else◌, add_size, sub_size, Bool, true, false, not, ◌||◌,
  Option, none, some, List, [], ◌∷◌, length, take, drop, memcpy,
}
use jedge.Update.Esp.{Esp}
use jedge.Update.State.{
  Updater, sector, bytes, has_error, is_running, remaining, led, reset, abort_with, write_buffer,
  verify_header, arm,
}
use jedge.Update.UpdateError

module _ (esp : Esp) where
  open esp use {Stream, read_bytes}

  -- the loop `while(!toRead)` of `writeStream`: `tries` reads at most, 100 ms apart
  unfoldable pub read_retry : ℕ → ℕ → Stream → List ℕ × Stream
  read_retry zero n s = ([], s)
  read_retry (suc tries) n s =
      let (got, s') = read_bytes n s in
      let again = read_retry tries n s' in elim got [ [] ↦ again | x ∷ xs ↦ (x ∷ xs, s') ]

module _ {esp : Esp} where
  open esp use {Stream, peek, available, read}

  -- `memcpy(_buffer + _bufferLen, data, n); _bufferLen += n;`
  abbrev pub collect : List ℕ → Updater esp → Updater esp
  collect piece u = record u {
    buffer = some (memcpy (bytes u.buffer) u.buffer_len piece);
    buffer_len = add_size u.buffer_len (length piece);
  }

  -- the `while` of `write`, over the bytes that are left; `false` for the early return
  unfoldable pub write_loop : ℕ → List ℕ → Updater esp → Option (Bool × List ℕ × Updater esp)
  write_loop zero left u = none
  write_loop (suc fuel) left u =
      let to_buff = sub_size sector u.buffer_len in
      let (stored, u') = write_buffer (collect (take to_buff left) u) in
      if ltb sector (add_size u.buffer_len (length left))
      then elim stored [
        | true ↦ write_loop fuel (drop to_buff left) u'
        | false ↦ some (false, left, u')
      ]
      else some (true, left, u)

  -- what follows the loop of `write`: `n` is the length of all the data
  unfoldable pub write_rest : ℕ → List ℕ → Updater esp → ℕ × Updater esp
  write_rest n left u =
      let u1 = collect left u in
      let (stored, u2) = write_buffer u1 in
      if u1.buffer_len == remaining u1
      then if stored then (n, u2) else (sub_size n (length left), u2)
      else (n, u1)

  -- the return of `write`, from the loop's outcome
  abbrev pub finish_write : ℕ → Bool × List ℕ × Updater esp → ℕ × Updater esp
  finish_write n (true, left, u) = write_rest n left u
  finish_write n (false, left, u) = (sub_size n (length left), u)

  unfoldable pub write : List ℕ → Updater esp → Option (ℕ × Updater esp)
  write bytes_in u =
      let n = length bytes_in in
      if has_error u || not (is_running u)
      then some (0, u)
      else if ltb (remaining u) n
      then some (0, abort_with UpdateError.space u)
      else elim (write_loop (suc (u.buffer_len + n)) bytes_in u) [
        | none ↦ none
        | some r ↦ some (finish_write n r)
      ]

  -- `bytesToRead`
  abbrev pub bytes_to_read : Updater esp → ℕ
  bytes_to_read u =
      let room = sub_size sector u.buffer_len in
      if ltb (remaining u) room then remaining u else room

  -- one round of `writeStream` with the bytes read: `false` for the early return
  unfoldable pub take_in : List ℕ → Updater esp → Bool × Updater esp
  take_in got u =
      let u1 = collect got (led (not u.led_on) u) in
      if u1.buffer_len == remaining u1 || u1.buffer_len == sector
      then write_buffer u1
      else (true, u1)

  unfoldable pub stream_loop : ℕ → ℕ → Stream → Updater esp → Option (ℕ × Stream × Updater esp)
  stream_loop zero written s u = none
  stream_loop (suc fuel) written s u =
      let lit = led u.led_on u in
      let (got, s') = read_retry esp 300 (bytes_to_read lit) s in
      let (stored, u') = take_in got lit in
      let failed : Option (ℕ × Stream × Updater esp) =
        some (written, s', abort_with UpdateError.stream lit) in
      let next : Option (ℕ × Stream × Updater esp) = elim stored [
        | true ↦ stream_loop fuel (add_size written (length got)) s' u'
        | false ↦ some (written, s', u')
      ] in
      if remaining u == 0 then some (written, s, u) else elim got [ [] ↦ failed | _ ∷ _ ↦ next ]

  unfoldable pub write_stream : ℕ → Stream → Updater esp → Option (ℕ × Stream × Updater esp)
  write_stream fuel s u =
      let (valid, u1) = verify_header (peek s) u in
      let u2 : Updater esp = record u1 { dev = arm esp u1.led_pin u1.dev } in
      if has_error u || not (is_running u)
      then some (0, s, u)
      else if not valid
      then some (0, s, reset u1)
      else stream_loop fuel 0 s u2

  -- one round of the template `write`, for `n` bytes that the source says it has: the rounds's
  -- result, how many bytes it counts, and the source
  unfoldable pub pull : ℕ → Stream → Updater esp → Bool × ℕ × Stream × Updater esp
  pull n s u =
      let room = sub_size sector u.buffer_len in
      let over = ltb sector (add_size u.buffer_len n) in
      let asked = if over then room else n in
      let (got, s') = read asked s in
      let u1 : Updater esp = record u {
        buffer = some (memcpy (bytes u.buffer) u.buffer_len got);
        buffer_len = add_size u.buffer_len asked;
      } in
      let (stored, u2) = write_buffer u1 in
      if over
      then (stored, if stored then asked else 0, s', u2)
      else if u1.buffer_len == remaining u1
      then (stored, asked, s', u2)
      else (true, asked, s', u1)

  -- `if(_bufferLen + available > remaining()) available = remaining() - _bufferLen;`
  abbrev pub clip : ℕ → Updater esp → ℕ
  clip n u =
      if ltb (remaining u) (add_size u.buffer_len n) then sub_size (remaining u) u.buffer_len else n

  unfoldable pub pull_loop : ℕ → ℕ → Stream → Updater esp → Option (ℕ × Stream × Updater esp)
  pull_loop zero written s u = none
  pull_loop (suc fuel) written s u =
      let (stored, n, s', u') = pull (clip (available s) u) s u in
      let written' = add_size written n in
      let again = pull_loop fuel written' s' u' in
      if available s == 0
      then some (written, s, u)
      else if not stored
      then some (written', s', u')
      else if remaining u' == 0
      then some (written', s', u')
      else again

  unfoldable pub write_from : ℕ → Stream → Updater esp → Option (ℕ × Stream × Updater esp)
  write_from fuel s u =
      if has_error u || not (is_running u) then some (0, s, u) else pull_loop fuel 0 s u
