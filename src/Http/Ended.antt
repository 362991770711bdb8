-- ===== src/Http/Ended.antt =====
-- `HTTPClient::writeToStream` ends, and its result counts what the stream has taken.
use jedge.Base.{
  ℕ, zero, suc, ◌≤◌, ◌<◌, ◌≡◌, ◌==◌, if_both, Bool, not, List, ◌++◌, length, some, ◌>>=◌, ℤ, pos,
  negsuc, arith, refl, sym, ap, ◌∙◌, inl, inr, Bool-cases,
}
use mathlib.Core.Path.{subst}
use jedge.Http.Net.{Net, NetLaws, Closes}
use jedge.Http.Block.{is_connected}
use jedge.Http.Chunks.{
  Encoding, return_error, drain, disconnect, told, transfer, finish_transfer, write_to_stream,
}
use jedge.Http.Streamed.{Counts, Ends, block-Ends, Ends-after, return_error-Ends, chunk_loop-Ends}

module _ {net : Net} (laws : NetLaws net) (closes : Closes net) where
  open net use {Dev}
  open laws use {written}
  open closes use {polls}

  drain-Ends :
      (fuel : ℕ) (d : Dev)
      → polls d < fuel
      → (d' : Dev) × (drain net fuel d ≡ some d') × (written d' ≡ written d) × (polls d' ≤ polls d)
  unfolding drain
  drain-Ends zero d h = absurd (omega arith)
  drain-Ends (suc fuel) d h = elim (Bool-cases (net.available d == 0)) [
    | inl empty ↦ rw empty (d, refl, refl, omega arith)
    | inr more ↦
        let fewer = closes.polls-read_byte d (ground arith) in
        let (d', e, w, p) = drain-Ends fuel (net.read_byte d) (omega arith) in
        rw more (d', e, w ∙ laws.written-read_byte d, omega arith)
  ]

  disconnect-Ends :
      (fuel : ℕ) (keep : Bool) (d : Dev)
      → polls d < fuel
      → (d' : Dev) × (disconnect net fuel keep d ≡ some d')
        × (written d' ≡ written d)
        × (polls d' ≤ polls d)
  unfolding disconnect
  disconnect-Ends fuel keep d h =
      let (d1, e, w, p) = drain-Ends fuel d h in
      elim (Bool-cases (is_connected net d)) [
        | inr closed ↦ rw closed (d, refl, refl, omega arith)
        | inl open_yet ↦ elim (Bool-cases keep) [
          | inl kept ↦ rw (open_yet, e, kept) (d1, refl, w, p)
          | inr not_kept ↦
              let stopped = closes.polls-stop d1 in
              rw (open_yet, e, not_kept) (net.stop d1, refl, laws.written-stop d1 ∙ w, omega arith)
        ]
      ]

  told-Ends :
      (given r : ℤ) (d d1 : Dev) (y : List ℕ)
      → written d1 ≡ written d ++ y
      → Counts 0 given r y
      → polls d1 ≤ polls d
      → Ends laws closes 0 given d (some (told net (r, d1)))
  told-Ends given (pos m) d d1 y w c p = (pos m, d1, y, refl, w, c, p)
  told-Ends given (negsuc k) d d1 y w c p =
      Ends-after laws closes 0 (length y) given d d1 y (some (return_error net (negsuc k) d1))
        (omega arith) w p (return_error-Ends laws closes (length y) k given d1)

  transfer-Ends :
      (fuel : ℕ) (encoding : Encoding) (given : ℤ) (d : Dev)
      → polls d < fuel
      → Ends laws closes 0 given d (transfer net fuel encoding given d)
  transfer-Ends fuel Encoding.identity given d h =
      let (r, d1, y, e, w, c, p) = block-Ends laws closes fuel given d h in
      subst (λ o. Ends laws closes 0 given d (o >>= λ r. some (told net r))) (sym e)
        (told-Ends given r d d1 y w c p)
  transfer-Ends fuel Encoding.chunked given d h = chunk_loop-Ends laws closes fuel given 0 0 d h
  transfer-Ends fuel Encoding.unknown given d h = return_error-Ends laws closes 0 8 given d

  finish_transfer-Ends :
      (fuel : ℕ) (keep : Bool) (given r : ℤ) (d d1 : Dev) (y : List ℕ)
      → polls d1 < fuel
      → written d1 ≡ written d ++ y
      → Counts 0 given r y
      → polls d1 ≤ polls d
      → Ends laws closes 0 given d (finish_transfer net fuel keep (r, d1))
  finish_transfer-Ends fuel keep given (negsuc k) d d1 y h w c p = (negsuc k, d1, y, refl, w, c, p)
  finish_transfer-Ends fuel keep given (pos m) d d1 y h w c p =
      let (d2, e, w2, p2) = disconnect-Ends fuel keep d1 h in
      (pos m, d2, y, ap (λ o. o >>= λ q. some (pos m, q)) e, w2 ∙ w, c, omega arith)

  -- Where bytes that are available are read at once, a write takes a first part of its bytes,
  -- and the server sends and waits only so often before it closes the connection: the call of
  -- writeToStream ends, for every transfer encoding, and the stream has taken some bytes more.
  -- A result that is not an error is the number of those bytes; and where the size of the
  -- document is given and above 0, it is that size.
  pub write_to_stream-Ends :
      (fuel : ℕ) (has_stream : Bool) (encoding : Encoding) (given : ℤ) (keep : Bool) (d : Dev)
      → polls d < fuel
      → Ends laws closes 0 given d (write_to_stream net fuel has_stream encoding given keep d)
  unfolding write_to_stream
  write_to_stream-Ends fuel has_stream encoding given keep d h =
      let (r, d1, y, e, w, c, p) = transfer-Ends fuel encoding given d h in
      let all : Ends laws closes 0 given d
          (transfer net fuel encoding given d >>= finish_transfer net fuel keep) =
        subst (λ o. Ends laws closes 0 given d (o >>= finish_transfer net fuel keep)) (sym e)
          (finish_transfer-Ends fuel keep given r d d1 y (omega arith) w c p) in
      if_both (Ends laws closes 0 given d) (not has_stream)
        (return_error-Ends laws closes 0 5 given d)
        (if_both (Ends laws closes 0 given d) (not (is_connected net d))
          (return_error-Ends laws closes 0 3 given d) all)
