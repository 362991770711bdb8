-- ===== src/WifiClient/Faults.antt =====
-- What the client's calls do after the socket has failed or the other end has closed the connection.
use jedge.Base.{
  ◌+◌, ◌≡◌, ◌<◌, ℕ, zero, suc, ◌-◌, ◌==◌, ltb, if◌then◌else◌, Bool, true, false, List, [], none,
  some, ◌>>=◌, ℤ, pos, arith, refl, ap, ◌∙◌,
}
use jedge.WifiClient.RxBuffer.{Recv, Socket, RxBuffer, read, r_available, available}
use jedge.WifiClient.Client.{
  Call, Client, stop, answer, client_read, client_peek, client_available, flush_buffer_size,
  flush_loop, flushed, flush,
}

module _ {socket : Socket} where
  -- Nothing is behind a client's null pointer.
  abbrev pub IsNull : Client socket → Type 0
  IsNull c =
      ((fuel : ℕ) (has_dst : Bool) (len : ℕ) → client_read fuel has_dst len c ≡ Call.null_pointer)
      × (client_peek c ≡ Call.null_pointer)
      × (client_available c ≡ (0, c))

  stop-IsNull : (c : Client socket) → IsNull (stop c)
  unfolding stop client_read client_available
  stop-IsNull c = (λ fuel has_dst len. refl, refl, refl)

  -- Where the buffer has failed in the call, a read of a client still returns what the buffer's
  -- read gives, but stops the client: then available gives 0, and every further read and every
  -- peek calls a method of a null pointer.
  pub client_read-IsNull :
      (fuel : ℕ) (has_dst : Bool) (len : ℕ) (s : RxBuffer socket) (is_up : Bool) (r : ℤ)
      (out : List ℕ) (s' : RxBuffer socket)
      → read fuel has_dst len s ≡ some (r, out, s')
      → s'.failed ≡ true
      → (c : Client socket) × (client_read fuel has_dst len (record { rx = some s; is_up = is_up })
          ≡ Call.returns (some (r, out, c)))
        × IsNull c
  unfolding client_read
  client_read-IsNull fuel has_dst len s is_up r out s' e h =
      let c : Client socket = record { rx = some s; is_up = is_up } in
      (
        stop c,
        ap (λ o. Call.returns (o >>= λ q. some (answer c q))) e
            ∙ ap
                (λ (b : Bool).
                  Call.returns (some (r, out, if b then stop c else record c { rx = some s' })))
                h,
        stop-IsNull c,
      )

module _ (socket : Socket) where
  open socket use {Dev, recv, malloc, fionread}

  -- The other end has closed the connection: no bytes are left in the socket, and `recv` gives 0.
  abbrev pub IsClosed : Dev → Type 0
  IsClosed d = (fionread d ≡ (some 0, d)) × ((n : ℕ) → recv n d ≡ (Recv.got [], d))

  -- a buffer whose socket has not failed
  abbrev pub buffer_at : ℕ → List ℕ → ℕ → ℕ → ℕ → Dev → RxBuffer socket
  buffer_at size b position fill fd d = record {
    size = size;
    buffer = some b;
    position = position;
    fill = fill;
    fd = pos fd;
    failed = false;
    dev = d;
  }

  abbrev pub client_at : ℕ → List ℕ → ℕ → ℕ → ℕ → Dev → Bool → Client socket
  client_at size b position fill fd d is_up = record {
    rx = some (buffer_at size b position fill fd d);
    is_up = is_up;
  }

  flush_loop-endless :
      (fuel a : ℕ) (s : RxBuffer socket) → 0 < a → IsClosed s.dev → flush_loop fuel a s ≡ none
  unfolding flush_loop
  flush_loop-endless zero a s h closed = refl
  flush_loop-endless (suc fuel) a s h (e, closed) =
      let more : (a == 0) ≡ false = ground arith in
      rw (more, closed (if ltb flush_buffer_size a then flush_buffer_size else a))
        (flush_loop-endless fuel (a - 0) s (omega arith) (e, closed))

  -- Where the other end has closed the connection, the buffer holds bytes that were not read, and
  -- flush has its memory, flush never ends: with no fuel does it come to an end.
  pub flush-endless :
      (fuel : ℕ) (fd size position fill : ℕ) (b memory : List ℕ) (d : Dev) (is_up : Bool)
      → position < fill
      → IsClosed d
      → malloc flush_buffer_size d ≡ some memory
      → flush fuel (client_at size b position fill fd d is_up) ≡ none
  unfolding flush client_available available r_available
  flush-endless fuel fd size position fill b memory d is_up h (e, closed) m =
      let more : (fill - position + 0 == 0) ≡ false = ground arith in
      rw (e, more, m)
        (ap (λ o. o >>= λ o. some (flushed (client_at size b position fill fd d is_up) o))
          (flush_loop-endless fuel (fill - position + 0) (buffer_at size b position fill fd d)
            (ground arith) (e, closed)))
