-- ===== src/WifiClient/Client.antt =====
-- `WiFiClient` of Essential Libraries/WiFi/src/WiFiClient.cpp: the calls that receive, `stop` and `flush`. The
-- socket of the client is the one of its buffer.
use jedge.Base.{
  ℕ, zero, suc, ◌-◌, ◌==◌, ltb, if◌then◌else◌, Bool, true, false, List, [], ◌∷◌, length, Option,
  none, some, ◌>>=◌, ℤ, pos, negsuc,
}
use jedge.WifiClient.RxBuffer.{Recv, Socket, RxBuffer, new_rx_buffer, read, peek, available}

-- a call through `_rxBuffer`, which may be null; `returns none` without fuel
pub data Call (A : Type 0) : Type 0 where
  null_pointer : Call A
  returns : Option A → Call A

-- `WIFI_CLIENT_FLUSH_BUFFER_SIZE`
abbrev pub flush_buffer_size : ℕ
flush_buffer_size = 1024

-- `_rxBuffer`, none for null, and `_connected`
pub record Client (socket : Socket) : Type 0 where
  pub rx : Option (RxBuffer socket)
  pub is_up : Bool

-- the result of `read()`
abbrev pub byte_of : ℤ → List ℕ → ℤ
byte_of (negsuc k) x = negsuc k
byte_of (pos zero) x = negsuc 0
byte_of (pos (suc _)) [] = pos 0
byte_of (pos (suc _)) (c ∷ _) = pos c

module _ {socket : Socket} where
  open socket use {Dev, recv, malloc}

  -- `WiFiClient(fd)`
  abbrev pub new_client : ℤ → Dev → Client socket
  new_client fd d = record { rx = some (new_rx_buffer fd 1436 d); is_up = true }

  unfoldable pub stop : Client socket → Client socket
  stop c = record { rx = none; is_up = false }

  -- after a call of the buffer
  abbrev pub after_call : Client socket → RxBuffer socket → Client socket
  after_call c s = if s.failed then stop c else record c { rx = some s }

  abbrev pub answer : Client socket → ℤ × List ℕ × RxBuffer socket → ℤ × List ℕ × Client socket
  answer c (r, out, s) = (r, out, after_call c s)

  abbrev pub client_read_of :
      ℕ → Bool → ℕ → Option (RxBuffer socket) → Client socket → Call (ℤ × List ℕ × Client socket)
  client_read_of fuel has_dst len none c = Call.null_pointer
  client_read_of fuel has_dst len (some s) c =
      Call.returns (read fuel has_dst len s >>= λ r. some (answer c r))

  -- `read(buf, size)`
  unfoldable pub client_read : ℕ → Bool → ℕ → Client socket → Call (ℤ × List ℕ × Client socket)
  client_read fuel has_dst len c = client_read_of fuel has_dst len c.rx c

  abbrev pub one_byte : Call (ℤ × List ℕ × Client socket) → Call (ℤ × Client socket)
  one_byte Call.null_pointer = Call.null_pointer
  one_byte (Call.returns o) = Call.returns (o >>= λ r. some (byte_of r.0 r.1, r.2))

  -- `read()`
  abbrev pub client_read_byte : ℕ → Client socket → Call (ℤ × Client socket)
  client_read_byte fuel c = one_byte (client_read fuel true 1 c)

  abbrev pub client_peek_of :
      Option (RxBuffer socket) → Client socket → Call (Option ℕ × Client socket)
  client_peek_of none c = Call.null_pointer
  client_peek_of (some s) c = let (r, s1) = peek s in Call.returns (some (r, after_call c s1))

  -- `peek()`
  abbrev pub client_peek : Client socket → Call (Option ℕ × Client socket)
  client_peek c = client_peek_of c.rx c

  abbrev pub client_available_of : Option (RxBuffer socket) → Client socket → ℕ × Client socket
  client_available_of none c = (0, c)
  client_available_of (some s) c = let (n, s1) = available s in (n, after_call c s1)

  -- `available()`
  unfoldable pub client_available : Client socket → ℕ × Client socket
  client_available c = client_available_of c.rx c

  -- after a `recv` of `flush`; none for a client that is stopped
  abbrev pub after_recv :
      (ℕ → RxBuffer socket → Option (Option (RxBuffer socket)))
      → ℕ
      → RxBuffer socket
      → Recv × Dev
      → Option (Option (RxBuffer socket))
  after_recv later a s (Recv.got x, d) = later (a - length x) (record s { dev = d })
  after_recv later a s (Recv.would_block, d) = some none
  after_recv later a s (Recv.recv_error, d) = some none

  -- the loop of `flush`, on fuel
  unfoldable pub flush_loop : ℕ → ℕ → RxBuffer socket → Option (Option (RxBuffer socket))
  flush_loop zero a s = none
  flush_loop (suc fuel) a s =
      let to_read = if ltb flush_buffer_size a then flush_buffer_size else a in
      let next = after_recv (flush_loop fuel) a s (recv to_read s.dev) in
      if a == 0 then some (some s) else next

  abbrev pub flushed : Client socket → Option (RxBuffer socket) → Client socket
  flushed c none = stop c
  flushed c (some s) = record c { rx = some s }

  -- with the memory of `flush`
  abbrev pub flush_into :
      ℕ → ℕ → Option (List ℕ) → Option (RxBuffer socket) → Client socket → Option (Client socket)
  flush_into fuel a none rx c = some c
  flush_into fuel a (some _) none c = some (stop c)
  flush_into fuel a (some _) (some s) c = flush_loop fuel a s >>= λ o. some (flushed c o)

  abbrev pub flush_of : ℕ → Option (RxBuffer socket) → Client socket → Option (Client socket)
  flush_of fuel none c = some c
  flush_of fuel (some s) c =
      let (a, c1) = client_available c in
      let (n, s1) = available s in
      if a == 0 then some c1 else flush_into fuel a (malloc flush_buffer_size s1.dev) c1.rx c1

  -- `flush`; a client that has no buffer has no bytes, and one that `available` has stopped no socket
  unfoldable pub flush : ℕ → Client socket → Option (Client socket)
  flush fuel c = flush_of fuel c.rx c
