-- ===== src/WifiClient/RxBuffer.antt =====
-- `WiFiClientRxBuffer` of Essential Libraries/WiFi/src/WiFiClient.cpp. A `read` gives its result, the bytes
-- that it writes at `dst`, and the buffer after it.
use jedge.Base.{
  ◌≡◌, ◌≤◌, ℕ, zero, suc, ◌+◌, ◌-◌, ◌==◌, ltb, leb, if◌then◌else◌, Bool, true, false, not, ◌&&◌,
  ◌||◌, List, [], ◌∷◌, ◌++◌, length, take, drop, memcpy, Option, none, some, ◌>>=◌, ℤ, pos, negsuc,
}

-- what `recv` gives: the bytes, `EWOULDBLOCK` or another error
pub data Recv : Type 0 where
  got : List ℕ → Recv
  would_block : Recv
  recv_error : Recv

abbrev pub bytes_of : Recv → List ℕ
bytes_of (Recv.got x) = x
bytes_of Recv.would_block = []
bytes_of Recv.recv_error = []

-- lwIP's socket and the heap: `lwip_ioctl_r(.., FIONREAD, ..)`, `none` for an error, `recv`, and `malloc` with
-- what its memory holds
pub record Socket : Type 1 where
  pub Dev : Type 0
  pub fionread : Dev → Option ℕ × Dev
  pub recv : ℕ → Dev → Recv × Dev
  pub malloc : ℕ → Dev → Option (List ℕ)

-- Their documented behaviour, with the bytes that were received.
pub record SocketLaws (socket : Socket) : Type 0 where
  pub taken : socket.Dev → List ℕ
  pub taken-fionread : (d : socket.Dev) → taken (socket.fionread d).1 ≡ taken d
  pub taken-recv :
      (n : ℕ) (d : socket.Dev) → taken (socket.recv n d).1 ≡ taken d ++ bytes_of (socket.recv n d).0
  pub recv_most : (n : ℕ) (d : socket.Dev) → length (bytes_of (socket.recv n d).0) ≤ n
  pub malloc_length :
      (n : ℕ) (d : socket.Dev) (b : List ℕ) → socket.malloc n d ≡ some b → length b ≡ n

pub record RxBuffer (socket : Socket) : Type 0 where
  pub size : ℕ
  pub buffer : Option (List ℕ)
  pub position : ℕ
  pub fill : ℕ
  pub fd : ℤ
  pub failed : Bool
  pub dev : socket.Dev

abbrev pub front_of : List ℕ → Option ℕ
front_of [] = none
front_of (c ∷ _) = some c

module _ {socket : Socket} where
  open socket use {Dev, fionread, recv, malloc}

  -- `WiFiClientRxBuffer(fd, size)`
  abbrev pub new_rx_buffer : ℤ → ℕ → Dev → RxBuffer socket
  new_rx_buffer fd size d = record {
    size = size;
    buffer = none;
    position = 0;
    fill = 0;
    fd = fd;
    failed = false;
    dev = d;
  }

  -- the bytes of the buffer
  abbrev pub memory : RxBuffer socket → List ℕ
  memory s = elim s.buffer [ none ↦ [] | some b ↦ b ]

  abbrev pub counted : RxBuffer socket → Option ℕ × Dev → ℕ × RxBuffer socket
  counted s (none, d) = (0, record s { failed = true; dev = d })
  counted s (some n, d) = (n, record s { dev = d })

  abbrev pub r_available_of : ℤ → RxBuffer socket → ℕ × RxBuffer socket
  r_available_of (negsuc _) s = (0, s)
  r_available_of (pos _) s = counted s (fionread s.dev)

  unfoldable pub r_available : RxBuffer socket → ℕ × RxBuffer socket
  r_available s = r_available_of s.fd s

  -- after `recv`
  unfoldable pub filled_by : List ℕ → RxBuffer socket → Recv × Dev → ℕ × RxBuffer socket
  filled_by b s (Recv.got x, d) =
      (length x, record s { buffer = some (memcpy b s.fill x); fill = s.fill + length x; dev = d })
  filled_by b s (Recv.would_block, d) = (0, record s { dev = d })
  filled_by b s (Recv.recv_error, d) = (0, record s { failed = true; dev = d })

  -- an empty buffer starts again
  abbrev pub rewound : RxBuffer socket → RxBuffer socket
  rewound s =
      if not (s.fill == 0) && (s.position == s.fill) then record s { position = 0; fill = 0 } else s

  -- with its memory `b`
  unfoldable pub receive_into : List ℕ → RxBuffer socket → ℕ × RxBuffer socket
  receive_into b s =
      let (n, s1) = r_available s in
      let after = filled_by b s1 (recv (s1.size - s1.fill) s1.dev) in
      if leb s.size s.fill then (0, s) else if n == 0 then (0, s1) else after

  abbrev pub allocated : RxBuffer socket → Option (List ℕ) → ℕ × RxBuffer socket
  allocated s none = (0, record s { failed = true })
  allocated s (some b) = receive_into b (rewound (record s { buffer = some b }))

  abbrev pub fill_of : Option (List ℕ) → RxBuffer socket → ℕ × RxBuffer socket
  fill_of none s = allocated s (malloc s.size s.dev)
  fill_of (some b) s = receive_into b (rewound s)

  unfoldable pub fill_buffer : RxBuffer socket → ℕ × RxBuffer socket
  fill_buffer s = fill_of s.buffer s

  -- the copy of `n` bytes to `dst`
  abbrev pub copy_front : ℕ → RxBuffer socket → List ℕ × RxBuffer socket
  copy_front n s = (take n (drop s.position (memory s)), record s { position = s.position + n })

  -- `(a > left) ? left : a`
  abbrev pub to_copy : RxBuffer socket → ℕ → ℕ
  to_copy s left = let a = s.fill - s.position in if ltb left a then left else a

  abbrev pub with_copied : List ℕ → ℕ × List ℕ × RxBuffer socket → ℕ × List ℕ × RxBuffer socket
  with_copied x (left, y, s) = (left, x ++ y, s)

  -- the loop of `read`, on fuel: what is left to read, the bytes written
  unfoldable pub read_loop : ℕ → ℕ → RxBuffer socket → Option (ℕ × List ℕ × RxBuffer socket)
  read_loop zero left s = none
  read_loop (suc fuel) left s =
      let (n, s1) = fill_buffer s in
      let (x, s2) = copy_front (to_copy s1 left) s1 in
      let next = read_loop fuel (left - to_copy s1 left) s2 in
      if left == 0
      then some (0, [], s)
      else if n == 0
      then some (left, [], s1)
      else next >>= λ r. some (with_copied x r)

  -- the copy of what the buffer holds, and the loop
  abbrev pub read_slowly : ℕ → ℕ → ℕ → RxBuffer socket → Option (ℤ × List ℕ × RxBuffer socket)
  read_slowly fuel len a s =
      let (x, s1) = copy_front a s in
      read_loop fuel (len - a) s1 >>= λ r. some (pos (len - r.0), x ++ r.1, r.2)

  abbrev pub read_at_once : ℕ → RxBuffer socket → Option (ℤ × List ℕ × RxBuffer socket)
  read_at_once len s = let (x, s1) = copy_front len s in some (pos len, x, s1)

  -- once there are bytes in the buffer
  unfoldable pub read_filled : ℕ → ℕ → RxBuffer socket → Option (ℤ × List ℕ × RxBuffer socket)
  read_filled fuel len s =
      let a = s.fill - s.position in
      let (n, s1) = fill_buffer s in
      let now = read_at_once len s in
      let then_ = if leb (len - a) n then read_at_once len s1 else read_slowly fuel len a s1 in
      let slow = read_slowly fuel len a s in
      if leb len a then now else if leb (len - a) (s.size - s.fill) then then_ else slow

  abbrev pub none_read : RxBuffer socket → Option (ℤ × List ℕ × RxBuffer socket)
  none_read s = some (if s.failed then negsuc 0 else pos 0, [], s)

  -- `read(dst, len)`; `has_dst` where `dst` is not null
  unfoldable pub read : ℕ → Bool → ℕ → RxBuffer socket → Option (ℤ × List ℕ × RxBuffer socket)
  read fuel has_dst len s =
      let (n, s1) = fill_buffer s in
      let filled = if n == 0 then none_read s1 else read_filled fuel len s1 in
      let ready = read_filled fuel len s in
      if not has_dst || (len == 0)
      then none_read s
      else if s.position == s.fill
      then filled
      else ready

  -- `_buffer[_pos]`
  abbrev pub at_position : RxBuffer socket → Option ℕ
  at_position s = front_of (drop s.position (memory s))

  unfoldable pub peek : RxBuffer socket → Option ℕ × RxBuffer socket
  peek s =
      let (n, s1) = fill_buffer s in
      if s.position == s.fill
      then if n == 0 then (none, s1) else (at_position s1, s1)
      else (at_position s, s)

  unfoldable pub available : RxBuffer socket → ℕ × RxBuffer socket
  available s = let (n, s1) = r_available s in (s.fill - s.position + n, s1)
