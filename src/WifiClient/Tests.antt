-- ===== src/WifiClient/Tests.antt =====
-- A socket whose bytes have all come, and one that fails.
use jedge.Base.{
  ◌≡◌, ◌≤◌, ◌++◌, ℕ, if◌then◌else◌, Bool, true, false, List, [], ◌∷◌, length, take, drop, replicate,
  none, some, some_inj, pos, negsuc, arith, refl, sym, length-take, length-replicate,
}
use mathlib.Core.Path.{subst}
use mathlib.Core.List.{append-nil}
use jedge.WifiClient.RxBuffer.{
  Recv, bytes_of, Socket, SocketLaws, RxBuffer, new_rx_buffer, r_available, receive_into,
  fill_buffer, read, peek,
}
use jedge.WifiClient.Reads.{Reads, at_least, read-Reads}
use jedge.WifiClient.Peeks.{Peeks, peek-Peeks}
use jedge.WifiClient.Client.{Call, Client, client_read, flush_buffer_size, flush}
use jedge.WifiClient.Faults.{IsNull, client_read-IsNull, client_at, flush-endless}

record Wire : Type 0 where
  incoming : List ℕ
  received : List ℕ
  broken : Bool

abbrev recv_of : ℕ → List ℕ → Wire → Recv × Wire
recv_of n [] d = (Recv.got [], d)
recv_of n (c ∷ x) d = (
  Recv.got (take n (c ∷ x)),
  record d { incoming = drop n (c ∷ x); received = d.received ++ take n (c ∷ x) },
)

abbrev test_socket : Socket
test_socket = record {
  Dev = Wire;
  fionread = λ d. (if d.broken then none else some (length d.incoming), d);
  recv = λ n d. recv_of n d.incoming d;
  malloc = λ n _. some (replicate n 0);
}

recv_of-received :
    (n : ℕ) (x : List ℕ) (d : Wire)
    → (recv_of n x d).1.received ≡ d.received ++ bytes_of (recv_of n x d).0
recv_of-received n [] d = sym (append-nil d.received)
recv_of-received n (c ∷ x) d = refl

recv_of-most : (n : ℕ) (x : List ℕ) (d : Wire) → length (bytes_of (recv_of n x d).0) ≤ n
recv_of-most n [] d = omega arith
recv_of-most n (c ∷ x) d = omega (arith, length-take n (c ∷ x))

test_laws : SocketLaws test_socket
test_laws = record {
  taken = λ d. d.received;
  taken-fionread = λ d. refl;
  taken-recv = λ n d. recv_of-received n d.incoming d;
  recv_most = λ n d. recv_of-most n d.incoming d;
  malloc_length = λ n d b e. subst (λ x. length x ≡ n) (some_inj e) (length-replicate n 0);
}

abbrev six_bytes : Wire
six_bytes = record { incoming = 1 ∷ 2 ∷ 3 ∷ 4 ∷ 5 ∷ 6 ∷ []; received = []; broken = false }

abbrev out_of_order : Wire
out_of_order = record { incoming = []; received = []; broken = true }

abbrev closed : Wire
closed = record { incoming = []; received = 1 ∷ 2 ∷ []; broken = false }

abbrev small_buffer : RxBuffer test_socket
small_buffer = new_rx_buffer (pos 3) 4 six_bytes

abbrev broken_buffer : RxBuffer test_socket
broken_buffer = new_rx_buffer (pos 3) 4 out_of_order

read-Reads_example :
    Reads test_laws
      (at_least test_laws true 5 small_buffer)
      5
      small_buffer
      (read 6 true 5 small_buffer)
read-Reads_example =
    read-Reads test_laws 6 true 5 small_buffer (omega arith, omega arith, tt) (omega arith)

peek-Peeks_example : Peeks test_laws small_buffer (peek small_buffer)
peek-Peeks_example = peek-Peeks test_laws small_buffer (omega arith, omega arith, tt)

-- a read from the broken socket
broken_read :
    read 2 true 1 broken_buffer
    ≡ some (negsuc 0, [], record broken_buffer { buffer = some (replicate 4 0); failed = true })
unfolding read fill_buffer receive_into r_available
broken_read = refl

client_read-IsNull_example :
    (c : Client test_socket) × (client_read 2 true 1
        (record { rx = some broken_buffer; is_up = true })
      ≡ Call.returns (some (negsuc 0, [], c)))
    × IsNull c
client_read-IsNull_example =
    client_read-IsNull 2 true 1 broken_buffer true (negsuc 0) []
      (record broken_buffer { buffer = some (replicate 4 0); failed = true }) broken_read refl

flush-endless_example :
    flush 100 (client_at test_socket 4 (1 ∷ 2 ∷ 0 ∷ 0 ∷ []) 1 2 3 closed true) ≡ none
flush-endless_example =
    flush-endless test_socket 100 3 4 1 2 (1 ∷ 2 ∷ 0 ∷ 0 ∷ []) (replicate flush_buffer_size 0)
      closed true (omega arith) (refl, λ n. refl) refl
