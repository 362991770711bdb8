-- ===== src/Http/Tests.antt =====
-- A server that has sent five bytes and closed the connection, and a stream that takes what it is given.
use jedge.Base.{
  ◌+◌, ◌≤◌, ◌<◌, ◌==◌, if◌then◌else◌, ℕ, ◌≡◌, Bool, true, false, List, [], ◌∷◌, ◌++◌, length, take,
  drop, replicate, length-take, length-drop, length-replicate, take_all, some, ℤ, pos, arith, refl,
  sym, ap, some_inj,
}
use mathlib.Core.Path.{subst}
use jedge.Http.Net.{Net, NetLaws, Closes}
use jedge.Http.Chunks.{Encoding, chunk_len, hex_value, skip_space, write_to_stream}
use jedge.Http.Ended.{write_to_stream-Ends}
use jedge.Http.Streamed.{Ends}
use jedge.Http.Block.{write_to_stream_data_block}
use jedge.Http.Passed.{Passed}
use jedge.Http.Transfer.{IsResult, write_to_stream_data_block-Passed}

record Wire : Type 0 where
  inbox : List ℕ
  taken : List ℕ
  written : List ℕ

-- the bytes before the next line feed, and those behind it
line_of : List ℕ → List ℕ × List ℕ
line_of [] = ([], [])
line_of (b ∷ x) = let (l, rest) = line_of x in if b == 10 then ([], x) else (b ∷ l, rest)

abbrev read_line_of : Wire → List ℕ × Wire
read_line_of d = ((line_of d.inbox).0, record d { inbox = (line_of d.inbox).1 })

read_line_written : (d : Wire) → (read_line_of d).1.written ≡ d.written
read_line_written d = refl

line_of_shorter : (x : List ℕ) → length (line_of x).0 + length (line_of x).1 ≤ length x
unfolding line_of
line_of_shorter [] = omega arith
line_of_shorter (b ∷ x) = let h = line_of_shorter x in ground arith

read_line_polls :
    (d : Wire) → 0 < length (read_line_of d).0 → length (read_line_of d).1.inbox < length d.inbox
read_line_polls d h = omega (arith, line_of_shorter d.inbox)

abbrev test_net : Net
test_net = record {
  Dev = Wire;
  connected = λ _. false;
  available = λ d. length d.inbox;
  read_bytes = λ n d.
      (take n d.inbox, record d { inbox = drop n d.inbox; taken = d.taken ++ take n d.inbox });
  read_byte = λ d. record d { inbox = drop 1 d.inbox };
  read_line = read_line_of;
  stop = λ d. d;
  write = λ x d. (length x, record d { written = d.written ++ x });
  write_error = λ _. 0;
  clear_write_error = λ d. d;
  delay = λ d. d;
  malloc = λ n _. some (replicate n 0);
}

test_laws : NetLaws test_net
test_laws = record {
  taken = λ d. d.taken;
  written = λ d. d.written;
  read_full = λ n d h. omega (arith, length-take n d.inbox);
  taken-read_bytes = λ n d. refl;
  written-read_bytes = λ n d. refl;
  write_most = λ x d. omega arith;
  written-write = λ x d. ap (λ y. d.written ++ y) (sym (take_all (length x) x (omega arith)));
  taken-write = λ x d. refl;
  taken-clear_write_error = λ d. refl;
  written-clear_write_error = λ d. refl;
  taken-delay = λ d. refl;
  written-delay = λ d. refl;
  written-read_byte = λ d. refl;
  written-read_line = read_line_written;
  written-stop = λ d. refl;
  malloc_length = λ n d b e. subst (λ x. length x ≡ n) (some_inj e) (length-replicate n 0);
}

test_closes : Closes test_net
test_closes = record {
  polls = λ d. length d.inbox;
  polls-delay = λ d c e. absurd cc;
  polls-read_bytes = λ n d h k. omega (arith, length-drop n d.inbox);
  polls-write = λ x d. omega arith;
  polls-clear_write_error = λ d. omega arith;
  polls_later = λ d. omega arith;
  polls-read_byte = λ d h. omega (arith, length-drop 1 d.inbox);
  polls-read_line = read_line_polls;
  polls-read_line_most = λ d. omega (arith, line_of_shorter d.inbox);
  polls-stop = λ d. omega arith;
  polls-read_most = λ n d. omega (arith, length-drop n d.inbox);
}

abbrev sent_five : Wire
sent_five = record { inbox = 1 ∷ 2 ∷ 3 ∷ 4 ∷ 5 ∷ []; taken = []; written = [] }

write_to_stream_data_block-Passed_example :
    (result : ℤ) × (d : Wire) × (ok : Bool) × (m : ℕ) × (write_to_stream_data_block test_net 6
        (pos 5)
        sent_five
      ≡ some (result, d))
    × Passed test_laws ok m sent_five d
    × IsResult (pos 5) result ok m
unfolding test_closes
write_to_stream_data_block-Passed_example =
    write_to_stream_data_block-Passed test_laws test_closes 6 (pos 5) sent_five (omega arith)

-- a body of three bytes in one chunk, and the last chunk
abbrev sent_chunk : Wire
sent_chunk = record {
  inbox = 51 ∷ 13 ∷ 10 ∷ 1 ∷ 2 ∷ 3 ∷ 13 ∷ 10 ∷ 48 ∷ 13 ∷ 10 ∷ 13 ∷ 10 ∷ [];
  taken = [];
  written = [];
}

chunk_len_test : chunk_len (32 ∷ 48 ∷ 120 ∷ 49 ∷ 70 ∷ 13 ∷ []) ≡ pos 31
unfolding chunk_len skip_space hex_value
chunk_len_test = refl

write_to_stream-Ends_example :
    Ends test_laws test_closes 0
      (pos 3)
      sent_chunk
      (write_to_stream test_net 14 true Encoding.chunked (pos 3) false sent_chunk)
unfolding test_closes
write_to_stream-Ends_example =
    write_to_stream-Ends test_laws test_closes 14 true Encoding.chunked (pos 3) false sent_chunk
      (omega arith)
