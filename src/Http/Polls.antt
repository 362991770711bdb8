-- ===== src/Http/Polls.antt =====
-- The polls that a call of `writeToStreamDataBlock` leaves.
use jedge.Base.{
  memcpy, ℕ, zero, suc, ◌+◌, ◌≤◌, ◌==◌, if_both, Bool, true, not, ◌&&◌, List, length, Option, none,
  some, ◌>>=◌, ℤ, arith, sym,
}
use mathlib.Core.Path.{subst}
use jedge.Http.Net.{Net, Closes}
use jedge.Http.Block.{
  is_connected, buff_size, to_read, shrink, wants, pass_on, block_loop, finish_block, block_with,
  write_to_stream_data_block,
}
use jedge.Http.Passed.{pass_on-polls}
use jedge.Http.Transfer.{finish_block-IsResult}

module _ {net : Net} (closes : Closes net) where
  open net use {Dev}
  open closes use {polls}

  AtMost : Dev → Option (Bool × ℕ × Dev) → Type 0
  AtMost d none = Unit
  AtMost d (some r) = polls r.2 ≤ polls d

  AtMost-more :
      (d d' : Dev) (o : Option (Bool × ℕ × Dev)) → polls d ≤ polls d' → AtMost d o → AtMost d' o
  unfolding AtMost
  AtMost-more d d' none h a = tt
  AtMost-more d d' (some r) h a = omega arith

  block_loop-AtMost :
      (fuel : ℕ) (len : ℤ) (buff : List ℕ) (n : ℕ) (d : Dev)
      → AtMost d (block_loop net fuel len buff n d)
  unfolding block_loop AtMost
  block_loop-AtMost zero len buff n d = tt
  block_loop-AtMost (suc fuel) len buff n d =
      let asked = to_read len (length buff) (net.available d) in
      let (got, d1) = net.read_bytes asked d in
      let buff1 = memcpy buff 0 got in
      let r = pass_on net asked buff1 got d1 in
      let read = closes.polls-read_most asked d in
      let passed = pass_on-polls closes asked buff1 got d1 in
      let later = closes.polls_later r.2 in
      let here : AtMost d (some (true, n, d)) = omega arith in
      if_both (AtMost d) (not (is_connected net d && wants len)) here (
        if_both (AtMost d) (net.available d == 0)
          (AtMost-more (net.delay d) d (block_loop net fuel len buff n (net.delay d))
            (closes.polls_later d) (block_loop-AtMost fuel len buff n (net.delay d)))
          (if_both (AtMost d) (asked == 0) here (
            if_both (AtMost d) r.0
              (AtMost-more (net.delay r.2) d
                (block_loop net fuel (shrink len asked) buff1 (n + r.1) (net.delay r.2))
                (omega arith)
                (block_loop-AtMost fuel (shrink len asked) buff1 (n + r.1) (net.delay r.2)))
              (omega arith))))

  -- The same of a result.
  unfoldable pub Within : Dev → Option (ℤ × Dev) → Type 0
  Within d none = Unit
  Within d (some r) = polls r.1 ≤ polls d

  finished-Within :
      (size : ℤ) (d : Dev) (o : Option (Bool × ℕ × Dev))
      → AtMost d o
      → Within d (o >>= λ r. some (finish_block net size r))
  unfolding AtMost Within
  finished-Within size d none h = tt
  finished-Within size d (some (ok, m, d')) h =
      subst (λ q. polls q ≤ polls d) (sym (finish_block-IsResult net size ok m d').1) h

  pub block-Within :
      (fuel : ℕ) (size : ℤ) (d : Dev) → Within d (write_to_stream_data_block net fuel size d)
  unfolding write_to_stream_data_block Within
  block-Within fuel size d = go (net.malloc (buff_size size) d)
    where
      go : (b : Option (List ℕ)) → Within d (block_with net fuel size b d)
      go none = omega arith
      go (some buff) =
          finished-Within size d (block_loop net fuel size buff 0 d)
            (block_loop-AtMost fuel size buff 0 d)
