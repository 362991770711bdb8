-- ===== src/Http/Transfer.antt =====
-- The calls of `writeToStreamDataBlock` end, and what they pass on.
use jedge.Base.{
  ℕ, ◌≤◌, ◌<◌, ◌≡◌, arith, refl, ap, ◌∙◌, inl, inr, Bool-cases, take-append_all, zero, suc, ◌+◌,
  ◌==◌, ltb, Bool, true, false, not, ◌&&◌, List, length, drop, memcpy, Option, none, some, ◌>>=◌, ℤ,
  pos, negsuc,
}
use jedge.Http.Net.{Net, NetLaws, Closes}
use mathlib.Core.Path.{subst}
use jedge.Http.Block.{
  too_less_ram, buff_size, wants, to_read, shrink, is_connected, pass_on, block_loop, finish_block,
  block_with, write_to_stream_data_block,
}
use jedge.Http.Copied.{Sent, pass_on-Sent}
use jedge.Http.Passed.{Passed, nothing, waited, failed, followed, pass_on-polls}

to_read_most :
    (len : ℤ) (room available : ℕ)
    → (to_read len room available ≤ room) × (to_read len room available ≤ available)
unfolding to_read
to_read_most (pos n) room available = ground arith
to_read_most (negsuc n) room available = ground arith

-- A count is all of the size, where there is one.
abbrev pub IsSize : ℤ → ℕ → Type 0
IsSize (pos (suc s)) n = n ≡ suc s
IsSize (pos zero) n = Unit
IsSize (negsuc _) n = Unit

-- A result that is not an error counts the bytes passed on, which are all that were read.
abbrev pub IsResult : ℤ → ℤ → Bool → ℕ → Type 0
IsResult size (negsuc _) ok m = Unit
IsResult size (pos n) ok m = (ok ≡ true) × (m ≡ n) × IsSize size n

pub finish_block-IsResult :
    (net : Net) (size : ℤ) (ok : Bool) (m : ℕ) (d : net.Dev)
    → IsResult size (finish_block net size (ok, m, d)).0 ok m
      × ((finish_block net size (ok, m, d)).1 ≡ d)
unfolding finish_block
finish_block-IsResult net size false m d = (tt, refl)
finish_block-IsResult net (negsuc k) true m d = ((refl, refl, tt), refl)
finish_block-IsResult net (pos zero) true m d = ((refl, refl, tt), refl)
finish_block-IsResult net (pos (suc s)) true m d =
    let positive : ltb 0 (suc s) ≡ true = ground arith in
    elim (Bool-cases (suc s == m)) [
      | inl same ↦ rw (positive, same) ((refl, refl, ground arith), refl)
      | inr other ↦ rw (positive, other) (tt, refl)
    ]

module _ {net : Net} (laws : NetLaws net) where
  open net use {Dev}
  open laws use {taken, written}

  -- what the loop comes to
  abbrev pub Outcome : ℕ → Dev → Option (Bool × ℕ × Dev) → Type 0
  Outcome n d r =
      (ok : Bool) × (m : ℕ) × (d' : Dev) × (r ≡ some (ok, n + m, d')) × Passed laws ok m d d'

  module _ (closes : Closes net) where
    open closes use {polls}

    block_loop-Passed :
        (fuel : ℕ) (len : ℤ) (buff : List ℕ) (n : ℕ) (d : Dev)
        → polls d < fuel
        → Outcome n d (block_loop net fuel len buff n d)
    unfolding block_loop
    block_loop-Passed zero len buff n d h = absurd (omega arith)
    block_loop-Passed (suc fuel) len buff n d h =
        let asked = to_read len (length buff) (net.available d) in
        let (got, d1) = net.read_bytes asked d in
        let buff1 = memcpy buff 0 got in
        let r = pass_on net asked buff1 got d1 in
        let ended : Outcome n d (some (true, n, d)) =
          (true, 0, d, ap (λ k. some (true, k, d)) (omega arith), nothing laws d) in
        elim (Bool-cases (not (is_connected net d && wants len))) [
          | inl over ↦ rw over ended
          | inr going ↦ elim (Bool-cases (net.available d == 0)) [
            | inl empty ↦
                let polled = closes.polls-delay d (ground arith) (ground arith) in
                let (ok, m, d', e, p) =
                  block_loop-Passed fuel len buff n (net.delay d) (omega arith) in
                (ok, m, d', rw (going, empty) e, waited laws ok m d d' p)
            | inr some_there ↦ elim (Bool-cases (asked == 0)) [
              | inl stuck ↦ rw (going, some_there, stuck) ended
              | inr asks ↦
                  let (in_room, there) = to_read_most len (length buff) (net.available d) in
                  let full : length got ≡ asked = laws.read_full asked d there in
                  let sent : Sent laws got d1 r =
                    subst (λ k. Sent laws got d1 (pass_on net k buff1 got d1)) full
                      (pass_on-Sent laws got buff1 d1
                        (take-append_all got (drop (0 + length got) buff) (length got) refl)) in
                  let fewer = closes.polls-read_bytes asked d (ground arith) there in
                  let after = pass_on-polls closes asked buff1 got d1 in
                  let later = closes.polls_later r.2 in
                  elim (Bool-cases r.0) [
                    | inl good ↦
                        let (ok, m, d', e, p) =
                          block_loop-Passed fuel (shrink len asked) buff1 (n + r.1) (net.delay r.2)
                            (omega arith) in
                        (
                          ok,
                          r.1 + m,
                          d',
                          rw (going, some_there, asks, good)
                              (e ∙ ap (λ k. some (ok, k, d')) (omega arith)),
                          followed laws asked m ok d d' r good sent p,
                        )
                    | inr bad ↦ (
                      false,
                      r.1,
                      r.2,
                      rw (going, some_there, asks, bad) refl,
                      failed laws asked d r bad sent,
                    )
                  ]
            ]
          ]
        ]

    -- Where bytes that are available are read at once, a write takes a first part of its bytes,
    -- and the server sends and waits only so often before it closes the connection: the call of
    -- writeToStreamDataBlock ends, and what the stream has taken is a first part of what was
    -- read. A result that is not an error is the number of the bytes read, all of which the
    -- stream has taken, in order; and for a size above 0 it is that size.
    pub write_to_stream_data_block-Passed :
        (fuel : ℕ) (size : ℤ) (d : Dev)
        → polls d < fuel
        → (result : ℤ) × (d' : Dev) × (ok : Bool) × (m : ℕ) × (write_to_stream_data_block net fuel
              size d
            ≡ some (result, d'))
          × Passed laws ok m d d'
          × IsResult size result ok m
    unfolding write_to_stream_data_block
    write_to_stream_data_block-Passed fuel size d h = go (net.malloc (buff_size size) d)
      where
        go :
            (b : Option (List ℕ))
            → (result : ℤ) × (d' : Dev) × (ok : Bool) × (m : ℕ) × (block_with net fuel size b d
                ≡ some (result, d'))
              × Passed laws ok m d d'
              × IsResult size result ok m
        go none = (too_less_ram, d, true, 0, refl, nothing laws d, tt)
        go (some buff) =
            let (ok, m, d', e, p) = block_loop-Passed fuel size buff 0 d h in
            let (result, dev) = finish_block-IsResult net size ok m d' in
            let e' : block_loop net fuel size buff 0 d ≡ some (ok, m, d') =
              e ∙ ap (λ k. some (ok, k, d')) (omega arith) in
            (
              (finish_block net size (ok, m, d')).0,
              d',
              ok,
              m,
              ap (λ r. r >>= λ r. some (finish_block net size r)) e'
                  ∙ ap (λ q. some ((finish_block net size (ok, m, d')).0, q)) dev,
              p,
              result,
            )
