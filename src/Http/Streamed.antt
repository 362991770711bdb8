-- ===== src/Http/Streamed.antt =====
-- `HTTPClient::writeToStream` counts what the stream has taken in its blocks and chunks.
use jedge.Base.{
  ℕ, zero, suc, ◌+◌, ◌≤◌, ◌<◌, ◌≡◌, ◌==◌, if◌then◌else◌, if_both, Bool, true, not, List, [], ◌++◌,
  length, length-append, Option, some, ◌>>=◌, ℤ, pos, negsuc, arith, refl, sym, ap, ◌∙◌, inl, inr,
  Bool-cases,
}
use mathlib.Core.Path.{subst}
use mathlib.Core.List.{append_assoc, append-nil}
use jedge.Http.Net.{Net, NetLaws, Closes}
use jedge.Http.Block.{is_connected, write_to_stream_data_block}
use jedge.Http.Transfer.{IsSize, IsResult, write_to_stream_data_block-Passed}
use jedge.Http.Chunks.{
  chunk_len, none_given, is_count, plus_int, is_line_end, return_error, last_chunk, after_block,
  with_len, chunk_loop, read_timeout,
}
use jedge.Http.Polls.{Within, block-Within}

-- What a result says of the bytes `y` that the stream has taken after `n` others.
abbrev pub Counts : ℕ → ℤ → ℤ → List ℕ → Type 0
Counts n given (negsuc _) y = Unit
Counts n given (pos m) y = (m ≡ n + length y) × IsSize given m

block-Counts :
    (size r : ℤ) (ok : Bool) (m : ℕ) (y : List ℕ)
    → m ≡ length y
    → IsResult size r ok m
    → Counts 0 size r y
block-Counts size (negsuc k) ok m y l c = tt
block-Counts size (pos k) ok m y l (good, e, s) = (omega arith, s)

Counts-after :
    (n k : ℕ) (given r : ℤ) (x y : List ℕ)
    → k ≡ n + length x
    → Counts k given r y
    → Counts n given r (x ++ y)
Counts-after n k given (negsuc j) x y h c = tt
Counts-after n k given (pos m) x y h (e, s) = (omega (arith, length-append x y), s)

last_chunk-IsSize :
    (n : ℕ) (given size : ℤ)
    → is_count n (if none_given given then size else given) ≡ true
    → IsSize given n
last_chunk-IsSize n (pos zero) size h = tt
last_chunk-IsSize n (pos (suc s)) size h = ground arith
last_chunk-IsSize n (negsuc _) size h = tt

module _ {net : Net} (laws : NetLaws net) (closes : Closes net) where
  open net use {Dev}
  open laws use {written}
  open closes use {polls}

  -- An outcome, with the bytes that the stream has taken.
  abbrev pub Ends : ℕ → ℤ → Dev → Option (ℤ × Dev) → Type 0
  Ends n given d o =
      (r : ℤ) × (d' : Dev) × (y : List ℕ) × (o ≡ some (r, d'))
      × (written d' ≡ written d ++ y)
      × Counts n given r y
      × (polls d' ≤ polls d)

  -- An outcome from where the stream has taken `x`.
  pub Ends-after :
      (n k : ℕ) (given : ℤ) (d d1 : Dev) (x : List ℕ) (o : Option (ℤ × Dev))
      → k ≡ n + length x
      → written d1 ≡ written d ++ x
      → polls d1 ≤ polls d
      → Ends k given d1 o
      → Ends n given d o
  Ends-after n k given d d1 x o h w p (r, d', y, e, w', c, p') = (
    r,
    d',
    x ++ y,
    e,
    w' ∙ ap (λ q. q ++ y) w ∙ append_assoc (written d) x y,
    Counts-after n k given r x y h c,
    omega arith,
  )

  pub return_error-Ends :
      (n k : ℕ) (given : ℤ) (d : Dev) → Ends n given d (some (return_error net (negsuc k) d))
  return_error-Ends n k given d = elim (Bool-cases (is_connected net d)) [
    | inl open_yet ↦ rw open_yet (
      negsuc k,
      net.stop d,
      [],
      refl,
      laws.written-stop d ∙ sym (append-nil (written d)),
      tt,
      closes.polls-stop d,
    )
    | inr closed ↦ rw closed (negsuc k, d, [], refl, sym (append-nil (written d)), tt, omega arith)
  ]

  pub block-Ends :
      (fuel : ℕ) (size : ℤ) (d : Dev)
      → polls d < fuel
      → Ends 0 size d (write_to_stream_data_block net fuel size d)
  unfolding Within
  block-Ends fuel size d h =
      let (r, d', ok, m, e, p, c) = write_to_stream_data_block-Passed laws closes fuel size d h in
      (
        r,
        d',
        p.passed,
        e,
        p.written_is,
        block-Counts size r ok m p.passed p.counted c,
        subst (λ o. Within closes d o) e (block-Within closes fuel size d),
      )

  last_chunk-Ends :
      (given size : ℤ) (n : ℕ) (d : Dev) → Ends n given d (some (last_chunk net given size n d))
  unfolding last_chunk
  last_chunk-Ends given size n d =
      elim (Bool-cases (is_count n (if none_given given then size else given))) [
        | inl all ↦ rw all (
          pos n,
          d,
          [],
          refl,
          sym (append-nil (written d)),
          (omega arith, last_chunk-IsSize n given size all),
          omega arith,
        )
        | inr less ↦ rw less (return_error-Ends n 9 given d)
      ]

  module _ (fuel : ℕ) (given : ℤ) where
    -- what is said of the chunks that follow
    abbrev Later : (ℕ → Dev → Option (ℤ × Dev)) → Type 0
    Later later = (n : ℕ) (d : Dev) → polls d < fuel → Ends n given d (later n d)

    after_block-Ends :
        (later : ℕ → Dev → Option (ℤ × Dev)) (n : ℕ) (size r : ℤ) (d d1 : Dev) (y : List ℕ)
        → Later later
        → polls d < fuel
        → written d1 ≡ written d ++ y
        → Counts 0 size r y
        → polls d1 ≤ polls d
        → Ends n given d (after_block net later n (r, d1))
    after_block-Ends later n size (negsuc k) d d1 y l h w c p =
        Ends-after n (n + length y) given d d1 y (some (return_error net (negsuc k) d1)) refl w p
          (return_error-Ends (n + length y) k given d1)
    after_block-Ends later n size (pos k) d d1 y l h w (e, s) p =
        let (ending, d2) = net.read_bytes 2 d1 in
        let read = closes.polls-read_most 2 d1 in
        let waited = closes.polls_later d2 in
        let sum : n + k ≡ n + length y = omega arith in
        let w2 = laws.written-read_bytes 2 d1 ∙ w in
        if_both (Ends n given d) (is_line_end ending)
          (Ends-after n (n + k) given d (net.delay d2) y (later (n + k) (net.delay d2)) sum
            (laws.written-delay d2 ∙ w2) (omega arith) (l (n + k) (net.delay d2) (omega arith)))
          (Ends-after n (n + k) given d d2 y (some (return_error net read_timeout d2)) sum w2
            (omega arith) (return_error-Ends (n + k) 10 given d2))

    with_len-Ends :
        (later : ℕ → ℕ → Dev → Option (ℤ × Dev)) (size n : ℕ) (len : ℤ) (d : Dev)
        → ((size : ℕ) → Later (later size))
        → polls d < fuel
        → Ends n given d (with_len net (suc fuel) later given size n len d)
    with_len-Ends later size n (pos (suc m)) d l h =
        let (r, d1, y, e, w, c, p) = block-Ends (suc fuel) (pos (suc m)) d (omega arith) in
        subst (λ o. Ends n given d (o >>= after_block net (later (size + suc m)) n)) (sym e)
          (after_block-Ends (later (size + suc m)) n (pos (suc m)) r d d1 y (l (size + suc m)) h w c
            p)
    with_len-Ends later size n (pos zero) d l h =
        last_chunk-Ends given (plus_int size (pos zero)) n d
    with_len-Ends later size n (negsuc k) d l h =
        last_chunk-Ends given (plus_int size (negsuc k)) n d

  pub chunk_loop-Ends :
      (fuel : ℕ) (given : ℤ) (size n : ℕ) (d : Dev)
      → polls d < fuel
      → Ends n given d (chunk_loop net fuel given size n d)
  unfolding chunk_loop
  chunk_loop-Ends zero given size n d h = absurd (omega arith)
  chunk_loop-Ends (suc fuel) given size n d h =
      let (header, d1) = net.read_line d in
      let w = laws.written-read_line d ∙ sym (append-nil (written d)) in
      let p = closes.polls-read_line_most d in
      let next =
        with_len net (suc fuel) (chunk_loop net fuel given) given size n (chunk_len header) d1 in
      if_both (Ends n given d) (not (is_connected net d)) (return_error-Ends n 4 given d)
        (elim (Bool-cases (length header == 0)) [
          | inl empty ↦ rw empty (
              Ends-after n n given d d1 [] (some (return_error net read_timeout d1)) (omega arith) w
                p (return_error-Ends n 10 given d1))
          | inr full ↦
              let fewer = closes.polls-read_line d (ground arith) in
              rw full (
                Ends-after n n given d d1 [] next (omega arith) w p (
                  with_len-Ends fuel given (chunk_loop net fuel given) size n (chunk_len header) d1
                    (λ size n d h. chunk_loop-Ends fuel given size n d h) (omega arith)))
        ])
