-- ===== src/WifiClient/Reads.antt =====
-- `read` gives the bytes that were received, in order.
use jedge.Base.{
  ◌≡◌, ◌≤◌, ◌<◌, ℕ, ◌-◌, ◌==◌, leb, min, if◌then◌else◌, if_both, Bool, true, false, not, ◌||◌, List,
  [], ◌++◌, length, Option, some, ◌>>=◌, ℤ, pos, negsuc, arith, refl, sym, ap, length-append,
  Bool-cases, inl, inr,
}
use mathlib.Core.Path.{subst}
use jedge.WifiClient.RxBuffer.{
  Socket, SocketLaws, RxBuffer, fill_buffer, copy_front, read_slowly, read_at_once, read_filled,
  none_read, read,
}
use jedge.WifiClient.Moves.{
  held, IsValid, length-held, Moved, unmoved, Moved-trans, fill_buffer-Filled,
}
use jedge.WifiClient.Loops.{copy_front-Moved, read_loop-Looped}

module _ {socket : Socket} (laws : SocketLaws socket) where
  -- A result and the bytes read: at least `least`, and at most `len`.
  abbrev pub Answers : ℕ → ℕ → ℤ → List ℕ → Type 0
  Answers least len (pos k) out = (k ≡ length out) × (k ≤ len) × (least ≤ k)
  Answers least len (negsuc _) out = (out ≡ []) × (least ≡ 0)

  abbrev pub Reads : ℕ → ℕ → RxBuffer socket → Option (ℤ × List ℕ × RxBuffer socket) → Type 0
  Reads least len s o =
      (r : ℤ) × (out : List ℕ) × (s' : RxBuffer socket) × (o ≡ some (r, out, s'))
      × Moved laws s out s'
      × Answers least len r out

  read_slowly-Reads :
      (fuel len a : ℕ) (s : RxBuffer socket)
      → IsValid s
      → a ≤ s.fill - s.position
      → a ≤ len
      → len < fuel
      → Reads a len s (read_slowly fuel len a s)
  read_slowly-Reads fuel len a s v h le f =
      let (copied, size) = copy_front-Moved laws a s v h in
      let (x, s1) = copy_front a s in
      let (rest, y, s', e, later, sum) =
        read_loop-Looped laws fuel (len - a) s1 copied.valid (omega arith) in
      (
        pos (len - rest),
        x ++ y,
        s',
        ap (λ o. o >>= λ r. some (pos (len - r.0), x ++ r.1, r.2)) e,
        Moved-trans laws s s1 s' x y copied later,
        (omega (arith, length-append x y), omega arith, omega arith),
      )

  read_at_once-Reads :
      (len a : ℕ) (s : RxBuffer socket)
      → IsValid s
      → len ≤ s.fill - s.position
      → a ≤ len
      → Reads a len s (read_at_once len s)
  read_at_once-Reads len a s v h le =
      let (copied, size) = copy_front-Moved laws len s v h in
      (
        pos len,
        (copy_front len s).0,
        (copy_front len s).1,
        refl,
        copied,
        (sym size, omega arith, le),
      )

  Reads-after :
      (a len : ℕ) (s s1 : RxBuffer socket) (o : Option (ℤ × List ℕ × RxBuffer socket))
      → Moved laws s [] s1
      → Reads a len s1 o
      → Reads a len s o
  Reads-after a len s s1 o m (r, out, s', e, later, answers) =
      (r, out, s', e, Moved-trans laws s s1 s' [] out m later, answers)

  read_filled-Reads :
      (fuel len : ℕ) (s : RxBuffer socket)
      → IsValid s
      → len < fuel
      → Reads (min len (length (held s))) len s (read_filled fuel len s)
  unfolding read_filled
  read_filled-Reads fuel len s v f =
      let a = s.fill - s.position in
      let (n, s1) = fill_buffer s in
      let (m, l) = fill_buffer-Filled laws s v in
      let there = length-held s v in
      let there1 = length-held s1 m.valid in
      let least = min len (length (held s)) in
      elim (Bool-cases (leb len a)) [
        | inl all ↦ rw all (read_at_once-Reads len least s v (ground arith) (omega arith))
        | inr more ↦
            let is : least ≡ a = ground arith in
            let slow = λ (t : RxBuffer socket) (w : IsValid t) (h : a ≤ t.fill - t.position).
              subst (λ q. Reads q len t (read_slowly fuel len a t)) (sym is)
                (read_slowly-Reads fuel len a t w h (ground arith) f) in
            rw more (
              if_both (Reads least len s) (leb (len - a) (s.size - s.fill))
                (Reads-after least len s s1 _ m (elim (Bool-cases (leb (len - a) n)) [
                  | inl full ↦
                      rw full (read_at_once-Reads len least s1 m.valid (ground arith) (omega arith))
                  | inr short ↦ rw short (slow s1 m.valid (omega arith))
                ]))
                (slow s v (omega arith)))
      ]

  failed-Answers : (failed : Bool) (len : ℕ) → Answers 0 len (if failed then negsuc 0 else pos 0) []
  failed-Answers true len = (refl, refl)
  failed-Answers false len = (refl, omega arith, omega arith)

  none_read-Reads : (len : ℕ) (s : RxBuffer socket) → IsValid s → Reads 0 len s (none_read s)
  none_read-Reads len s v = (
    if s.failed then negsuc 0 else pos 0,
    [],
    s,
    refl,
    unmoved laws s s v refl refl,
    failed-Answers s.failed len,
  )

  Answers-less :
      (a b len : ℕ) (r : ℤ) (out : List ℕ) → b ≤ a → Answers a len r out → Answers b len r out
  Answers-less a b len (pos k) out h (e, most, least) = (e, most, omega arith)
  Answers-less a b len (negsuc _) out h (e, least) = (e, omega arith)

  Reads-less :
      (a b len : ℕ) (s : RxBuffer socket) (o : Option (ℤ × List ℕ × RxBuffer socket))
      → b ≤ a
      → Reads a len s o
      → Reads b len s o
  Reads-less a b len s o h (r, out, s', e, m, answers) =
      (r, out, s', e, m, Answers-less a b len r out h answers)

  -- What a read gives at the least: the bytes that the buffer holds, up to `len`.
  abbrev pub at_least : Bool → ℕ → RxBuffer socket → ℕ
  at_least has_dst len s = if has_dst then min len (length (held s)) else 0

  -- A read of a valid buffer ends and leaves a valid buffer, where the socket behaves as documented.
  -- The bytes that it writes at dst are the next ones that were received: those that the buffer
  -- held and those that the socket gave in the call are, in order, the bytes written and those
  -- that the buffer holds after it. A result that is not -1 is the number of the bytes written,
  -- which is at most len and, where dst is not null, at least the smaller of len and what the
  -- buffer held; with -1 nothing is written.
  pub read-Reads :
      (fuel : ℕ) (has_dst : Bool) (len : ℕ) (s : RxBuffer socket)
      → IsValid s
      → len < fuel
      → Reads (at_least has_dst len s) len s (read fuel has_dst len s)
  unfolding read
  read-Reads fuel has_dst len s v f =
      let (n, s1) = fill_buffer s in
      let (m, l) = fill_buffer-Filled laws s v in
      let there = length-held s v in
      let least = at_least has_dst len s in
      elim (Bool-cases (not has_dst || (len == 0))) [
        | inl nothing ↦
            let z : 0 ≡ least = ground arith in
            rw nothing (subst (λ q. Reads q len s (none_read s)) z (none_read-Reads len s v))
        | inr asks ↦
            let is : min len (length (held s)) ≡ least = ground arith in
            rw asks (elim (Bool-cases (s.position == s.fill)) [
              | inr ready ↦ rw ready (
                  subst (λ q. Reads q len s (read_filled fuel len s)) is
                    (read_filled-Reads fuel len s v f))
              | inl empty ↦
                  let z : 0 ≡ least = ground arith in
                  rw empty (
                    Reads-after least len s s1 _ m (elim (Bool-cases (n == 0)) [
                      | inl none_came ↦ rw none_came (
                          subst (λ q. Reads q len s1 (none_read s1)) z
                            (none_read-Reads len s1 m.valid))
                      | inr came ↦ rw came (
                          Reads-less (min len (length (held s1))) least len s1 _ (omega arith)
                            (read_filled-Reads fuel len s1 m.valid f))
                    ]))
            ])
      ]
