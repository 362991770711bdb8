-- ===== src/WifiClient/Loops.antt =====
-- The copies of `read` and its loop.
use jedge.Base.{
  ◌≡◌, ◌≤◌, ◌<◌, ℕ, zero, suc, ◌+◌, ◌-◌, ◌==◌, min, List, [], ◌++◌, length, take, drop, Option,
  some, ◌>>=◌, arith, refl, sym, ap, ◌∙◌, length-append, length-take, length-drop, take-append-drop,
  take-take, drop-take, drop-drop, Bool-cases, inl, inr,
}
use mathlib.Core.List.{append-nil}
use jedge.WifiClient.RxBuffer.{
  Socket, SocketLaws, RxBuffer, memory, fill_buffer, copy_front, to_copy, with_copied, read_loop,
}
use jedge.WifiClient.Moves.{
  held, IsValid, length-held, Moved, unmoved, Moved-trans, fill_buffer-Filled,
}

module _ {socket : Socket} (laws : SocketLaws socket) where
  pub copy_front-Moved :
      (n : ℕ) (s : RxBuffer socket)
      → IsValid s
      → n ≤ s.fill - s.position
      → Moved laws s (copy_front n s).0 (copy_front n s).1 × (length (copy_front n s).0 ≡ n)
  copy_front-Moved n s (p, f, l) h =
      let front : take n (held s) ≡ take n (drop s.position (memory s)) =
        ap (take n) (drop-take s.position s.fill (memory s))
        ∙ take-take n (s.fill - s.position) (drop s.position (memory s)) h in
      (
        record {
          valid = (omega arith, f, l);
          came = [];
          taken_is = sym (append-nil (laws.taken s.dev));
          held_is =
              append-nil (held s)
              ∙ sym (take-append-drop n (held s))
              ∙ ap (λ q. q ++ drop n (held s)) front
              ∙ ap (λ q. take n (drop s.position (memory s)) ++ q)
                  (drop-drop n s.position (take s.fill (memory s)));
        },
        omega
            (arith, length-take n (drop s.position (memory s)), length-drop s.position (memory s)),
      )

  to_copy_most :
      (s : RxBuffer socket) (left : ℕ)
      → (to_copy s left ≤ left)
        × (to_copy s left ≤ s.fill - s.position)
        × (min left (s.fill - s.position) ≤ to_copy s left)
  to_copy_most s left = ground arith

  -- What the loop comes to: what is left, the bytes read, and the buffer.
  abbrev pub Looped : ℕ → RxBuffer socket → Option (ℕ × List ℕ × RxBuffer socket) → Type 0
  Looped left s o =
      (rest : ℕ) × (y : List ℕ) × (s' : RxBuffer socket) × (o ≡ some (rest, y, s'))
      × Moved laws s y s'
      × (rest + length y ≡ left)

  pub read_loop-Looped :
      (fuel left : ℕ) (s : RxBuffer socket)
      → IsValid s
      → left < fuel
      → Looped left s (read_loop fuel left s)
  unfolding read_loop
  read_loop-Looped zero left s v h = absurd (omega arith)
  read_loop-Looped (suc fuel) left s v h =
      let (n, s1) = fill_buffer s in
      let (m, l) = fill_buffer-Filled laws s v in
      let k = to_copy s1 left in
      elim (Bool-cases (left == 0)) [
        | inl over ↦ rw over (0, [], s, refl, unmoved laws s s v refl refl, ground arith)
        | inr more ↦ elim (Bool-cases (n == 0)) [
          | inl empty ↦ rw (more, empty) (left, [], s1, refl, m, omega arith)
          | inr some_there ↦
              let there = length-held s1 m.valid in
              let (a, b, c) = to_copy_most s1 left in
              let (copied, size) = copy_front-Moved k s1 m.valid b in
              let positive : 0 < k = ground arith in
              let (rest, y, s', e, later, sum) =
                read_loop-Looped fuel (left - k) (copy_front k s1).1 copied.valid (omega arith) in
              rw (more, some_there)
                (
                  rest,
                  (copy_front k s1).0 ++ y,
                  s',
                  ap (λ o. o >>= λ r. some (with_copied (copy_front k s1).0 r)) e,
                  Moved-trans laws s s1 s' [] ((copy_front k s1).0 ++ y) m (
                      Moved-trans laws s1 (copy_front k s1).1 s' (copy_front k s1).0 y copied
                        later),
                  omega (arith, length-append (copy_front k s1).0 y),
                )
        ]
      ]
