-- ===== src/WifiClient/Peeks.antt =====
-- `peek` gives the byte that the next `read` gives.
use jedge.Base.{
  ◌≡◌, ◌<◌, ℕ, zero, suc, ◌-◌, ◌==◌, List, [], ◌∷◌, length, take, drop, Option, none, some, arith,
  refl, sym, length-drop, drop-take, Bool-cases, inl, inr,
}
use mathlib.Core.Path.{subst}
use jedge.WifiClient.RxBuffer.{
  Socket, SocketLaws, RxBuffer, memory, fill_buffer, front_of, at_position, peek,
}
use jedge.WifiClient.Moves.{held, IsValid, length-held, Moved, unmoved, fill_buffer-Filled}

-- The first byte, or none of no bytes.
abbrev pub IsFront : Option ℕ → List ℕ → Type 0
IsFront none x = x ≡ []
IsFront (some c) x = (rest : List ℕ) × (x ≡ c ∷ rest)

front_of-IsFront : (x : List ℕ) (k : ℕ) → 0 < k → 0 < length x → IsFront (front_of x) (take k x)
front_of-IsFront [] k h l = absurd (omega arith)
front_of-IsFront (c ∷ x) zero h l = absurd (omega arith)
front_of-IsFront (c ∷ x) (suc k) h l = (take k x, refl)

nil_of : (x : List ℕ) → length x ≡ 0 → x ≡ []
nil_of [] h = refl
nil_of (c ∷ x) h = absurd (omega arith)

module _ {socket : Socket} (laws : SocketLaws socket) where
  at_position-IsFront :
      (s : RxBuffer socket) → IsValid s → 0 < s.fill - s.position → IsFront (at_position s) (held s)
  at_position-IsFront s (p, f, l) h =
      subst (IsFront (at_position s)) (sym (drop-take s.position s.fill (memory s))) (
        front_of-IsFront (drop s.position (memory s)) (s.fill - s.position) h
          (omega (arith, length-drop s.position (memory s))))

  -- What `peek` comes to.
  abbrev pub Peeks : RxBuffer socket → Option ℕ × RxBuffer socket → Type 0
  Peeks s r = Moved laws s [] r.1 × IsFront r.0 (held r.1)

  -- Where the socket behaves as documented, a peek at a valid buffer leaves a valid buffer and
  -- takes no byte out: it may only receive others. Its result is the first of the bytes that the
  -- buffer holds after it, which the next read gives, and -1 only where the buffer is empty.
  pub peek-Peeks : (s : RxBuffer socket) → IsValid s → Peeks s (peek s)
  unfolding peek
  peek-Peeks s v =
      let (n, s1) = fill_buffer s in
      let (m, l) = fill_buffer-Filled laws s v in
      let there = length-held s v in
      let there1 = length-held s1 m.valid in
      elim (Bool-cases (s.position == s.fill)) [
        | inl empty ↦ rw empty (elim (Bool-cases (n == 0)) [
          | inl none_came ↦ rw none_came (m, nil_of (held s1) (ground arith))
          | inr came ↦ rw came (m, at_position-IsFront s1 m.valid (ground arith))
        ])
        | inr ready ↦
            let (p, f, b) = v in
            rw ready (unmoved laws s s v refl refl, at_position-IsFront s v (ground arith))
      ]
