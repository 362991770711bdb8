-- ===== src/WifiClient/Moves.antt =====
-- `fillBuffer` neither loses a byte nor changes the order.
use jedge.Base.{
  ◌≡◌, ◌≤◌, ℕ, ◌+◌, ◌-◌, ◌==◌, leb, if_both, Bool, true, not, ◌&&◌, List, [], ◌++◌, length, take,
  drop, Option, none, some, ℤ, pos, negsuc, arith, refl, sym, ap, ◌∙◌, length-append, length-take,
  length-drop, length-memcpy, drop_all, take-memcpy, drop-append, Bool-cases, inl, inr,
}
use mathlib.Core.Path.{subst}
use mathlib.Core.List.{append_assoc, append-nil}
use jedge.WifiClient.RxBuffer.{
  Recv, bytes_of, Socket, SocketLaws, RxBuffer, memory, counted, r_available_of, r_available,
  filled_by, rewound, receive_into, allocated, fill_of, fill_buffer,
}

-- the memory has the size of the buffer
abbrev pub IsBlock : ℕ → Option (List ℕ) → Type 0
IsBlock size none = Unit
IsBlock size (some b) = length b ≡ size

module _ {socket : Socket} where
  -- The bytes that were received and not yet read.
  abbrev pub held : RxBuffer socket → List ℕ
  held s = drop s.position (take s.fill (memory s))

  abbrev pub IsValid : RxBuffer socket → Type 0
  IsValid s = (s.position ≤ s.fill) × (s.fill ≤ length (memory s)) × IsBlock s.size s.buffer

  pub length-held : (s : RxBuffer socket) → IsValid s → length (held s) ≡ s.fill - s.position
  length-held s (p, f, b) =
      omega (arith, length-drop s.position (take s.fill (memory s)), length-take s.fill (memory s))

slice_nil : (p f : ℕ) (b : List ℕ) → f ≤ p → drop p (take f b) ≡ []
slice_nil p f b h = drop_all p (take f b) (omega (arith, length-take f b))

module _ {socket : Socket} (laws : SocketLaws socket) where
  open socket use {Dev, recv, fionread, malloc}
  open laws use {taken}

  -- The bytes `out` have left the buffer, and others have come to it.
  pub record Moved (s : RxBuffer socket) (out : List ℕ) (s' : RxBuffer socket) : Type 0 where
    pub valid : IsValid s'
    pub came : List ℕ
    pub taken_is : taken s'.dev ≡ taken s.dev ++ came
    pub held_is : held s ++ came ≡ out ++ held s'

  pub unmoved :
      (s s' : RxBuffer socket)
      → IsValid s'
      → held s ≡ held s'
      → taken s'.dev ≡ taken s.dev
      → Moved s [] s'
  unmoved s s' v h t = record {
    valid = v;
    came = [];
    taken_is = t ∙ sym (append-nil (taken s.dev));
    held_is = append-nil (held s) ∙ h;
  }

  pub Moved-trans :
      (s s1 s2 : RxBuffer socket) (x y : List ℕ)
      → Moved s x s1
      → Moved s1 y s2
      → Moved s (x ++ y) s2
  Moved-trans s s1 s2 x y p q = record {
    valid = q.valid;
    came = p.came ++ q.came;
    taken_is =
        q.taken_is ∙ ap (λ l. l ++ q.came) p.taken_is ∙ append_assoc (taken s.dev) p.came q.came;
    held_is =
        sym (append_assoc (held s) p.came q.came)
        ∙ ap (λ l. l ++ q.came) p.held_is
        ∙ append_assoc x (held s1) q.came
        ∙ ap (λ l. x ++ l) q.held_is
        ∙ sym (append_assoc x y (held s2));
  }

  -- A fill: the bytes that came are counted.
  abbrev pub Filled : RxBuffer socket → ℕ × RxBuffer socket → Type 0
  Filled s r = Moved s [] r.1 × (length (held r.1) ≡ length (held s) + r.0)

  Filled-after :
      (s s1 : RxBuffer socket) (r : ℕ × RxBuffer socket)
      → held s ≡ held s1
      → taken s1.dev ≡ taken s.dev
      → Filled s1 r
      → Filled s r
  Filled-after s s1 r h t (m, l) = (
    record {
      valid = m.valid;
      came = m.came;
      taken_is = m.taken_is ∙ ap (λ q. q ++ m.came) t;
      held_is = ap (λ q. q ++ m.came) h ∙ m.held_is;
    },
    l ∙ ap (λ q. length q + r.0) (sym h),
  )

  still :
      (s s' : RxBuffer socket)
      → IsValid s'
      → held s ≡ held s'
      → taken s'.dev ≡ taken s.dev
      → Filled s (0, s')
  still s s' v h t = (unmoved s s' v h t, ap length (sym h) ∙ omega arith)

  counted-dev :
      (s : RxBuffer socket) (r : Option ℕ × Dev)
      → (f : Bool) × ((counted s r).1 ≡ record s { failed = f; dev = r.1 })
  counted-dev s (none, d) = (true, refl)
  counted-dev s (some n, d) = (s.failed, refl)

  r_available_of-dev :
      (fd : ℤ) (s : RxBuffer socket)
      → (f : Bool) × (d : Dev) × ((r_available_of fd s).1 ≡ record s { failed = f; dev = d })
        × (taken d ≡ taken s.dev)
  r_available_of-dev (negsuc k) s = (s.failed, s.dev, refl, refl)
  r_available_of-dev (pos k) s =
      let (f, e) = counted-dev s (fionread s.dev) in
      (f, (fionread s.dev).1, e, laws.taken-fionread s.dev)

  filled_by-Filled :
      (b : List ℕ) (s : RxBuffer socket) (f : Bool) (d : Dev) (r : Recv) (d' : Dev)
      → IsValid (record s { buffer = some b })
      → length (bytes_of r) ≤ s.size - s.fill
      → taken d' ≡ taken s.dev ++ bytes_of r
      → Filled
          (record s { buffer = some b })
          (filled_by b (record s { buffer = some b; failed = f; dev = d }) (r, d'))
  unfolding filled_by
  filled_by-Filled b s f d (Recv.got x) d' (p, h, l) m t =
      let front = take-memcpy b s.fill x (s.fill + length x) h refl in
      let all =
        ap (drop s.position) front
        ∙ drop-append (take s.fill b) x s.position (omega (arith, length-take s.fill b)) in
      (
        record {
          valid = (
            omega arith,
            omega (arith, length-memcpy b s.fill x (omega arith)),
            length-memcpy b s.fill x (omega arith) ∙ l,
          );
          came = x;
          taken_is = t;
          held_is = sym all;
        },
        ap length all ∙ length-append (drop s.position (take s.fill b)) x,
      )
  filled_by-Filled b s f d Recv.would_block d' v m t =
      still (record s { buffer = some b }) (record s { buffer = some b; failed = f; dev = d' }) v
        refl (t ∙ append-nil (taken s.dev))
  filled_by-Filled b s f d Recv.recv_error d' v m t =
      still (record s { buffer = some b }) (record s { buffer = some b; failed = true; dev = d' }) v
        refl (t ∙ append-nil (taken s.dev))

  core :
      (b : List ℕ) (s : RxBuffer socket)
      → IsValid (record s { buffer = some b })
      → Filled (record s { buffer = some b }) (receive_into b (record s { buffer = some b }))
  unfolding receive_into r_available
  core b s v =
      let t : RxBuffer socket = record s { buffer = some b } in
      let (f, d, e, w) = r_available_of-dev s.fd t in
      let q = recv (s.size - s.fill) d in
      if_both (Filled t) (leb s.size s.fill) (still t t v refl refl) (
        if_both (Filled t) ((r_available_of s.fd t).0 == 0)
          (subst (λ q. Filled t (0, q)) (sym e)
            (still t (record t { failed = f; dev = d }) v refl w))
          (subst (λ q. Filled t (filled_by b q (recv (q.size - q.fill) q.dev))) (sym e)
            (filled_by-Filled b s f d q.0 q.1 v (laws.recv_most (s.size - s.fill) d)
              (laws.taken-recv (s.size - s.fill) d ∙ ap (λ l. l ++ bytes_of q.0) w))))

  receive_into-Filled :
      (b : List ℕ) (s : RxBuffer socket)
      → s.buffer ≡ some b
      → IsValid s
      → Filled s (receive_into b s)
  receive_into-Filled b s e =
      subst
        (λ (o : Option (List ℕ)).
          IsValid (record s { buffer = o })
          → Filled (record s { buffer = o }) (receive_into b (record s { buffer = o })))
        (sym e) (core b s)

  rewound-Filled :
      (b : List ℕ) (s : RxBuffer socket)
      → s.buffer ≡ some b
      → IsValid s
      → Filled s (receive_into b (rewound s))
  rewound-Filled b s e (p, f, l) = elim (Bool-cases (not (s.fill == 0) && (s.position == s.fill))) [
    | inl over ↦
        let start : RxBuffer socket = record s { position = 0; fill = 0 } in
        rw over (
          Filled-after s start (receive_into b start)
            (slice_nil s.position s.fill (memory s) (ground arith)) refl
            (receive_into-Filled b start e (omega arith, omega arith, l)))
    | inr more ↦ rw more (receive_into-Filled b s e (p, f, l))
  ]

  fill_of-Filled :
      (o : Option (List ℕ)) (s : RxBuffer socket)
      → IsValid (record s { buffer = o })
      → Filled (record s { buffer = o }) (fill_of o (record s { buffer = o }))
  fill_of-Filled (some b) s v = rewound-Filled b (record s { buffer = some b }) refl v
  fill_of-Filled none s (p, f, l) = go (malloc s.size s.dev) (laws.malloc_length s.size s.dev)
    where
      go :
          (m : Option (List ℕ))
          → ((b : List ℕ) → m ≡ some b → length b ≡ s.size)
          → Filled (record s { buffer = none }) (allocated (record s { buffer = none }) m)
      go none h =
          still (record s { buffer = none }) (record s { buffer = none; failed = true }) (p, f, l)
            refl refl
      go (some b) h =
          let t : RxBuffer socket = record s { buffer = some b } in
          Filled-after (record s { buffer = none }) t (receive_into b (rewound t))
            (slice_nil s.position s.fill [] (omega arith)
              ∙ sym (slice_nil s.position s.fill b (omega arith)))
            refl (rewound-Filled b t refl (p, omega arith, h b refl))

  pub fill_buffer-Filled : (s : RxBuffer socket) → IsValid s → Filled s (fill_buffer s)
  unfolding fill_buffer
  fill_buffer-Filled s v = fill_of-Filled s.buffer s v
