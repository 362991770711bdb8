-- ===== src/Ble/LongRead.antt =====
-- The long read of a characteristic: a first read, and reads of what follows while a response fills
-- the packet.
use jedge.Base.{
  ℕ, zero, suc, ◌+◌, ◌-◌, ◌≤◌, ◌<◌, ◌≡◌, ◌==◌, ltb, if◌then◌else◌, Bool, true, false, List, [], ◌∷◌,
  ◌++◌, length, take, drop, take-append-drop, take_nil, drop_nil, Option, none, some, ◌>>=◌, arith,
  refl, ap, ◌∙◌, inl, inr,
}
use jedge.Ble.Value.{Value}
use jedge.Ble.Characteristic.{
  Response, Gatts, Characteristic, max_attr_len, called, respond, read_long, read_first, max_offset,
  read_event,
}
use jedge.Ble.ReadPacket.{read_long_cases, read_first_cases}

module _ {gatts : Gatts} where
  -- the client's next step, with the outcome of a read
  abbrev pub read_on :
      (later : Characteristic gatts → Option (List ℕ × Characteristic gatts)) (mtu : ℕ)
      → Option Response × Characteristic gatts
      → Option (List ℕ × Characteristic gatts)
  read_on later mtu (none, c) = none
  read_on later mtu (some r, c) =
      if ltb r.len (max_offset mtu)
      then some (r.bytes_out, c)
      else later c >>= λ s. some (r.bytes_out ++ s.0, s.1)

  -- The client's procedure, on fuel: it reads on until a response is shorter than a packet.
  unfoldable pub long_read :
      ℕ
      → (mtu conn trans : ℕ) (is_long : Bool) → Characteristic gatts
      → Option (List ℕ × Characteristic gatts)
  long_read zero mtu conn trans is_long c = none
  long_read (suc fuel) mtu conn trans is_long c =
      read_event mtu conn trans c.handle is_long true c
      >>= read_on (long_read fuel mtu conn trans true) mtu

module _ {gatts : Gatts} (later : Characteristic gatts → Option (List ℕ × Characteristic gatts))
    (mtu : ℕ) (r : Response) (c : Characteristic gatts) where
  read_on-last : r.len < max_offset mtu → read_on later mtu (some r, c) ≡ some (r.bytes_out, c)
  read_on-last h = let short : ltb r.len (max_offset mtu) ≡ true = ground arith in rw short refl

  read_on-full :
      r.len ≡ max_offset mtu
      → read_on later mtu (some r, c) ≡ (later c >>= λ s. some (r.bytes_out ++ s.0, s.1))
  read_on-full h = let full : ltb r.len (max_offset mtu) ≡ false = ground arith in rw full refl

-- A piece of a list, and what follows it.
front_rest : (o m : ℕ) (x : List ℕ) → take m (drop o x) ++ drop (o + m) x ≡ drop o x
front_rest zero m x = ap (λ k. take m x ++ drop k x) (omega arith) ∙ take-append-drop m x
front_rest (suc o) m [] = rw (take_nil m, drop_nil (suc o + m)) refl
front_rest (suc o) m (b ∷ x) =
    let one_more : suc o + m ≡ suc (o + m) = omega arith in
    ap (λ k. take m (drop o x) ++ drop k (b ∷ x)) one_more ∙ front_rest o m x

same_handle : (n : ℕ) → (n == n) ≡ true
same_handle n = ground arith

module _ {gatts : Gatts} (mtu conn trans : ℕ) where
  -- the response to a read, and the characteristic after it
  abbrev answered :
      Option (Response × Value)
      → Characteristic gatts
      → Option (Option Response × Characteristic gatts)
  answered a c =
      a >>= λ r. some (some r.0, respond conn trans (some r.0) (record c { value = r.1 }))

  read_event_long :
      (c : Characteristic gatts)
      → read_event mtu conn trans c.handle true true c
        ≡ answered (read_long c.handle (max_offset mtu) c.value) c
  unfolding read_event
  read_event_long c = rw (same_handle c.handle) refl

  read_event_first :
      (c : Characteristic gatts)
      → let c1 = called (gatts.on_read c.value.value c.dev) c in
        read_event mtu conn trans c.handle false true c
        ≡ answered (read_first c.handle (max_offset mtu) c1.value) c1
  unfolding read_event
  read_event_first c = rw (same_handle c.handle) refl

  -- What a read returns, and what it leaves.
  abbrev pub Reads : List ℕ → Characteristic gatts → Option (List ℕ × Characteristic gatts) → Type 0
  Reads x c r =
      (o : ℕ) × (d : gatts.Dev) × (r
        ≡ some (x, record c { value = record c.value { read_offset = o }; dev = d }))

  module _ (mtu_least : 2 ≤ mtu) (mtu_most : mtu ≤ max_attr_len + 1) where
    long_read-rest :
        (fuel : ℕ) (c : Characteristic gatts)
        → length c.value.value ≤ max_attr_len
        → c.value.read_offset ≤ length c.value.value
        → length c.value.value - c.value.read_offset < fuel
        → Reads (drop c.value.read_offset c.value.value) c (long_read fuel mtu conn trans true c)
    unfolding long_read
    long_read-rest zero c most within enough = absurd (omega arith)
    long_read-rest (suc fuel) c most within enough =
        elim (read_long_cases c.handle (max_offset mtu) c.value (omega arith) (omega arith) most
          within) [
            | inl (short, e) ↦ (
              0,
              _,
              step c e
                  ∙ read_on-last (long_read fuel mtu conn trans true) mtu
                      (record {
                        bytes_out = drop c.value.read_offset c.value.value;
                        len = length c.value.value - c.value.read_offset;
                        offset = c.value.read_offset;
                        handle = c.handle;
                      })
                      _ short,
            )
            | inr (far, e) ↦
                let rsp : Response = record {
                  bytes_out = take (max_offset mtu) (drop c.value.read_offset c.value.value);
                  len = max_offset mtu;
                  offset = c.value.read_offset;
                  handle = c.handle;
                } in
                let c' = respond conn trans (some rsp) (record c {
                  value = record c.value { read_offset = c.value.read_offset + max_offset mtu };
                }) in
                let (z, d, q) = long_read-rest fuel c' most far (omega arith) in
                (
                  z,
                  d,
                  step c e
                      ∙ read_on-full (long_read fuel mtu conn trans true) mtu rsp c' refl
                      ∙ ap (λ r. r >>= λ s. some (rsp.bytes_out ++ s.0, s.1)) q
                      ∙ ap
                          (λ x.
                            some
                              (x, record c { value = record c.value { read_offset = z }; dev = d }))
                          (front_rest c.value.read_offset (max_offset mtu) c.value.value),
                )
          ]
      where
        step :
            (c : Characteristic gatts) {r : Response × Value}
            → read_long c.handle (max_offset mtu) c.value ≡ some r
            → long_read (suc fuel) mtu conn trans true c
              ≡ read_on
                  (long_read fuel mtu conn trans true)
                  mtu
                  (some r.0, respond conn trans (some r.0) (record c { value = r.1 }))
        step c e =
            ap (λ r. r >>= read_on (long_read fuel mtu conn trans true) mtu)
              (read_event_long c ∙ ap (λ a. answered a c) e)

    -- For an MTU of 2 to 601: a long read returns the value as the read callback left it, of at
    -- most 600 bytes, in packets, with one read more than the value has bytes as the most, and
    -- leaves the characteristic as it was but for its read offset.
    pub long_read-value :
        (fuel : ℕ) (c : Characteristic gatts)
        → let c1 = called (gatts.on_read c.value.value c.dev) c in
          length c1.value.value ≤ max_attr_len
          → length c1.value.value < fuel
          → Reads c1.value.value c1 (long_read (suc fuel) mtu conn trans false c)
    unfolding long_read
    long_read-value fuel c most enough =
        let c1 = called (gatts.on_read c.value.value c.dev) c in
        let later = long_read fuel mtu conn trans true in
        elim (read_first_cases c.handle (max_offset mtu) c1.value (omega arith) (omega arith)
          most) [
            | inl (short, e) ↦ (
              _,
              _,
              first c e
                  ∙ read_on-last later mtu
                      (record {
                        bytes_out = c1.value.value;
                        len = length c1.value.value;
                        offset = 0;
                        handle = c.handle;
                      })
                      _ short,
            )
            | inr (far, e) ↦
                let rsp : Response = record {
                  bytes_out = take (max_offset mtu) c1.value.value;
                  len = max_offset mtu;
                  offset = 0;
                  handle = c.handle;
                } in
                let c' =
                  respond conn trans (some rsp)
                    (record c1 { value = record c1.value { read_offset = max_offset mtu } }) in
                let (z, d, q) = long_read-rest fuel c' most far (omega arith) in
                (
                  z,
                  d,
                  first c e
                      ∙ read_on-full later mtu rsp c' refl
                      ∙ ap (λ r. r >>= λ s. some (rsp.bytes_out ++ s.0, s.1)) q
                      ∙ ap
                          (λ x.
                            some (
                              x,
                              record c1 { value = record c1.value { read_offset = z }; dev = d },
                            ))
                          (take-append-drop (max_offset mtu) c1.value.value),
                )
          ]
      where
        first :
            (c : Characteristic gatts) {r : Response × Value}
            → read_first c.handle
                (max_offset mtu)
                (called (gatts.on_read c.value.value c.dev) c).value
              ≡ some r
            → long_read (suc fuel) mtu conn trans false c
              ≡ read_on (long_read fuel mtu conn trans true) mtu (
                some r.0,
                respond conn trans
                    (some r.0)
                    (record (called (gatts.on_read c.value.value c.dev) c) { value = r.1 }),
              )
        first c e =
            ap (λ r. r >>= read_on (long_read fuel mtu conn trans true) mtu)
              (read_event_first c
                ∙ ap (λ a. answered a (called (gatts.on_read c.value.value c.dev) c)) e)
