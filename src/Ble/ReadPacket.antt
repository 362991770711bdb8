-- ===== src/Ble/ReadPacket.antt =====
-- One read of a characteristic's value: a first read, and a read of what follows.
use jedge.Base.{
  ℕ, ◌+◌, ◌-◌, ◌%◌, ◌^◌, ◌≤◌, ◌<◌, ◌≡◌, ltb, sub_size, add_size, List, length, take, drop,
  length-drop, take_all, some, ◌>>=◌, arith, refl, ap, ◌∙◌, ◌⊎◌, inl, inr, Bool-cases,
}
use mathlib.Core.Path.{subst}
use jedge.Ble.Value.{Value, set_read_offset}
use jedge.Ble.Characteristic.{max_attr_len, copy_out, read_long, read_first, reply}

-- A copy within the value, and within the response.
copied :
    (offset len : ℕ) (x : List ℕ)
    → offset + len ≤ length x
    → len ≤ max_attr_len
    → copy_out offset len x ≡ some (take len (drop offset x))
unfolding copy_out
copied offset len x h k = ground arith

module _ (handle m : ℕ) (v : Value) (some_room : 0 < m) (m_most : m ≤ max_attr_len)
    (most : length v.value ≤ max_attr_len) where
  reply_within :
      (o n : ℕ) (x : List ℕ) (w : Value)
      → o + n ≤ length v.value
      → n ≤ max_attr_len
      → take n (drop o v.value) ≡ x
      → reply handle o n v.value w
        ≡ some (record { bytes_out = x; len = n; offset = o; handle = handle }, w)
  reply_within o n x w h k e =
      ap (λ r. r >>= λ y. some (record { bytes_out = y; len = n; offset = o; handle = handle }, w))
        (copied o n v.value h k ∙ ap some e)

  -- A read from an offset within the value.
  pub read_long_cases :
      v.read_offset ≤ length v.value
      → let o = v.read_offset in
        (length v.value - o < m)
          × (read_long handle m v
              ≡ some (
                record {
                  bytes_out = drop o v.value;
                  len = length v.value - o;
                  offset = o;
                  handle = handle;
                },
                record v { read_offset = 0 },
              ))
        ⊎ (o + m ≤ length v.value)
          × (read_long handle m v
              ≡ some (
                record {
                  bytes_out = take m (drop o v.value);
                  len = m;
                  offset = o;
                  handle = handle;
                },
                record v { read_offset = o + m },
              ))
  unfolding read_long
  read_long_cases within = elim (Bool-cases (ltb (sub_size (length v.value) v.read_offset) m)) [
    | inl last ↦
        let o = v.read_offset in
        let n : sub_size (length v.value) o ≡ length v.value - o = omega arith in
        let k : length v.value - o ≡ (sub_size (length v.value) o) % 2 ^ 16 = omega arith in
        inl (
          ground (arith, n),
          rw last (
              subst
                (λ j.
                  reply handle o j v.value (set_read_offset 0 v)
                  ≡ some (
                    record {
                      bytes_out = drop o v.value;
                      len = length v.value - o;
                      offset = o;
                      handle = handle;
                    },
                    record v { read_offset = 0 },
                  ))
                k
                (reply_within o (length v.value - o) (drop o v.value) (set_read_offset 0 v)
                  (omega arith) (omega arith)
                  (take_all (length v.value - o) (drop o v.value)
                    (omega (arith, length-drop o v.value))))),
        )
    | inr more ↦
        let o = v.read_offset in
        let n : sub_size (length v.value) o ≡ length v.value - o = omega arith in
        let far : o + m ≤ length v.value = ground (arith, n) in
        inr (
          far,
          rw more (
              reply_within o m (take m (drop o v.value)) (set_read_offset (o + m) v) far m_most refl
              ∙ ap
                  (λ k. some (
                    record {
                      bytes_out = take m (drop o v.value);
                      len = m;
                      offset = o;
                      handle = handle;
                    },
                    record v { read_offset = k },
                  ))
                  (omega arith)),
        )
  ]

  -- A first read.
  pub read_first_cases :
      (length v.value < m)
        × (read_first handle m v
            ≡ some (
              record { bytes_out = v.value; len = length v.value; offset = 0; handle = handle },
              v,
            ))
      ⊎ (m ≤ length v.value)
        × (read_first handle m v
            ≡ some (
              record { bytes_out = take m v.value; len = m; offset = 0; handle = handle },
              record v { read_offset = m },
            ))
  unfolding read_first
  read_first_cases = elim (Bool-cases (ltb m (add_size (length v.value) 1))) [
    | inl over ↦
        let far : m ≤ length v.value = ground arith in
        inr (
          far,
          rw over (
              reply_within 0 m (take m v.value) (set_read_offset m v) (omega arith) m_most refl
              ∙ ap
                  (λ k. some (
                    record { bytes_out = take m v.value; len = m; offset = 0; handle = handle },
                    record v { read_offset = k },
                  ))
                  (omega arith)),
        )
    | inr fits ↦ inl (
      ground arith,
      rw fits (
          subst
            (λ j.
              reply handle 0 j v.value v
              ≡ some (
                record { bytes_out = v.value; len = length v.value; offset = 0; handle = handle },
                v,
              ))
            (omega arith)
            (reply_within 0 (length v.value) v.value v (omega arith) (omega arith)
              (take_all (length v.value) v.value (omega arith)))),
    )
  ]
