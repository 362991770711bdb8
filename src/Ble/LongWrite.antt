-- ===== src/Ble/LongWrite.antt =====
-- The long write of a characteristic: prepared writes, and the request to execute or cancel them.
use jedge.Base.{
  ℕ, ◌<◌, ◌≡◌, ◌==◌, if_both, Bool, true, false, List, [], ◌∷◌, ◌++◌, length, none, arith, refl,
  sym, ap, ◌∙◌,
}
use mathlib.Core.List.{append_assoc, append-nil}
use jedge.Ble.Value.{Value, add_part, cancel, commit_parts}
use jedge.Ble.Characteristic.{Gatts, Characteristic, called, respond, exec_write_event, write_event}

-- a prepared write: its offset, whether it wants a response, and its bytes
abbrev pub Part : Type 0
Part = ℕ × Bool × List ℕ

abbrev pub joined : List Part → List ℕ
joined [] = []
joined ((_, _, x) ∷ parts) = x ++ joined parts

commit_parts_some :
    (x : List ℕ) (v : Value)
    → 0 < length x
    → commit_parts x v ≡ record { accumulation = []; value = x; read_offset = 0 }
unfolding commit_parts
commit_parts_some [] v h = absurd (omega arith)
commit_parts_some (b ∷ x) v h = refl

module _ {gatts : Gatts} (conn trans : ℕ) where
  -- the prepared writes, one after the other
  unfoldable pub prepare : List Part → Characteristic gatts → Characteristic gatts
  prepare [] c = c
  prepare ((offset, need_rsp, x) ∷ parts) c =
      prepare parts (write_event conn trans c.handle offset need_rsp true x c)

  -- a characteristic with parts of a write
  abbrev pub Prepared : List ℕ → Characteristic gatts → Characteristic gatts → Type 0
  Prepared x c c' =
      (d : gatts.Dev) × (c' ≡ record c {
        value = record c.value { accumulation = c.value.accumulation ++ x };
        write_evt = true;
        dev = d;
      })

  write_event-Prepared :
      (offset : ℕ) (need_rsp : Bool) (x : List ℕ) (c : Characteristic gatts)
      → Prepared x c (write_event conn trans c.handle offset need_rsp true x c)
  unfolding write_event add_part
  write_event-Prepared offset need_rsp x c =
      let same : (c.handle == c.handle) ≡ true = ground arith in
      rw same (if_both (Prepared x c) need_rsp (_, refl) (_, refl))

  prepare-Prepared :
      (p : Part) (parts : List Part) (c : Characteristic gatts)
      → Prepared (joined (p ∷ parts)) c (prepare (p ∷ parts) c)
  unfolding prepare
  prepare-Prepared (offset, need_rsp, x) [] c =
      let (d, e) = write_event-Prepared offset need_rsp x c in
      (
        d,
        e
            ∙ ap
                (λ a. record c {
                  value = record c.value { accumulation = c.value.accumulation ++ a };
                  write_evt = true;
                  dev = d;
                })
                (sym (append-nil x)),
      )
  prepare-Prepared (offset, need_rsp, x) (p ∷ parts) c =
      let (d, e) = write_event-Prepared offset need_rsp x c in
      let (d', e') =
        prepare-Prepared p parts (write_event conn trans c.handle offset need_rsp true x c) in
      (
        d',
        e'
            ∙ ap
                (λ (q : Characteristic gatts). record q {
                  value = record q.value {
                    accumulation = q.value.accumulation ++ joined (p ∷ parts);
                  };
                  write_evt = true;
                  dev = d';
                })
                e
            ∙ ap
                (λ a. record c {
                  value = record c.value { accumulation = a };
                  write_evt = true;
                  dev = d';
                })
                (append_assoc c.value.accumulation x (joined (p ∷ parts))),
      )

  -- Prepared writes, of at least a byte and with no parts from before, change nothing until they
  -- are executed; then the value is their bytes, one after the other and whatever their offsets,
  -- as the write callback leaves it.
  pub exec_write_event-executed :
      (p : Part) (parts : List Part) (c : Characteristic gatts)
      → c.value.accumulation ≡ []
      → 0 < length (joined (p ∷ parts))
      → let x = joined (p ∷ parts) in
        (d : gatts.Dev) × ((prepare (p ∷ parts) c).value.value ≡ c.value.value)
        × (exec_write_event conn trans true (prepare (p ∷ parts) c)
            ≡ respond conn trans none (
                called (gatts.on_write x d) (record c {
                  value = record { accumulation = []; value = x; read_offset = 0 };
                  write_evt = false;
                  dev = d;
                })))
  unfolding exec_write_event
  exec_write_event-executed p parts c fresh some_bytes =
      let x = joined (p ∷ parts) in
      let (d, e) = prepare-Prepared p parts c in
      let begun : prepare (p ∷ parts) c
          ≡ record c { value = record c.value { accumulation = x }; write_evt = true; dev = d } =
        e
        ∙ ap
            (λ a. record c {
              value = record c.value { accumulation = a ++ x };
              write_evt = true;
              dev = d;
            })
            fresh in
      (
        d,
        ap (λ (q : Characteristic gatts). q.value.value) e,
        ap (exec_write_event conn trans true) begun
            ∙ ap
                (λ v. respond conn trans none (
                  called (gatts.on_write v.value d)
                    (record c { value = v; write_evt = false; dev = d })))
                (commit_parts_some x (record c.value { accumulation = x }) some_bytes),
      )

  -- Prepared writes that are cancelled leave the value as it was before the first of them.
  exec_write_event-cancelled :
      (p : Part) (parts : List Part) (c : Characteristic gatts)
      → (d : gatts.Dev) × (exec_write_event conn trans false (prepare (p ∷ parts) c) ≡ record c {
        value = record c.value { accumulation = []; read_offset = 0 };
        write_evt = false;
        dev = d;
      })
  unfolding exec_write_event cancel
  exec_write_event-cancelled p parts c =
      let (d, e) = prepare-Prepared p parts c in (_, ap (exec_write_event conn trans false) e)
