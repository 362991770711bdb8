-- ===== src/Ble/CharacteristicTests.antt =====
-- A characteristic with callbacks that do nothing and a stack that sends, and the theorems there.
use jedge.Base.{ℕ, ◌+◌, ◌≡◌, ◌==◌, if◌then◌else◌, true, false, [], ◌∷◌, none, some, arith, refl}
use jedge.Ble.Characteristic.{Gatts, Characteristic, called, respond, exec_write_event}
use jedge.Ble.LongRead.{long_read, Reads, long_read-value}
use jedge.Ble.LongWrite.{prepare, exec_write_event-executed}

-- The device counts the calls.
abbrev test_gatts : Gatts
test_gatts = record {
  Dev = ℕ;
  send_response = λ _ _ _ d. (0, d + 1);
  on_write = λ _ d. (none, d);
  on_read = λ _ d. (none, d);
  on_notify = λ _ d. (none, d);
  on_status = λ _ _ _ d. (none, d);
  send_indicate = λ conn _ _ _ d. (if conn == 9 then 3 else 0, d);
  take_confirm = λ d. d;
  give_confirm = λ d. d;
  timed_wait = λ d. (some 0, d);
}

abbrev level : Characteristic test_gatts
level = record {
  handle = 42;
  value = record { accumulation = []; value = 1 ∷ 2 ∷ 3 ∷ 4 ∷ 5 ∷ []; read_offset = 0 };
  write_evt = false;
  dev = 0;
}

-- packets of two bytes
long_read-value_example : Reads 3 0 0 (1 ∷ 2 ∷ 3 ∷ 4 ∷ 5 ∷ []) level (long_read 7 3 0 0 false level)
long_read-value_example =
    long_read-value 3 0 0 (omega arith) (omega arith) 6 level (omega arith) (omega arith)

exec_write_event-executed_example :
    (d : ℕ) × ((prepare 0 0 ((0, true, 7 ∷ []) ∷ (1, true, 8 ∷ []) ∷ []) level).value.value
      ≡ 1 ∷ 2 ∷ 3 ∷ 4 ∷ 5 ∷ [])
    × (exec_write_event 0 0 true (prepare 0 0 ((0, true, 7 ∷ []) ∷ (1, true, 8 ∷ []) ∷ []) level)
        ≡ respond 0 0 none (
            called
              (none, d)
              (record level {
                value = record { accumulation = []; value = 7 ∷ 8 ∷ []; read_offset = 0 };
                dev = d;
              })))
exec_write_event-executed_example =
    exec_write_event-executed 0 0 (0, true, 7 ∷ []) ((1, true, 8 ∷ []) ∷ []) level refl
      (omega arith)
