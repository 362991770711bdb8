-- ===== src/Ble/Value.antt =====
-- `BLEValue` of Essential Libraries/BLE/src/BLEValue.cpp: a value, the parts of a long write, and how
-- far a long read has come.
use jedge.Base.{ℕ, ◌%◌, ◌^◌, List, [], ◌∷◌, ◌++◌}

pub record Value : Type 0 where
  pub accumulation : List ℕ
  pub value : List ℕ
  pub read_offset : ℕ

abbrev pub new_value : Value
new_value = record { accumulation = []; value = []; read_offset = 0 }

unfoldable pub add_part : List ℕ → Value → Value
add_part part v = record v { accumulation = v.accumulation ++ part }

unfoldable pub cancel : Value → Value
cancel v = record v { accumulation = []; read_offset = 0 }

abbrev pub set_value : List ℕ → Value → Value
set_value x v = record v { value = x }

-- `commit`, with the accumulation
unfoldable pub commit_parts : List ℕ → Value → Value
commit_parts [] v = v
commit_parts (b ∷ parts) v = record (set_value (b ∷ parts) v) { accumulation = []; read_offset = 0 }

abbrev pub commit : Value → Value
commit v = commit_parts v.accumulation v

-- `setReadOffset` of a `uint16_t`
abbrev pub set_read_offset : ℕ → Value → Value
set_read_offset offset v = record v { read_offset = offset % 2 ^ 16 }
