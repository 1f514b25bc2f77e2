-- ===== src/Recompute/Storage.antt =====
-- How a cell's row keeps its value: packages/db/src/sqlite/cell-values.ts.
use byok_grid.Common.{ℕ, Text, ◌≡◌, refl, Bool, false, Option, none, some, [], ap}
use byok_grid.Formula.Values.{Runtime, Value, CellValue, CellValueType, type_of}
use byok_grid.Formula.Syntax.{Expression}
use byok_grid.Formula.Evaluate.{Values, evaluate, read_column}
use byok_grid.Formula.Preserved.{Basic, LiteralsHold, evaluate-Holds}

abbrev value_or {ℓ} : {A : Type ℓ} → Option A → A → A
value_or none default = default
value_or (some a) default = a

module _ (js : Runtime) where
  -- The columns of a cell that hold its value.
  pub record Stored : Type 0 where
    pub value_boolean : Option Bool
    pub value_json : Option js.Json
    pub value_number : Option js.Number
    pub value_text : Option Text
    pub value_timestamp : Option js.Date
    pub value_type : CellValueType

  abbrev boolean_column : Value js → Option Bool
  boolean_column (CellValue.boolean b) = some b
  boolean_column _ = none

  abbrev json_column : Value js → Option js.Json
  json_column (CellValue.json j) = some j
  json_column _ = none

  abbrev number_column : Value js → Option js.Number
  number_column (CellValue.number n) = some n
  number_column _ = none

  abbrev text_column : Value js → Option Text
  text_column (CellValue.text t) = some t
  text_column _ = none

  abbrev timestamp_column : Value js → Option js.Date
  timestamp_column (CellValue.timestamp t) = some (js.new_date t)
  timestamp_column _ = none

  unfoldable pub serialize_cell_value : Value js → Stored
  serialize_cell_value value = record {
    value_boolean = boolean_column value;
    value_json = json_column value;
    value_number = number_column value;
    value_text = text_column value;
    value_timestamp = timestamp_column value;
    value_type = type_of value;
  }

  unfoldable pub deserialize_cell_value : Stored → Value js
  deserialize_cell_value cell = by_type cell.value_type
    where
      by_type : CellValueType → Value js
      by_type CellValueType.empty = CellValue.empty
      by_type CellValueType.text = CellValue.text (value_or cell.value_text [])
      by_type CellValueType.number = CellValue.number (value_or cell.value_number js.zero_number)
      by_type CellValueType.boolean = CellValue.boolean (value_or cell.value_boolean false)
      by_type CellValueType.timestamp =
          CellValue.timestamp (js.to_iso_string (value_or cell.value_timestamp js.epoch))
      by_type CellValueType.json = CellValue.json (value_or cell.value_json js.null_json)

  -- A timestamp is written as `toISOString` writes it, in UTC with three digits of milliseconds.
  abbrev pub IsIso : Value js → Type 0
  IsIso (CellValue.timestamp t) = js.to_iso_string (js.new_date t) ≡ t
  IsIso _ = Unit

  pub deserialize-serialize :
      (v : Value js) → IsIso v → deserialize_cell_value (serialize_cell_value v) ≡ v
  unfolding serialize_cell_value deserialize_cell_value
  deserialize-serialize CellValue.empty iso = refl
  deserialize-serialize (CellValue.text t) iso = refl
  deserialize-serialize (CellValue.number n) iso = refl
  deserialize-serialize (CellValue.boolean b) iso = refl
  deserialize-serialize (CellValue.timestamp t) iso = ap CellValue.timestamp iso
  deserialize-serialize (CellValue.json j) iso = refl

  -- `new Date` reads what `toISOString` prints.
  abbrev pub ReadsIso : Type 0
  ReadsIso = (d : js.Date) → js.new_date (js.to_iso_string d) ≡ d

  pub deserialize-IsIso : ReadsIso → (cell : Stored) → IsIso (deserialize_cell_value cell)
  unfolding deserialize_cell_value
  deserialize-IsIso reads cell = by_type cell.value_type
    where
      by_type :
          (t : CellValueType) → IsIso (deserialize_cell_value (record cell { value_type = t }))
      by_type CellValueType.empty = tt
      by_type CellValueType.text = tt
      by_type CellValueType.number = tt
      by_type CellValueType.boolean = tt
      by_type CellValueType.timestamp = ap js.to_iso_string (reads _)
      by_type CellValueType.json = tt

  -- The timestamps among the literals are so written.
  abbrev pub IsoLiterals : Expression js.Number js.Json → Type 0
  IsoLiterals = LiteralsHold js IsIso

  made : Basic js IsIso
  made = record { empty = tt; text = λ t. tt; boolean = λ b. tt; number = λ n h. tt }

  pub evaluate-IsIso :
      (e : Expression js.Number js.Json) (values : Values js)
      → ((c : ℕ) → IsIso (read_column js (values c)))
      → IsoLiterals e
      → IsIso (evaluate js e values)
  evaluate-IsIso e values columns literals = evaluate-Holds js IsIso made e values columns literals
