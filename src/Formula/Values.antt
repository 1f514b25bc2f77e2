-- ===== src/Formula/Values.antt =====
-- Cell values (packages/domain/src/cell-values.ts), and what the formulas take from the JavaScript
-- runtime: its numbers (IEEE doubles), its JSON values, its dates, and its conversions to text.
use byok_grid.Common.{Text, ◌≡◌, Bool, true, false, ◌⊎◌}

pub data CellValueType : Type 0 where
  empty text number boolean timestamp json : CellValueType

abbrev pub same_type : CellValueType → CellValueType → Bool
same_type empty empty = true
same_type text text = true
same_type number number = true
same_type boolean boolean = true
same_type timestamp timestamp = true
same_type json json = true
same_type _ _ = false

pub data CellValue (N J : Type 0) : Type 0 where
  empty : CellValue N J
  text : Text → CellValue N J
  number : N → CellValue N J
  boolean : Bool → CellValue N J
  timestamp : Text → CellValue N J
  json : J → CellValue N J

abbrev pub type_of : {N J : Type 0} → CellValue N J → CellValueType
type_of empty = empty
type_of (text _) = text
type_of (number _) = number
type_of (boolean _) = boolean
type_of (timestamp _) = timestamp
type_of (json _) = json

pub record Runtime : Type 1 where
  pub Number : Type 0
  pub Json : Type 0
  -- the dates that are not the invalid one
  pub Date : Type 0
  pub nan : Number
  pub zero_number : Number
  pub is_finite : Number → Bool
  pub is_zero : Number → Bool
  pub add : Number → Number → Number
  pub subtract : Number → Number → Number
  pub multiply : Number → Number → Number
  pub divide : Number → Number → Number
  pub number_text : Number → Text
  pub json_text : Json → Text
  pub number_json : Number → Text
  pub string_json : Text → Text
  pub lower : Text → Text
  pub upper : Text → Text
  pub trim : Text → Text
  pub null_json : Json
  -- `new Date(text)`, of a text that `z.iso.datetime()` accepts
  pub new_date : Text → Date
  -- `new Date(0)`
  pub epoch : Date
  pub to_iso_string : Date → Text

abbrev pub Value : Runtime → Type 0
Value js = CellValue js.Number js.Json

-- A value that a column of the type may hold: one of the type, or an empty one.
abbrev pub Fits : {N J : Type 0} → CellValue N J → CellValueType → Type 0
Fits v t = (type_of v ≡ CellValueType.empty) ⊎ (type_of v ≡ t)
