-- ===== src/Language/Errors.antt =====
-- What formula-language.ts throws, without the positions and the names of its messages, and what
-- it takes from the JavaScript runtime beyond Formula.Values.Runtime.
use byok_grid.Common.{ℕ, Text, Option, Result, err, ok, ltb, if◌then◌else◌, ◌+◌}
use byok_grid.Formula.Values.{Runtime, CellValueType}
use byok_grid.Formula.Syntax.{Expression}
use byok_grid.Formula.Infer.{maximum_nodes}

pub data LanguageError : Type 0 where
  source_too_long nothing_entered unexpected too_deep expected_operand : LanguageError
  empty_reference unterminated_reference ambiguous_column no_such_column : LanguageError
  bad_number infinite_number unknown_function too_many_nodes : LanguageError
  expected : ℕ → LanguageError
  bad_string unterminated_string bad_json bad_timestamp : LanguageError
  column_not_available : ℕ → LanguageError
  out_of_fuel : LanguageError

pub record SourceColumn : Type 0 where
  pub id : ℕ
  pub name : Text
  pub value_type : CellValueType

-- `Number`, `JSON.parse`, `new Date(…).toISOString()` and the normalization of names, none where
-- they throw or give no value.
pub record Reader (js : Runtime) : Type 0 where
  pub to_number : Text → js.Number
  pub parse_json : Text → Option js.Json
  pub parse_json_string : Text → Option Text
  pub read_date : Text → Option Text
  pub normalize : Text → Text

-- What is read, what follows it, and the nodes that have been counted.
abbrev pub Parsed : Type 0 → Type 0
Parsed A = A × Text × ℕ

abbrev pub Parse : Type 0 → Type 0
Parse A = Text → ℕ → Result LanguageError (Parsed A)

abbrev pub Formula : Runtime → Type 0
Formula js = Expression js.Number js.Json

-- `this.node(…)`: the count with this node.
unfoldable pub count_node : ℕ → Result LanguageError ℕ
count_node count =
    if ltb maximum_nodes (count + 1) then err LanguageError.too_many_nodes else ok (count + 1)
