-- ===== src/Language/Printer.antt =====
-- The printing of formulas (packages/domain/src/formula-language.ts).
use byok_grid.Common.{
  ℕ, Text, codes, Option, none, some, List, [], ◌∷◌, ◌++◌, ◌==◌, Result, ok, err, ◌>>=◌,
  if◌then◌else◌,
}
use byok_grid.Formula.Values.{Runtime, Value, CellValue}
use byok_grid.Formula.Syntax.{
  Function, add, coalesce, concat, divide, equals, choose, lower, multiply, subtract, trim, upper,
  Expression, Arguments, column, literal, call, no_arguments, argument,
}
use byok_grid.Language.Errors.{LanguageError, column_not_available}

-- The names of `formulaFunctionSchema`, in upper case.
abbrev pub function_name : Function → Text
function_name add = codes "ADD"
function_name coalesce = codes "COALESCE"
function_name concat = codes "CONCAT"
function_name divide = codes "DIVIDE"
function_name equals = codes "EQUALS"
function_name choose = codes "IF"
function_name lower = codes "LOWER"
function_name multiply = codes "MULTIPLY"
function_name subtract = codes "SUBTRACT"
function_name trim = codes "TRIM"
function_name upper = codes "UPPER"

-- `name.replaceAll(']', ']]')`
unfoldable pub escape_name : Text → Text
escape_name [] = []
escape_name (c ∷ s) = let rest = escape_name s in if c == b']' then c ∷ c ∷ rest else c ∷ rest

unfoldable pub column_reference : Text → Text
unfolding escape_name
column_reference name = b'[' ∷ escape_name name ++ b']' ∷ []

-- A column's text; a missing name and an empty one are refused alike.
abbrev pub format_column : ℕ → Option Text → Result LanguageError Text
format_column id none = err (column_not_available id)
format_column id (some []) = err (column_not_available id)
format_column id (some (c ∷ name)) = ok (column_reference (c ∷ name))

-- `texts.join(', ')`, the first text apart.
unfoldable pub join_more : List Text → Text
join_more [] = []
join_more (t ∷ ts) = b',' ∷ b' ' ∷ t ++ join_more ts

abbrev pub join_commas : List Text → Text
join_commas [] = []
join_commas (t ∷ ts) = t ++ join_more ts

abbrev pub call_text : Function → List Text → Text
call_text f texts = function_name f ++ (b'(' ∷ join_commas texts ++ b')' ∷ [])

module _ (js : Runtime) where
  abbrev pub format_literal : Value js → Text
  format_literal CellValue.empty = codes "EMPTY"
  format_literal (CellValue.text t) = js.string_json t
  format_literal (CellValue.number n) = js.number_text n
  format_literal (CellValue.boolean b) = if b then codes "TRUE" else codes "FALSE"
  format_literal (CellValue.timestamp t) = codes "TIMESTAMP" ++ b'(' ∷ js.string_json t ++ b')' ∷ []
  format_literal (CellValue.json j) =
      codes "JSON" ++ b'(' ∷ js.string_json (js.json_text j) ++ b')' ∷ []

module _ (js : Runtime) (names : ℕ → Option Text) where
  unfoldable mutual
    unfolding column_reference join_more

    pub format_expression : Expression js.Number js.Json → Result LanguageError Text
    format_expression (column c) = format_column c (names c)
    format_expression (literal v) = ok (format_literal js v)
    format_expression (call f args) = format_arguments args >>= λ texts. ok (call_text f texts)

    pub format_arguments : Arguments js.Number js.Json → Result LanguageError (List Text)
    format_arguments no_arguments = ok []
    format_arguments (argument e rest) =
        format_expression e >>= λ text. format_arguments rest >>= λ texts. ok (text ∷ texts)
