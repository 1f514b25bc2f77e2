-- ===== src/Language/Parser.antt =====
-- The parsing of formulas (packages/domain/src/formula-language.ts): `FormulaParser`, whose state
-- is the text that is left and the count of nodes. `levels` counts the depths that are left.
use byok_grid.Common.{
  ℕ, zero, suc, ◌+◌, Text, text_eq, Bool, true, false, ◌||◌, ◌==◌, ltb, Option, none, some, List,
  [], ◌∷◌, keep, length, Result, ok, err, ◌>>=◌, ◌>>◌, require, if◌then◌else◌,
}
use byok_grid.Formula.Values.{Runtime, Value, CellValue}
use byok_grid.Formula.Infer.{maximum_depth}
use byok_grid.Formula.Syntax.{Arguments, column, literal, call, no_arguments, argument}
use byok_grid.Language.Errors.{
  Formula, LanguageError, Parse, Parsed, Reader, SourceColumn, bad_json, bad_number, bad_string,
  bad_timestamp, count_node, empty_reference, expected, expected_operand, infinite_number,
  no_such_column, nothing_entered, out_of_fuel, source_too_long, too_deep, unexpected,
  unknown_function, unterminated_reference, unterminated_string,
}
use byok_grid.Language.Lexer.{
  expect, is_digit, is_letter, is_word, scan_name, scan_number, scan_string, skip_space, span,
}
use byok_grid.Language.Words.{
  Word, function, has_zone, json_literal, look_up, nothing, only, timestamp_literal, truth, unknown,
  upper_word, words,
}

abbrev pub maximum_source_characters : ℕ
maximum_source_characters = 16384

module _ (js : Runtime) (reader : Reader js) (columns : List SourceColumn) where
  -- A literal, counted as a node.
  abbrev pub literal_node : Value js → Parse (Formula js)
  literal_node value rest count = count_node count >>= λ count. ok (literal value, rest, count)

  unfoldable pub reference_matches : Text → Text → Bool
  unfolding text_eq
  reference_matches requested candidate =
      text_eq (reader.normalize requested) (reader.normalize candidate)

  -- The column of the name among those that have it exactly, or else among those that match it.
  abbrev pub among : Text → List SourceColumn → Result LanguageError SourceColumn
  among name [] = only no_such_column (keep (λ column. reference_matches name column.name) columns)
  among name (c ∷ cs) = only no_such_column (c ∷ cs)

  unfoldable pub resolve_column : Text → Result LanguageError SourceColumn
  unfolding reference_matches
  resolve_column name = among name (keep (λ column. text_eq column.name name) columns)

  abbrev pub named_column : ℕ → Option (Text × Text) → Result LanguageError (Parsed (Formula js))
  named_column count none = err unterminated_reference
  named_column count (some ([], rest)) = err empty_reference
  named_column count (some (c ∷ name, rest)) = resolve_column (c ∷ name) >>= λ found.
      count_node count >>= λ count. ok (column found.id, rest, count)

  -- `parseColumn`, after the `[`.
  unfoldable pub parse_column : Parse (Formula js)
  unfolding scan_name resolve_column count_node
  parse_column s count = named_column count (scan_name false s)

  unfoldable pub parse_number : Parse (Formula js)
  unfolding scan_number count_node
  parse_number s count = matched (scan_number s)
    where
      matched : Option (Text × Text) → Result LanguageError (Parsed (Formula js))
      matched none = err bad_number
      matched (some (digits, rest)) =
          require (js.is_finite (reader.to_number digits)) infinite_number
          >> literal_node (CellValue.number (reader.to_number digits)) rest count

  abbrev pub string_value : Text → Option Text → Result LanguageError (Text × Text)
  string_value rest none = err bad_string
  string_value rest (some t) = ok (t, rest)

  abbrev pub encoded_string : Option (Text × Text) → Result LanguageError (Text × Text)
  encoded_string none = err unterminated_string
  encoded_string (some (body, rest)) = string_value rest (reader.parse_json_string (b'"' ∷ body))

  unfoldable pub parse_string : Text → Result LanguageError (Text × Text)
  unfolding expect scan_string
  parse_string s = expect b'"' s >>= λ after. encoded_string (scan_string false after)

  -- What `JSON` or `TIMESTAMP` makes of its string.
  abbrev pub constructed : (is_json : Bool) → Text → Option (Value js)
  constructed true source = json_value (reader.parse_json source)
    where
      json_value : Option js.Json → Option (Value js)
      json_value none = none
      json_value (some j) = some (CellValue.json j)
  constructed false source = if has_zone source then date_value (reader.read_date source) else none
    where
      date_value : Option Text → Option (Value js)
      date_value none = none
      date_value (some t) = some (CellValue.timestamp t)

  -- The `catch` takes the node limit's error for one of the constructor.
  abbrev pub relabel :
      {A : Type 0} → LanguageError → Result LanguageError A → Result LanguageError A
  relabel thrown (ok a) = ok a
  relabel thrown (err e) = err thrown

  abbrev pub constructor_error : (is_json : Bool) → LanguageError
  constructor_error is_json = if is_json then bad_json else bad_timestamp

  abbrev pub constructed_node :
      (is_json : Bool) → ℕ → Text → Option (Value js) → Result LanguageError (Parsed (Formula js))
  constructed_node is_json count s none = err (constructor_error is_json)
  constructed_node is_json count s (some value) =
      relabel (constructor_error is_json) (literal_node value s count)

  unfoldable pub parse_literal_constructor : (is_json : Bool) → Parse (Formula js)
  unfolding skip_space expect parse_string count_node has_zone
  parse_literal_constructor is_json s count = expect b'(' (skip_space s) >>= λ s.
      parse_string (skip_space s) >>= λ (source, s). expect b')' (skip_space s) >>= λ s.
      constructed_node is_json count s (constructed is_json source)

  -- What follows an argument; `more` reads the arguments after a comma.
  unfoldable pub after_argument :
      Parse (Arguments js.Number js.Json) → Formula js → Parse (Arguments js.Number js.Json)
  unfolding skip_space
  after_argument more first [] count = err (expected b',')
  after_argument more first (c ∷ s) count =
      if c == b')'
      then ok (argument first no_arguments, s, count)
      else (require (c == b',') (expected b',')
          >> (more (skip_space s) count >>= λ (others, s, count).
              ok (argument first others, s, count)))

  -- The arguments after the `(` and its spaces; `read` parses one a level deeper.
  unfoldable pub arguments_loop :
      Parse (Formula js) → (fuel : ℕ) → Parse (Arguments js.Number js.Json)
  unfolding skip_space after_argument
  arguments_loop read zero s count = err out_of_fuel
  arguments_loop read (suc fuel) s count = read s count >>= λ (first, s, count).
      after_argument (arguments_loop read fuel) first (skip_space s) count

  unfoldable pub first_argument : Parse (Formula js) → Parse (Arguments js.Number js.Json)
  unfolding arguments_loop
  first_argument read [] count = arguments_loop read 1 [] count
  first_argument read (c ∷ s) count =
      if c == b')'
      then ok (no_arguments, s, count)
      else arguments_loop read (length (c ∷ s) + 1) (c ∷ s) count

  unfoldable pub parse_arguments : Parse (Formula js) → Parse (Arguments js.Number js.Json)
  unfolding skip_space expect first_argument
  parse_arguments read s count =
      expect b'(' (skip_space s) >>= λ s. first_argument read (skip_space s) count

  -- What an identifier makes of the text after it.
  unfoldable pub parse_word : Parse (Formula js) → Word → Parse (Formula js)
  unfolding count_node parse_literal_constructor parse_arguments
  parse_word read (truth b) rest count = literal_node (CellValue.boolean b) rest count
  parse_word read nothing rest count = literal_node CellValue.empty rest count
  parse_word read timestamp_literal rest count = parse_literal_constructor false rest count
  parse_word read json_literal rest count = parse_literal_constructor true rest count
  parse_word read unknown rest count = err unknown_function
  parse_word read (function f) rest count =
      parse_arguments read rest count >>= λ (args, rest, count).
      count_node count >>= λ count. ok (call f args, rest, count)

  unfoldable pub parse_identifier_expression : Parse (Formula js) → Parse (Formula js)
  unfolding span upper_word look_up parse_word
  parse_identifier_expression read s count =
      let (identifier, rest) = span is_word s in
      parse_word read (look_up words (upper_word identifier)) rest count

  -- `parseExpression` on a text whose spaces are skipped; `read` is `parseExpression` one level
  -- deeper.
  unfoldable pub dispatch : Parse (Formula js) → Parse (Formula js)
  unfolding parse_column parse_string count_node parse_number parse_identifier_expression
  dispatch read [] count = err expected_operand
  dispatch read (c ∷ s) count =
      if c == b'['
      then parse_column s count
      else if c == b'"'
      then (parse_string (c ∷ s) >>= λ (t, rest). literal_node (CellValue.text t) rest count)
      else if c == b'-' || is_digit c
      then parse_number (c ∷ s) count
      else if is_letter c
      then parse_identifier_expression read (c ∷ s) count
      else err expected_operand

  unfoldable pub parse_expression : (levels : ℕ) → Parse (Formula js)
  unfolding skip_space dispatch
  parse_expression zero s count = err too_deep
  parse_expression (suc levels) s count = dispatch (parse_expression levels) (skip_space s) count

  -- A leading `=` is skipped.
  abbrev pub skip_equals : Text → Text
  skip_equals [] = []
  skip_equals (c ∷ s) = if c == b'=' then skip_space s else c ∷ s

  -- The expression, when nothing but spaces follows it.
  abbrev pub whole : Parsed (Formula js) → Result LanguageError (Formula js)
  whole (e, [], count) = ok e
  whole (e, c ∷ s, count) = err unexpected

  unfoldable pub parse_entered : Text → Result LanguageError (Formula js)
  unfolding skip_space parse_expression
  parse_entered [] = err nothing_entered
  parse_entered (c ∷ s) = parse_expression maximum_depth (c ∷ s) 0 >>= λ (e, rest, count).
      whole (e, skip_space rest, count)

  unfoldable pub parse : Text → Result LanguageError (Formula js)
  unfolding skip_space parse_entered
  parse source = parse_entered (skip_equals (skip_space source))

  unfoldable pub parse_source : Text → Result LanguageError (Formula js)
  unfolding parse
  parse_source source =
      if ltb maximum_source_characters (length source) then err source_too_long else parse source
