-- ===== src/Language/Printed.antt =====
-- How the parts of formula-language.ts read what `formatFormulaExpression` writes: the conditions on
-- an expression and on the runtime, and the parts that hold no other expression.
use byok_grid.Common.{
  ℕ, ◌+◌, ◌≤◌, Text, text_eq, Bool, true, false, ◌||◌, ◌≡◌, ◌==◌, refl, arith, Option, some, List,
  [], ◌∷◌, ◌++◌, keep, is_space, ok,
}
use byok_grid.Formula.Values.{Runtime, Value, CellValue}
use byok_grid.Formula.Syntax.{Expression, Arguments, column, literal, call, no_arguments, argument}
use byok_grid.Language.Errors.{Reader, SourceColumn, count_node}
use byok_grid.Language.Lexer.{is_digit, is_letter, scan_number, scan_string, skip_space}
use byok_grid.Language.Words.{has_zone}
use byok_grid.Language.Printer.{format_literal}
use byok_grid.Language.Scans.{scan_number-starts}

-- What JSON.stringify and String promise: a string is quoted with no bare quote inside, and is
-- read back by JSON.parse; a finite number is written in the form of the parser's pattern.
pub record Laws (js : Runtime) (reader : Reader js) : Type 0 where
  pub string_form :
      (t : Text)
      → (body : Text) × (js.string_json t ≡ b'"' ∷ body)
        × (scan_string false body ≡ some (body, []))
  pub string_reads : (t : Text) → reader.parse_json_string (js.string_json t) ≡ some t
  pub number_form :
      (n : js.Number)
      → js.is_finite n ≡ true
      → scan_number (js.number_text n) ≡ some (js.number_text n, [])

-- The first character of a printed expression.
abbrev pub starts : ℕ → Bool
starts c = c == b'[' || (c == b'"' || ((c == b'-' || is_digit c) || is_letter c))

abbrev pub Starts : Text → Type 0
Starts [] = ⊥
Starts (c ∷ s) = starts c ≡ true

starts-is_space : (c : ℕ) → starts c ≡ true → is_space c ≡ false
unfolding is_space
starts-is_space c h = ground arith

pub skip_space-Starts : (t rest : Text) → Starts t → skip_space (t ++ rest) ≡ t ++ rest
unfolding skip_space
skip_space-Starts [] rest h = absurd h
skip_space-Starts (c ∷ s) rest h = rw (starts-is_space c h) refl

pub count_node-adds : (count : ℕ) → count + 1 ≤ 128 → count_node count ≡ ok (count + 1)
unfolding count_node
count_node-adds count h = ground arith

module _ (js : Runtime) (reader : Reader js) (columns : List SourceColumn) where
  -- The name of the id is that of one column, and the id is its id.
  abbrev pub Unambiguous : (ℕ → Option Text) → ℕ → Type 0
  Unambiguous names c =
      (found : SourceColumn) × (names c ≡ some found.name)
      × (found.id ≡ c)
      × (keep (λ column. text_eq column.name found.name) columns ≡ found ∷ [])

  -- The literals that the runtime reads back from their text.
  abbrev pub Readable : Value js → Type 0
  Readable CellValue.empty = Unit
  Readable (CellValue.text t) = Unit
  Readable (CellValue.number n) =
      (js.is_finite n ≡ true) × (reader.to_number (js.number_text n) ≡ n)
  Readable (CellValue.boolean b) = Unit
  Readable (CellValue.timestamp t) = (has_zone t ≡ true) × (reader.read_date t ≡ some t)
  Readable (CellValue.json j) = reader.parse_json (js.json_text j) ≡ some j

  abbrev mutual
    pub Printable : (ℕ → Option Text) → Expression js.Number js.Json → Type 0
    Printable names (column c) = Unambiguous names c
    Printable names (literal v) = Readable v
    Printable names (call f args) = PrintableArguments names args

    pub PrintableArguments : (ℕ → Option Text) → Arguments js.Number js.Json → Type 0
    PrintableArguments names no_arguments = Unit
    PrintableArguments names (argument e rest) = Printable names e × PrintableArguments names rest

  module _ (laws : Laws js reader) where
    pub literal-Starts : (v : Value js) → Readable v → Starts (format_literal js v)
    unfolding scan_number
    literal-Starts CellValue.empty h = refl
    literal-Starts (CellValue.text t) h = let (body, form, _) = laws.string_form t in rw form refl
    literal-Starts (CellValue.number n) h =
        number_starts (js.number_text n) (js.number_text n) [] (laws.number_form n h.0)
      where
        number_starts : (t word after : Text) → scan_number t ≡ some (word, after) → Starts t
        number_starts [] word after h = cc
        number_starts (c ∷ s) word after h =
            let digit = scan_number-starts c s word after h in ground arith
    literal-Starts (CellValue.boolean true) h = refl
    literal-Starts (CellValue.boolean false) h = refl
    literal-Starts (CellValue.timestamp t) h = refl
    literal-Starts (CellValue.json j) h = refl
