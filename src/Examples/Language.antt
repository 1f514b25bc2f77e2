-- ===== src/Examples/Language.antt =====
-- The text form of formulas (packages/domain/src/formula-language.ts) on small inputs. Numbers are
-- their decimal digits here, and a text has no character that JSON escapes.
use byok_grid.Common.{
  ℕ, ◌≡◌, ◌≢◌, refl, Text, codes, text_eq, text_eq→eq, ap, arith, Bool, true, false, Option, none,
  some, List, [], ◌∷◌, ok, err, ◌==◌, if◌then◌else◌,
}
use byok_grid.Formula.Values.{CellValueType, CellValue, Runtime}
use byok_grid.Formula.Syntax.{Function, Expression, column, literal, call, no_arguments, argument}
use byok_grid.Language.Errors.{Reader, SourceColumn, LanguageError}
use byok_grid.Language.Lexer.{scan_number, scan_string}
use byok_grid.Language.Printed.{Laws}
use byok_grid.Language.Terminates.{parse_source-ends}
use byok_grid.Language.RoundTrip.{parse_source-format_expression}
use byok_grid.Language.Parser.{parse_source}
use byok_grid.Language.Printer.{format_expression}

-- A string up to its closing quote: a backslash stands before each quote and backslash in it.
abbrev escaped : Text → Text
escaped [] = b'"' ∷ []
escaped (c ∷ s) =
    let rest = escaped s in
    if c == b'"' then b'\\' ∷ c ∷ rest else if c == b'\\' then b'\\' ∷ c ∷ rest else c ∷ rest

abbrev with : ℕ → Option Text → Option Text
with c none = none
with c (some t) = some (c ∷ t)

abbrev unescaped : Bool → Text → Option Text
unescaped after_backslash [] = none
unescaped true (c ∷ s) = with c (unescaped false s)
unescaped false (c ∷ s) =
    let escape = unescaped true s in
    let plain = unescaped false s in
    if c == b'"' then some [] else if c == b'\\' then escape else with c plain

abbrev unquoted : Text → Option Text
unquoted [] = none
unquoted (c ∷ s) = unescaped false s

abbrev all_of : Text → Option (Text × Text) → Bool
all_of n none = false
all_of n (some (word, [])) = text_eq word n
all_of n (some (word, c ∷ s)) = false

-- A number is a text, finite when it is a decimal.
abbrev js : Runtime
js = record {
  Number = Text;
  Json = Unit;
  nan = [];
  zero_number = codes "0";
  is_finite = λ n. all_of n (scan_number n);
  is_zero = λ n. text_eq n (codes "0");
  add = λ a b. a;
  subtract = λ a b. a;
  multiply = λ a b. a;
  divide = λ a b. a;
  number_text = λ n. n;
  json_text = λ _. codes "{}";
  number_json = λ n. n;
  string_json = λ t. b'"' ∷ escaped t;
  lower = λ t. t;
  upper = λ t. t;
  trim = λ t. t;
  Date = Text;
  null_json = tt;
  new_date = λ t. t;
  epoch = [];
  to_iso_string = λ d. d;
}

abbrev reader : Reader js
reader = record {
  to_number = λ t. t;
  parse_json = λ t. some tt;
  parse_json_string = unquoted;
  read_date = λ t. some t;
  normalize = λ t. t;
}

escaped_scanned : (t : Text) → scan_string false (escaped t) ≡ some (escaped t, [])
unfolding scan_string
escaped_scanned [] = refl
escaped_scanned (c ∷ s) = let rest = escaped_scanned s in ground (arith, rest)

escaped_reads : (t : Text) → unescaped false (escaped t) ≡ some t
escaped_reads [] = refl
escaped_reads (c ∷ s) = let rest = escaped_reads s in ground (arith, rest)

all_of-eq : (n : Text) (o : Option (Text × Text)) → all_of n o ≡ true → o ≡ some (n, [])
all_of-eq n none h = cc
all_of-eq n (some (word, [])) h = ap (λ w. some (w, [])) (text_eq→eq word n h)
all_of-eq n (some (word, c ∷ s)) h = cc

laws : Laws js reader
laws = record {
  string_form = λ t. (escaped t, refl, escaped_scanned t);
  string_reads = escaped_reads;
  number_form = λ n h. all_of-eq n (scan_number n) h;
}

abbrev columns : List SourceColumn
columns =
    record { id = 1; name = codes "a]b"; value_type = CellValueType.number }
    ∷ record { id = 2; name = codes "x"; value_type = CellValueType.number }
    ∷ []

abbrev names : ℕ → Option Text
names id = if id == 1 then some (codes "a]b") else if id == 2 then some (codes "x") else none

abbrev sum : Expression Text Unit
sum = call Function.add (
    argument (column 1) (
      argument
        (call Function.choose (
          argument (literal (CellValue.number (codes "-1.5e+3"))) (
            argument (literal (CellValue.text (codes "hi")))
              (argument (literal (CellValue.boolean true)) no_arguments))))
        no_arguments))

format_sum : format_expression js names sum ≡ ok (codes "ADD([a]]b], IF(-1.5e+3, \"hi\", TRUE))")
unfolding format_expression
format_sum = refl

parse_sum :
    parse_source js reader columns (codes " = add( [a]]b] ,If(-1.5e+3, \"hi\", TRUE))") ≡ ok sum
unfolding parse_source
parse_sum = refl

parse_source-format_expression_example :
    parse_source js reader columns (codes "ADD([a]]b], IF(-1.5e+3, \"hi\", TRUE))") ≡ ok sum
unfolding format_expression text_eq scan_number
parse_source-format_expression_example =
    parse_source-format_expression js reader columns names laws sum
      (codes "ADD([a]]b], IF(-1.5e+3, \"hi\", TRUE))")
      (
        (
          record { id = 1; name = codes "a]b"; value_type = CellValueType.number },
          refl,
          refl,
          refl,
        ),
        (((refl, refl), (tt, (tt, tt))), tt),
      )
      refl (omega arith) (omega arith) (omega arith)

parse_source-ends_example :
    parse_source js reader columns (codes "ADD([x], IF(1") ≢ err LanguageError.out_of_fuel
parse_source-ends_example = parse_source-ends js reader columns (codes "ADD([x], IF(1")
