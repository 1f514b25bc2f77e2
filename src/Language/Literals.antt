-- ===== src/Language/Literals.antt =====
-- How formula-language.ts reads the literals and the column references that it prints
-- (packages/domain/src/formula-language.ts).
use byok_grid.Common.{
  ℕ, ◌+◌, ◌≤◌, Text, codes, text_eq, Bool, true, false, ◌≡◌, ◌==◌, refl, sym, subst, arith, Option,
  some, List, [], ◌∷◌, ◌++◌, keep, is_space, ok, append_assoc, ◌∙◌,
}
use byok_grid.Formula.Values.{Runtime, Value, CellValue}
use byok_grid.Formula.Syntax.{column, literal}
use byok_grid.Language.Errors.{Formula, Parse, Reader, SourceColumn}
use byok_grid.Language.Lexer.{is_word, scan_number, scan_string, scanned, skip_space, span}
use byok_grid.Language.Words.{look_up, upper_word, words}
use byok_grid.Language.Parser.{
  constructed, dispatch, literal_node, parse_column, parse_identifier_expression,
  parse_literal_constructor, parse_number, parse_string, parse_word, resolve_column,
}
use byok_grid.Language.Printer.{column_reference, escape_name, format_column, format_literal}
use byok_grid.Language.Scans.{
  Ends, Extends, Stops, Stops-Ends, scan_name-escape_name, scan_number-Extends, scan_number-starts,
  scan_string-Extends, span-append,
}
use byok_grid.Language.Printed.{
  Laws, Readable, Unambiguous, count_node-adds, literal-Starts, skip_space-Starts,
}

module _ (js : Runtime) (reader : Reader js) (columns : List SourceColumn) where
  module _ (laws : Laws js reader) where
    pub parse_string-string_json :
        (t rest : Text) → parse_string js reader columns (js.string_json t ++ rest) ≡ ok (t, rest)
    unfolding parse_string
    parse_string-string_json t rest =
        let (body, form, scanned) = laws.string_form t in
        let longer =
          subst (λ o. Extends o rest (scan_string false (body ++ rest))) scanned
            (scan_string-Extends false body rest) in
        let reads = subst (λ u. reader.parse_json_string u ≡ some t) form (laws.string_reads t) in
        rw form (rw longer (rw reads refl))

    parse_number-number_text :
        (n : js.Number) (rest : Text) (count : ℕ)
        → Readable js reader columns (CellValue.number n)
        → Stops rest
        → count + 1 ≤ 128
        → parse_number js reader columns (js.number_text n ++ rest) count
          ≡ ok (literal (CellValue.number n), rest, count + 1)
    unfolding parse_number
    parse_number-number_text n rest count (finite, reads) stops room =
        let longer =
          subst (λ o. Extends o rest (scan_number (js.number_text n ++ rest)))
            (laws.number_form n finite) (scan_number-Extends (js.number_text n) rest stops) in
        rw longer (rw reads (rw finite (rw (count_node-adds count room) refl)))

    parse_literal_constructor-reads :
        (is_json : Bool) (source : Text) (value : Value js) (rest : Text) (count : ℕ)
        → constructed js reader columns is_json source ≡ some value
        → count + 1 ≤ 128
        → parse_literal_constructor js reader columns is_json
            (b'(' ∷ js.string_json source ++ b')' ∷ rest)
            count
          ≡ ok (literal value, rest, count + 1)
    unfolding parse_literal_constructor is_space
    parse_literal_constructor-reads is_json source value rest count makes room =
        rw (string_skipped source (b')' ∷ rest)) (
          rw (parse_string-string_json source (b')' ∷ rest))
            (rw makes (rw (count_node-adds count room) refl)))
      where
        string_skipped :
            (t more : Text) → skip_space (js.string_json t ++ more) ≡ js.string_json t ++ more
        string_skipped t more =
            skip_space-Starts (js.string_json t) more
              (literal-Starts js reader columns laws (CellValue.text t) tt)

    word-Ends : (rest : Text) → Stops rest → Ends is_word rest
    word-Ends rest stops = Stops-Ends is_word rest refl refl stops

    -- An identifier is read as what it stands for when no character of one follows it.
    pub parse_identifier_expression-word :
        (read : Parse (Formula js)) (w rest : Text) (count : ℕ)
        → span is_word w ≡ (w, [])
        → Ends is_word rest
        → parse_identifier_expression js reader columns read (w ++ rest) count
          ≡ parse_word js reader columns read (look_up words (upper_word w)) rest count
    unfolding parse_identifier_expression
    parse_identifier_expression-word read w rest count is_identifier ends =
        rw (span-append is_word w rest ends) (rw is_identifier refl)

    literal_node-counts :
        (v : Value js) (rest : Text) (count : ℕ)
        → count + 1 ≤ 128
        → literal_node js reader columns v rest count ≡ ok (literal v, rest, count + 1)
    literal_node-counts v rest count room = rw (count_node-adds count room) refl

    dispatch-number :
        (read : Parse (Formula js)) (t rest word after : Text) (count : ℕ)
        → scan_number t ≡ some (word, after)
        → dispatch js reader columns read (t ++ rest) count
          ≡ parse_number js reader columns (t ++ rest) count
    unfolding dispatch scan_number
    dispatch-number read [] rest word after count h = cc
    dispatch-number read (c ∷ s) rest word after count h =
        let digit = scan_number-starts c s word after h in ground arith

    pub dispatch-format_literal :
        (read : Parse (Formula js)) (v : Value js) (rest : Text) (count : ℕ)
        → Readable js reader columns v
        → Stops rest
        → count + 1 ≤ 128
        → dispatch js reader columns read (format_literal js v ++ rest) count
          ≡ ok (literal v, rest, count + 1)
    unfolding dispatch parse_word
    dispatch-format_literal read CellValue.empty rest count h stops room =
        parse_identifier_expression-word read (codes "EMPTY") rest count refl (word-Ends rest stops)
        ∙ literal_node-counts CellValue.empty rest count room
    dispatch-format_literal read (CellValue.text t) rest count h stops room =
        let (body, form, _) = laws.string_form t in
        let reads =
          subst (λ u. parse_string js reader columns (u ++ rest) ≡ ok (t, rest)) form
            (parse_string-string_json t rest) in
        rw form (rw reads (literal_node-counts (CellValue.text t) rest count room))
    dispatch-format_literal read (CellValue.number n) rest count h stops room =
        dispatch-number read (js.number_text n) rest (js.number_text n) [] count
          (laws.number_form n h.0)
        ∙ parse_number-number_text n rest count h stops room
    dispatch-format_literal read (CellValue.boolean true) rest count h stops room =
        parse_identifier_expression-word read (codes "TRUE") rest count refl (word-Ends rest stops)
        ∙ literal_node-counts (CellValue.boolean true) rest count room
    dispatch-format_literal read (CellValue.boolean false) rest count h stops room =
        parse_identifier_expression-word read (codes "FALSE") rest count refl (word-Ends rest stops)
        ∙ literal_node-counts (CellValue.boolean false) rest count room
    dispatch-format_literal read (CellValue.timestamp t) rest count (zone, reads) stops room =
        rw (append_assoc (js.string_json t) (b')' ∷ []) rest) (
          parse_identifier_expression-word read (codes "TIMESTAMP")
            (b'(' ∷ js.string_json t ++ b')' ∷ rest) count refl refl
          ∙ parse_literal_constructor-reads false t (CellValue.timestamp t) rest count
              (rw zone (rw reads refl)) room)
    dispatch-format_literal read (CellValue.json j) rest count h stops room =
        rw (append_assoc (js.string_json (js.json_text j)) (b')' ∷ []) rest) (
          parse_identifier_expression-word read (codes "JSON")
            (b'(' ∷ js.string_json (js.json_text j) ++ b')' ∷ rest) count refl refl
          ∙ parse_literal_constructor-reads true (js.json_text j) (CellValue.json j) rest count
              (rw h refl) room)

    column_reference-reads :
        (read : Parse (Formula js)) (found : SourceColumn) (name : Text) (c : ℕ) (text rest : Text)
        (count : ℕ)
        → keep (λ column. text_eq column.name name) columns ≡ found ∷ []
        → format_column c (some name) ≡ ok text
        → Stops rest
        → count + 1 ≤ 128
        → dispatch js reader columns read (text ++ rest) count
          ≡ ok (column found.id, rest, count + 1)
    unfolding dispatch parse_column column_reference resolve_column
    column_reference-reads read found [] c text rest count one shown stops room = cc
    column_reference-reads read found (d ∷ name) c text rest count one shown stops room =
        let written : column_reference (d ∷ name) ≡ text = cc in
        rw (sym written) (
          rw (append_assoc (escape_name (d ∷ name)) (b']' ∷ []) rest) (
            rw
              (scan_name-escape_name (d ∷ name) rest
                (Stops-Ends (λ c. c == b']') rest refl refl stops))
              (rw one (rw (count_node-adds count room) refl))))

    pub dispatch-column_reference :
        (read : Parse (Formula js)) (names : ℕ → Option Text) (c : ℕ) (text rest : Text) (count : ℕ)
        → Unambiguous js reader columns names c
        → format_column c (names c) ≡ ok text
        → Stops rest
        → count + 1 ≤ 128
        → dispatch js reader columns read (text ++ rest) count ≡ ok (column c, rest, count + 1)
    dispatch-column_reference read names c text rest count (found, named, same, one) shown stops
          room =
        let shown : format_column c (some found.name) ≡ ok text =
          subst (λ o. format_column c o ≡ ok text) named shown in
        subst
          (λ id.
            dispatch js reader columns read (text ++ rest) count ≡ ok (column id, rest, count + 1))
          same (column_reference-reads read found found.name c text rest count one shown stops room)
