-- ===== src/Language/Consumes.antt =====
-- How much of a text the parts of the parser take that hold no other expression
-- (packages/domain/src/formula-language.ts).
use byok_grid.Common.{
  ℕ, suc, ◌+◌, ◌<◌, ◌≡◌, refl, Text, Bool, true, false, ◌==◌, ltb, Option, none, some, List, [],
  ◌∷◌, length, keep, text_eq, Result, ok, err, ◌>>=◌, Bool-cases, Option-cases, inl, inr, subst,
  arith,
}
use byok_grid.Formula.Values.{Runtime, Value, CellValue}
use byok_grid.Formula.Syntax.{column, literal}
use byok_grid.Formula.Infer.{maximum_nodes}
use byok_grid.Language.Errors.{
  LanguageError, out_of_fuel, no_such_column, SourceColumn, Reader, Parsed, Formula, count_node,
}
use byok_grid.Language.Lexer.{skip_space, expect, scan_name, scan_string, scan_number}
use byok_grid.Language.Words.{only}
use byok_grid.Language.Parser.{
  literal_node, reference_matches, resolve_column, among, named_column, string_value,
  encoded_string, constructor_error, constructed_node, parse_column, parse_number, parse_string,
  constructed, relabel, parse_literal_constructor,
}
use byok_grid.Language.Shrinks.{
  Leaves, length-skip_space, scan_name-Leaves, scan_string-Leaves, scan_number-Leaves,
}

abbrev pub is_fuel : LanguageError → Bool
is_fuel out_of_fuel = true
is_fuel _ = false

-- The result leaves less than `n` by the measure, and is no lack of fuel.
abbrev pub Left : {A : Type 0} → (A → ℕ) → ℕ → Result LanguageError A → Type 0
Left measure n (ok a) = measure a < n
Left measure n (err e) = is_fuel e ≡ false

abbrev pub left_over : {A : Type 0} → Parsed A → ℕ
left_over parsed = length parsed.1

abbrev pub Shortens : {A : Type 0} → ℕ → Result LanguageError (Parsed A) → Type 0
Shortens = Left left_over

module _ {A B : Type 0} (measure : A → ℕ) (measure' : B → ℕ) where
  pub Left-bind :
      (m n : ℕ) (first : Result LanguageError A) (next : A → Result LanguageError B)
      → Left measure m first
      → ((a : A) → measure a < m → Left measure' n (next a))
      → Left measure' n (first >>= next)
  Left-bind m n (ok a) next left each = each a left
  Left-bind m n (err e) next left each = left

count_node-Left : (count : ℕ) → Left (λ _. 0) 1 (count_node count)
unfolding count_node
count_node-Left count = elim (Bool-cases (ltb maximum_nodes (count + 1))) [
  | inl e ↦ rw e refl
  | inr e ↦ rw e (omega arith)
]

pub expect-Left : (c : ℕ) (s : Text) → Left length (length s) (expect c s)
unfolding expect
expect-Left c [] = refl
expect-Left c (d ∷ s) = elim (Bool-cases (d == c)) [
  | inl e ↦ rw e (omega arith)
  | inr e ↦ rw e refl
]

only-Left :
    (missing : LanguageError) (columns : List SourceColumn)
    → is_fuel missing ≡ false
    → Left (λ _. 0) 1 (only missing columns)
only-Left missing [] h = h
only-Left missing (c ∷ []) h = omega arith
only-Left missing (c ∷ d ∷ cs) h = refl

module _ (js : Runtime) (reader : Reader js) (columns : List SourceColumn) where
  resolve_column-Left : (name : Text) → Left (λ _. 0) 1 (resolve_column js reader columns name)
  unfolding resolve_column
  resolve_column-Left name = among_left (keep (λ column. text_eq column.name name) columns)
    where
      among_left :
          (found : List SourceColumn) → Left (λ _. 0) 1 (among js reader columns name found)
      among_left [] =
          only-Left no_such_column
            (keep (λ column. reference_matches js reader columns name column.name) columns) refl
      among_left (c ∷ cs) = only-Left no_such_column (c ∷ cs) refl

  pub node-Shortens :
      {A : Type 0} (a : A) (rest : Text) (count n : ℕ)
      → length rest < n
      → Shortens n (count_node count >>= λ count. ok (a, rest, count))
  node-Shortens {A} a rest count n h =
      Left-bind (λ _. 0) (left_over {A = A}) 1 n (count_node count) (λ count. ok (a, rest, count))
        (count_node-Left count) (λ count _. h)

  pub parse_column-Shortens :
      (s : Text) (count : ℕ) → Shortens (suc (length s)) (parse_column js reader columns s count)
  unfolding parse_column
  parse_column-Shortens s count = named (scan_name false s) (scan_name-Leaves false s)
    where
      named :
          (o : Option (Text × Text))
          → Leaves (length s) o
          → Shortens (suc (length s)) (named_column js reader columns count o)
      named none h = refl
      named (some ([], rest)) h = refl
      named (some (c ∷ name, rest)) h =
          Left-bind (λ _. 0) left_over 1 (suc (length s))
            (resolve_column js reader columns (c ∷ name)) _ (resolve_column-Left (c ∷ name))
            (λ found _. node-Shortens (column found.id) rest count (suc (length s)) (omega arith))

  pub parse_number-Shortens :
      (c : ℕ) (s : Text) (count : ℕ)
      → Shortens (suc (length s)) (parse_number js reader columns (c ∷ s) count)
  unfolding parse_number
  parse_number-Shortens c s count = elim (Option-cases (scan_number (c ∷ s))) [
    | inl e ↦ rw e refl
    | inr ((word, rest), e) ↦
        let left = subst (Leaves (length s)) e (scan_number-Leaves c s) in
        rw e (elim (Bool-cases (js.is_finite (reader.to_number word))) [
          | inl finite ↦ rw finite (
              node-Shortens (literal (CellValue.number (reader.to_number word))) rest count
                (suc (length s)) (omega arith))
          | inr infinite ↦ rw infinite refl
        ])
  ]

  pub parse_string-Left :
      (s : Text) → Left (λ p. length p.1) (length s) (parse_string js reader columns s)
  unfolding parse_string
  parse_string-Left s =
      Left-bind length (λ p. length p.1) (length s) (length s) (expect b'"' s) _
        (expect-Left b'"' s)
        (λ after h. encoded after h (scan_string false after) (scan_string-Leaves false after))
    where
      value :
          (rest : Text) (o : Option Text)
          → length rest < length s
          → Left (λ p. length p.1) (length s) (string_value js reader columns rest o)
      value rest none h = refl
      value rest (some t) h = h

      encoded :
          (after : Text)
          → length after < length s
          → (o : Option (Text × Text)) → Leaves (length after) o
          → Left (λ p. length p.1) (length s) (encoded_string js reader columns o)
      encoded after h none leaves = refl
      encoded after h (some (body, rest)) leaves =
          value rest (reader.parse_json_string (b'"' ∷ body)) (omega arith)

  relabelled :
      (is_json : Bool) (count n : ℕ) (s : Text) (o : Option (Value js))
      → length s < n
      → Shortens n (constructed_node js reader columns is_json count s o)
  relabelled true count n s none h = refl
  relabelled false count n s none h = refl
  relabelled is_json count n s (some value) h =
      either is_json (literal_node js reader columns value s count)
        (node-Shortens (literal value) s count n h)
    where
      either :
          (is_json : Bool) (r : Result LanguageError (Parsed (Formula js)))
          → Shortens n r
          → Shortens n (relabel js reader columns (constructor_error js reader columns is_json) r)
      either is_json (ok a) h = h
      either true (err e) h = refl
      either false (err e) h = refl

  pub parse_literal_constructor-Shortens :
      (is_json : Bool) (s : Text) (count : ℕ)
      → Shortens (length s) (parse_literal_constructor js reader columns is_json s count)
  unfolding parse_literal_constructor
  parse_literal_constructor-Shortens is_json s count =
      Left-bind length left_over (length (skip_space s)) (length s) (expect b'(' (skip_space s)) _
        (expect-Left b'(' (skip_space s))
        (λ s1 h1.
          Left-bind (λ p. length p.1) left_over (length (skip_space s1)) (length s)
            (parse_string js reader columns (skip_space s1)) _ (parse_string-Left (skip_space s1))
            (λ p h2.
              Left-bind length left_over (length (skip_space p.1)) (length s)
                (expect b')' (skip_space p.1)) _ (expect-Left b')' (skip_space p.1))
                (λ s3 h3.
                  relabelled is_json count (length s) s3 (constructed js reader columns is_json p.0)
                    (omega
                      (arith, length-skip_space s, length-skip_space s1, length-skip_space p.1)))))
