-- ===== src/Language/Terminates.antt =====
-- The loop on a call's arguments (packages/domain/src/formula-language.ts, parseArguments) against
-- the rounds that the model gives it.
use byok_grid.Common.{
  ℕ, zero, suc, ◌+◌, ◌≤◌, ◌<◌, ◌≡◌, ◌≢◌, refl, Text, Bool, true, false, ◌||◌, ◌==◌, ltb, List, [],
  ◌∷◌, length, Result, ok, err, ◌>>=◌, if◌then◌else◌, Bool-cases, inl, inr, subst, arith,
}
use byok_grid.Formula.Values.{Runtime, CellValue}
use byok_grid.Formula.Syntax.{Arguments, literal, call}
use byok_grid.Language.Errors.{
  LanguageError, out_of_fuel, SourceColumn, Reader, Parsed, Parse, Formula,
}
use byok_grid.Language.Lexer.{is_digit, is_letter, is_word, span, skip_space, expect}
use byok_grid.Language.Words.{
  Word, truth, nothing, timestamp_literal, json_literal, unknown, function, words, look_up,
  upper_word,
}
use byok_grid.Language.Parser.{
  literal_node, parse_string, after_argument, arguments_loop, first_argument, parse_arguments,
  parse_word, parse_identifier_expression, dispatch, parse_expression, maximum_source_characters,
  skip_equals, whole, parse_entered, parse, parse_source,
}
use byok_grid.Language.Shrinks.{length-span, length-skip_space}
use byok_grid.Language.Consumes.{
  is_fuel, Left, left_over, Shortens, Left-bind, expect-Left, node-Shortens, parse_column-Shortens,
  parse_number-Shortens, parse_string-Left, parse_literal_constructor-Shortens,
}

module _ (js : Runtime) (reader : Reader js) (columns : List SourceColumn) where
  -- A parse that shortens every text.
  abbrev Shortening : Parse (Formula js) → Type 0
  Shortening read = (s : Text) (count : ℕ) → Shortens (length s) (read s count)

  wider :
      {A : Type 0} (n m : ℕ) (r : Result LanguageError (Parsed A))
      → n ≤ m
      → Shortens n r
      → Shortens m r
  wider n m (ok a) h left = omega arith
  wider n m (err e) h left = left

  after_argument-Shortens :
      (more : Parse (Arguments js.Number js.Json)) (first : Formula js) (s : Text) (count : ℕ)
      → ((t : Text) (count : ℕ) → length t < length s → Shortens (length t) (more t count))
      → Shortens (length s) (after_argument js reader columns more first s count)
  unfolding after_argument
  after_argument-Shortens more first [] count shortens = refl
  after_argument-Shortens more first (c ∷ s) count shortens = elim (Bool-cases (c == b')')) [
    | inl e ↦ rw e (omega arith)
    | inr e ↦ rw e (elim (Bool-cases (c == b',')) [
      | inl q ↦ rw q (
          Left-bind left_over left_over (length (skip_space s)) (length (c ∷ s))
            (more (skip_space s) count) _
            (shortens (skip_space s) count (omega (arith, length-skip_space s)))
            (λ parsed h. omega (arith, length-skip_space s)))
      | inr q ↦ rw q refl
    ])
  ]

  arguments_loop-Shortens :
      (read : Parse (Formula js)) (fuel : ℕ) (s : Text) (count : ℕ)
      → Shortening read
      → length s < fuel
      → Shortens (length s) (arguments_loop js reader columns read fuel s count)
  unfolding arguments_loop
  arguments_loop-Shortens read zero s count shortening h = absurd (omega arith)
  arguments_loop-Shortens read (suc fuel) s count shortening h =
      Left-bind left_over left_over (length s) (length s) (read s count) _ (shortening s count)
        (λ p left.
          wider (length (skip_space p.1)) (length s) _ (omega (arith, length-skip_space p.1)) (
            after_argument-Shortens (arguments_loop js reader columns read fuel) p.0
              (skip_space p.1) p.2
              (λ t k shorter.
                arguments_loop-Shortens read fuel t k shortening
                  (omega (arith, length-skip_space p.1)))))

  first_argument-Shortens :
      (read : Parse (Formula js)) (s : Text) (count : ℕ)
      → Shortening read
      → Shortens (length s) (first_argument js reader columns read s count)
  unfolding first_argument
  first_argument-Shortens read [] count shortening =
      arguments_loop-Shortens read 1 [] count shortening (omega arith)
  first_argument-Shortens read (c ∷ s) count shortening = elim (Bool-cases (c == b')')) [
    | inl e ↦ rw e (omega arith)
    | inr e ↦
        rw e
          (arguments_loop-Shortens read (length (c ∷ s) + 1) (c ∷ s) count shortening (omega arith))
  ]

  parse_arguments-Shortens :
      (read : Parse (Formula js)) (s : Text) (count : ℕ)
      → Shortening read
      → Shortens (length s) (parse_arguments js reader columns read s count)
  unfolding parse_arguments
  parse_arguments-Shortens read s count shortening =
      Left-bind length left_over (length (skip_space s)) (length s) (expect b'(' (skip_space s)) _
        (expect-Left b'(' (skip_space s))
        (λ t h.
          wider (length (skip_space t)) (length s) _
            (omega (arith, length-skip_space s, length-skip_space t))
            (first_argument-Shortens read (skip_space t) count shortening))

  parse_word-Shortens :
      (read : Parse (Formula js)) (word : Word) (s : Text) (count : ℕ)
      → Shortening read
      → Shortens (suc (length s)) (parse_word js reader columns read word s count)
  unfolding parse_word
  parse_word-Shortens read (truth b) s count shortening =
      node-Shortens js reader columns (literal (CellValue.boolean b)) s count (suc (length s))
        (omega arith)
  parse_word-Shortens read nothing s count shortening =
      node-Shortens js reader columns (literal CellValue.empty) s count (suc (length s))
        (omega arith)
  parse_word-Shortens read timestamp_literal s count shortening =
      wider (length s) (suc (length s)) _ (omega arith)
        (parse_literal_constructor-Shortens js reader columns false s count)
  parse_word-Shortens read json_literal s count shortening =
      wider (length s) (suc (length s)) _ (omega arith)
        (parse_literal_constructor-Shortens js reader columns true s count)
  parse_word-Shortens read unknown s count shortening = refl
  parse_word-Shortens read (function f) s count shortening =
      Left-bind left_over left_over (length s) (suc (length s))
        (parse_arguments js reader columns read s count) _
        (parse_arguments-Shortens read s count shortening)
        (λ p h. node-Shortens js reader columns (call f p.0) p.1 p.2 (suc (length s)) (omega arith))

  parse_identifier_expression-Shortens :
      (read : Parse (Formula js)) (c : ℕ) (s : Text) (count : ℕ)
      → Shortening read
      → is_letter c ≡ true
      → Shortens (suc (length s)) (parse_identifier_expression js reader columns read (c ∷ s) count)
  unfolding parse_identifier_expression
  parse_identifier_expression-Shortens read c s count shortening letter =
      let word : is_word c ≡ true = rw letter refl in
      rw word (
        wider (suc (length (span is_word s).1)) (suc (length s)) _
          (omega (arith, length-span is_word s))
          (parse_word-Shortens read (look_up words (upper_word (c ∷ (span is_word s).0)))
            (span is_word s).1 count shortening))

  branch :
      (n : ℕ) (b : Bool) (x y : Result LanguageError (Parsed (Formula js)))
      → (b ≡ true → Shortens n x)
      → (b ≡ false → Shortens n y)
      → Shortens n (if b then x else y)
  branch n true x y taken skipped = taken refl
  branch n false x y taken skipped = skipped refl

  dispatch-Shortens :
      (read : Parse (Formula js)) (s : Text) (count : ℕ)
      → Shortening read
      → Shortens (length s) (dispatch js reader columns read s count)
  unfolding dispatch
  dispatch-Shortens read [] count shortening = refl
  dispatch-Shortens read (c ∷ s) count shortening =
      branch n (c == b'[') _ _ (λ e. parse_column-Shortens js reader columns s count)
        (λ e.
          branch n (c == b'"') _ _ (λ q. quoted)
            (λ q.
              branch n (c == b'-' || is_digit c) _ _
                (λ d. parse_number-Shortens js reader columns c s count)
                (λ d.
                  branch n (is_letter c) _ _
                    (λ l. parse_identifier_expression-Shortens read c s count shortening l)
                    (λ l. refl))))
    where
      n : ℕ
      n = length (c ∷ s)

      quoted : Shortens n (
          parse_string js reader columns (c ∷ s) >>= λ (v, rest).
          literal_node js reader columns (CellValue.text v) rest count)
      quoted =
          Left-bind (λ p. length p.1) left_over n n (parse_string js reader columns (c ∷ s)) _
            (parse_string-Left js reader columns (c ∷ s))
            (λ p h. node-Shortens js reader columns (literal (CellValue.text p.0)) p.1 count n h)

  parse_expression-Shortens : (levels : ℕ) → Shortening (parse_expression js reader columns levels)
  unfolding parse_expression
  parse_expression-Shortens zero s count = refl
  parse_expression-Shortens (suc levels) s count =
      wider (length (skip_space s)) (length s) _ (length-skip_space s) (
        dispatch-Shortens (parse_expression js reader columns levels) (skip_space s) count
          (parse_expression-Shortens levels))

  parse_entered-Left : (s : Text) → Left (λ _. 0) 1 (parse_entered js reader columns s)
  unfolding parse_entered
  parse_entered-Left [] = refl
  parse_entered-Left (c ∷ s) =
      Left-bind left_over (λ _. 0) (length (c ∷ s)) 1
        (parse_expression js reader columns 12 (c ∷ s) 0) _ (parse_expression-Shortens 12 (c ∷ s) 0)
        (λ p h. ends p.0 (skip_space p.1) p.2)
    where
      ends :
          (e : Formula js) (rest : Text) (count : ℕ)
          → Left (λ _. 0) 1 (whole js reader columns (e, rest, count))
      ends e [] count = omega arith
      ends e (c ∷ s) count = refl

  Left-fuel : (r : Result LanguageError (Formula js)) → Left (λ _. 0) 1 r → r ≢ err out_of_fuel
  Left-fuel (ok e) left failed = cc
  Left-fuel (err e) left failed =
      let same : e ≡ out_of_fuel = same_error failed in
      let bad = subst (λ z. is_fuel z ≡ false) same left in cc
    where
      same_error :
          {a b : LanguageError}
          → ◌≡◌ {A = Result LanguageError (Formula js)} (err a) (err b)
          → a ≡ b
      same_error h = cc

  -- Parsing ends on every text: the rounds that the loop on a call's arguments is given do not run
  -- out.
  pub parse_source-ends : (source : Text) → parse_source js reader columns source ≢ err out_of_fuel
  unfolding parse_source parse
  parse_source-ends source = elim (Bool-cases (ltb maximum_source_characters (length source))) [
    | inl e ↦ λ failed. let bad = rw e at failed in cc
    | inr e ↦ λ failed.
        Left-fuel (parse js reader columns source)
          (parse_entered-Left (skip_equals js reader columns (skip_space source))) (rw e at failed)
  ]
