-- ===== src/Formula/Evaluate.antt =====
-- The evaluation of formulas (packages/domain/src/formulas.ts).
use byok_grid.Common.{
  ℕ, Text, text_eq, Bool, false, not, ◌&&◌, Option, none, some, List, [], ◌∷◌, ◌++◌, any, find, map,
  if◌then◌else◌,
}
use byok_grid.Formula.Values.{CellValueType, same_type, type_of, CellValue, Runtime, Value}
use byok_grid.Formula.Syntax.{
  Function, add, coalesce, concat, divide, equals, choose, lower, multiply, subtract, trim, upper,
  Expression, Arguments, column, literal, call, no_arguments, argument,
}

abbrev pub true_text : Text
true_text = b't' ∷ b'r' ∷ b'u' ∷ b'e' ∷ []

abbrev pub false_text : Text
false_text = b'f' ∷ b'a' ∷ b'l' ∷ b's' ∷ b'e' ∷ []

abbrev pub null_text : Text
null_text = b'n' ∷ b'u' ∷ b'l' ∷ b'l' ∷ []

module _ (js : Runtime) where
  abbrev pub Values : Type 0
  Values = ℕ → Option (Value js)

  abbrev pub is_empty : Value js → Bool
  is_empty v = same_type (type_of v) CellValueType.empty

  unfoldable pub cell_value_to_text : Value js → Text
  cell_value_to_text CellValue.empty = []
  cell_value_to_text (CellValue.text s) = s
  cell_value_to_text (CellValue.number n) = js.number_text n
  cell_value_to_text (CellValue.boolean b) = if b then true_text else false_text
  cell_value_to_text (CellValue.timestamp s) = s
  cell_value_to_text (CellValue.json j) = js.json_text j

  -- `JSON.stringify(value.value)`
  unfoldable pub stringify : Value js → Text
  stringify CellValue.empty = null_text
  stringify (CellValue.text s) = js.string_json s
  stringify (CellValue.number n) = js.number_json n
  stringify (CellValue.boolean b) = if b then true_text else false_text
  stringify (CellValue.timestamp s) = js.string_json s
  stringify (CellValue.json j) = js.json_text j

  unfoldable pub join_texts : List (Value js) → Text
  unfolding cell_value_to_text
  join_texts [] = []
  join_texts (v ∷ vs) = cell_value_to_text v ++ join_texts vs

  -- The `lower`, `upper` and `trim` cases: `f` is the conversion.
  unfoldable pub change_text : (Text → Text) → List (Value js) → Value js
  unfolding cell_value_to_text
  change_text f [] = CellValue.empty
  change_text f (v ∷ _) =
      if is_empty v then CellValue.empty else CellValue.text (f (cell_value_to_text v))

  unfoldable pub first_value : List (Value js) → Value js
  first_value args = elim (find (λ v. not (is_empty v)) args) [
    | none ↦ CellValue.empty
    | some v ↦ v
  ]

  abbrev pub number_of : Value js → js.Number
  number_of (CellValue.number n) = n
  number_of _ = js.nan

  unfoldable pub fold_numbers :
      (js.Number → js.Number → js.Number) → js.Number → List js.Number → js.Number
  fold_numbers op current [] = current
  fold_numbers op current (n ∷ ns) = fold_numbers op (op current n) ns

  -- `const [first = 0, ...rest] = numbers; rest.reduce(…, first)`
  unfoldable pub reduce_numbers : (js.Number → js.Number → js.Number) → List js.Number → js.Number
  unfolding fold_numbers
  reduce_numbers op [] = js.zero_number
  reduce_numbers op (n ∷ ns) = fold_numbers op n ns

  unfoldable pub finite_or_empty : js.Number → Value js
  finite_or_empty n = if js.is_finite n then CellValue.number n else CellValue.empty

  -- The four arithmetic cases: `op` is the case of the inner `switch`.
  unfoldable pub compute : (js.Number → js.Number → js.Number) → List (Value js) → Value js
  unfolding reduce_numbers finite_or_empty
  compute op args =
      if any is_empty args
      then CellValue.empty
      else if any (λ n. not (js.is_finite n)) (map number_of args)
      then CellValue.empty
      else finite_or_empty (reduce_numbers op (map number_of args))

  unfoldable pub safe_divide : js.Number → js.Number → js.Number
  safe_divide current n = if js.is_zero n then js.nan else js.divide current n

  unfoldable pub same_values : List (Value js) → Bool
  unfolding stringify text_eq
  same_values (left ∷ right ∷ _) =
      same_type (type_of left) (type_of right) && text_eq (stringify left) (stringify right)
  same_values _ = false

  abbrev pub value_at : List (Value js) → ℕ → Value js
  value_at [] i = CellValue.empty
  value_at (v ∷ vs) ℕ.zero = v
  value_at (v ∷ vs) (ℕ.suc i) = value_at vs i

  unfoldable pub choose_value : List (Value js) → Value js
  choose_value (CellValue.boolean b ∷ branches) =
      if b then value_at branches 0 else value_at branches 1
  choose_value _ = CellValue.empty

  unfoldable pub evaluate_call : Function → List (Value js) → Value js
  unfolding join_texts change_text first_value compute safe_divide same_values choose_value
  evaluate_call concat args = CellValue.text (join_texts args)
  evaluate_call lower args = change_text js.lower args
  evaluate_call upper args = change_text js.upper args
  evaluate_call trim args = change_text js.trim args
  evaluate_call coalesce args = first_value args
  evaluate_call add args = compute js.add args
  evaluate_call subtract args = compute js.subtract args
  evaluate_call multiply args = compute js.multiply args
  evaluate_call divide args = compute safe_divide args
  evaluate_call equals args = CellValue.boolean (same_values args)
  evaluate_call choose args = choose_value args

  abbrev pub read_column : Option (Value js) → Value js
  read_column none = CellValue.empty
  read_column (some v) = v

  unfoldable mutual
    pub evaluate : Expression js.Number js.Json → Values → Value js
    evaluate (column c) values = read_column (values c)
    evaluate (literal v) values = v
    evaluate (call f args) values = evaluate_call f (evaluate_arguments args values)

    pub evaluate_arguments : Arguments js.Number js.Json → Values → List (Value js)
    evaluate_arguments no_arguments values = []
    evaluate_arguments (argument e rest) values = evaluate e values ∷ evaluate_arguments rest values
