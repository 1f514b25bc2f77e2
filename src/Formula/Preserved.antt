-- ===== src/Formula/Preserved.antt =====
-- Which properties of values the functions of formulas keep (packages/domain/src/formulas.ts).
use byok_grid.Common.{
  ℕ, Text, ◌≡◌, refl, Bool, true, false, not, List, [], ◌∷◌, any, map, All, if◌then◌else◌,
}
use byok_grid.Formula.Values.{CellValue, Runtime, Value}
use byok_grid.Formula.Syntax.{
  Function, add, coalesce, concat, divide, equals, choose, lower, multiply, subtract, trim, upper,
  Expression, Arguments, column, literal, call, no_arguments, argument,
}
use byok_grid.Formula.Evaluate.{
  Values, is_empty, number_of, reduce_numbers, change_text, first_value, compute, finite_or_empty,
  choose_value, value_at, safe_divide, evaluate_call, evaluate, evaluate_arguments, read_column,
}

module _ (js : Runtime) (P : Value js → Type 0) where
  -- The property holds of the literals of an expression.
  abbrev mutual
    pub LiteralsHold : Expression js.Number js.Json → Type 0
    LiteralsHold (column c) = Unit
    LiteralsHold (literal v) = P v
    LiteralsHold (call f args) = ArgumentsHold args

    pub ArgumentsHold : Arguments js.Number js.Json → Type 0
    ArgumentsHold no_arguments = Unit
    ArgumentsHold (argument e rest) = LiteralsHold e × ArgumentsHold rest

  -- It holds of what the functions make themselves.
  pub record Basic : Type 0 where
    pub empty : P CellValue.empty
    pub text : (t : Text) → P (CellValue.text t)
    pub boolean : (b : Bool) → P (CellValue.boolean b)
    pub number : (n : js.Number) → js.is_finite n ≡ true → P (CellValue.number n)

module _ (js : Runtime) (P : Value js → Type 0) (basic : Basic js P) where
  if-P : (b : Bool) (v w : Value js) → (b ≡ true → P v) → P w → P (if b then v else w)
  if-P true v w hv hw = hv refl
  if-P false v w hv hw = hw

  finite_or_empty-P : (n : js.Number) → P (finite_or_empty js n)
  unfolding finite_or_empty
  finite_or_empty-P n =
      if-P (js.is_finite n) (CellValue.number n) CellValue.empty (λ h. basic.number n h) basic.empty

  compute-P : (op : js.Number → js.Number → js.Number) (vs : List (Value js)) → P (compute js op vs)
  unfolding compute
  compute-P op vs =
      let numbers = map (number_of js) vs in
      let result = finite_or_empty js (reduce_numbers js op numbers) in
      if-P (any (is_empty js) vs) _ _ (λ _. basic.empty)
        (if-P (any (λ n. not (js.is_finite n)) numbers) CellValue.empty result (λ _. basic.empty)
          (finite_or_empty-P (reduce_numbers js op numbers)))

  change_text-P : (f : List ℕ → List ℕ) (vs : List (Value js)) → P (change_text js f vs)
  unfolding change_text
  change_text-P f [] = basic.empty
  change_text-P f (v ∷ vs) = if-P (is_empty js v) _ _ (λ _. basic.empty) (basic.text _)

  first_value-P : (vs : List (Value js)) → All P vs → P (first_value js vs)
  unfolding first_value
  first_value-P [] all = basic.empty
  first_value-P (CellValue.empty ∷ vs) all = first_value-P vs all.1
  first_value-P (_ ∷ vs) all = all.0

  value_at-P : (vs : List (Value js)) (i : ℕ) → All P vs → P (value_at js vs i)
  value_at-P [] i all = basic.empty
  value_at-P (v ∷ vs) ℕ.zero all = all.0
  value_at-P (v ∷ vs) (ℕ.suc i) all = value_at-P vs i all.1

  choose_value-P : (vs : List (Value js)) → All P vs → P (choose_value js vs)
  unfolding choose_value
  choose_value-P [] all = basic.empty
  choose_value-P (CellValue.boolean true ∷ vs) all = value_at-P vs 0 all.1
  choose_value-P (CellValue.boolean false ∷ vs) all = value_at-P vs 1 all.1
  choose_value-P (_ ∷ vs) all = basic.empty

  evaluate_call-P : (f : Function) (vs : List (Value js)) → All P vs → P (evaluate_call js f vs)
  unfolding evaluate_call
  evaluate_call-P concat vs all = basic.text _
  evaluate_call-P lower vs all = change_text-P js.lower vs
  evaluate_call-P upper vs all = change_text-P js.upper vs
  evaluate_call-P trim vs all = change_text-P js.trim vs
  evaluate_call-P coalesce vs all = first_value-P vs all
  evaluate_call-P add vs all = compute-P js.add vs
  evaluate_call-P subtract vs all = compute-P js.subtract vs
  evaluate_call-P multiply vs all = compute-P js.multiply vs
  evaluate_call-P divide vs all = compute-P (safe_divide js) vs
  evaluate_call-P equals vs all = basic.boolean _
  evaluate_call-P choose vs all = choose_value-P vs all

  mutual
    unfolding evaluate

    hold :
        (e : Expression js.Number js.Json) (values : Values js)
        → ((c : ℕ) → P (read_column js (values c)))
        → LiteralsHold js P e
        → P (evaluate js e values)
    hold (column c) values columns literals = columns c
    hold (literal v) values columns literals = literals
    hold (call f args) values columns literals =
        evaluate_call-P f (evaluate_arguments js args values)
          (hold_arguments args values columns literals)

    hold_arguments :
        (args : Arguments js.Number js.Json) (values : Values js)
        → ((c : ℕ) → P (read_column js (values c)))
        → ArgumentsHold js P args
        → All P (evaluate_arguments js args values)
    hold_arguments no_arguments values columns literals = tt
    hold_arguments (argument e rest) values columns literals =
        (hold e values columns literals.0, hold_arguments rest values columns literals.1)

  -- What holds of the columns and of the literals holds of the value.
  pub evaluate-Holds :
      (e : Expression js.Number js.Json) (values : Values js)
      → ((c : ℕ) → P (read_column js (values c)))
      → LiteralsHold js P e
      → P (evaluate js e values)
  evaluate-Holds e values columns literals = hold e values columns literals
