-- ===== src/Examples/Formula.antt =====
-- Formulas (packages/domain/src/formulas.ts) on one row. A number is a natural number here, or
-- none for what is not finite.
use byok_grid.Common.{
  ℕ, zero, suc, Text, [], ◌∷◌, length, ap, ◌+◌, ◌-◌, ◌*◌, ◌/◌, ◌≡◌, ◌↔◌, arith, refl, Bool, true,
  false, Option, none, some, codes, ok, ◌≤◌, ◌≢◌, ◌==◌, if◌then◌else◌,
}
use byok_grid.Formula.Values.{CellValueType, CellValue, Runtime, Fits}
use byok_grid.Formula.Syntax.{
  Function, Expression, column, literal, call, no_arguments, argument, collect_column_ids, walk,
  visit_columns, visit_column, add_id,
}
use byok_grid.Formula.Infer.{infer_call, ColumnTypes, infer_type, validate_definition}
use byok_grid.Formula.Evaluate.{read_column, evaluate_call, Values, evaluate}
use byok_grid.Formula.Sound.{evaluate-Fits}
use byok_grid.Formula.Finite.{IsFinite, evaluate-IsFinite}
use byok_grid.Formula.Frame.{contains, evaluate-frame}
use byok_grid.Formula.Limits.{validate_definition-eq-ok_iff, height, size}

abbrev lift : (ℕ → ℕ → ℕ) → Option ℕ → Option ℕ → Option ℕ
lift op (some a) (some b) = some (op a b)
lift op _ _ = none

abbrev is_number : Option ℕ → Bool
is_number none = false
is_number (some _) = true

abbrev is_nil : Option ℕ → Bool
is_nil none = false
is_nil (some n) = n == 0

-- A date as its text has it: so many digits.
abbrev zeros : ℕ → Text
zeros zero = []
zeros (suc n) = b'0' ∷ zeros n

pub length-zeros : (n : ℕ) → length (zeros n) ≡ n
length-zeros zero = refl
length-zeros (suc n) = omega (arith, length-zeros n)

abbrev pub js : Runtime
js = record {
  Number = Option ℕ;
  Json = Unit;
  nan = none;
  zero_number = some 0;
  is_finite = is_number;
  is_zero = is_nil;
  add = lift (λ a b. a + b);
  subtract = lift (λ a b. a - b);
  multiply = lift (λ a b. a * b);
  divide = lift (λ a b. a / b);
  number_text = λ _. codes "1";
  json_text = λ _. codes "{}";
  number_json = λ _. codes "1";
  string_json = λ t. t;
  lower = λ t. t;
  upper = λ t. t;
  trim = λ t. t;
  Date = ℕ;
  null_json = tt;
  new_date = length;
  epoch = 0;
  to_iso_string = zeros;
}

abbrev sum : Expression (Option ℕ) Unit
sum =
    call Function.add
      (argument (column 1) (argument (literal (CellValue.number (some 2))) no_arguments))

abbrev quotient : Expression (Option ℕ) Unit
quotient =
    call Function.divide
      (argument (column 1) (argument (literal (CellValue.number (some 0))) no_arguments))

abbrev types : ColumnTypes
types c = if c == 1 then some CellValueType.number else none

abbrev row : ℕ → Values js
row n c = if c == 1 then some (CellValue.number (some n)) else none

sum_value : evaluate js sum (row 3) ≡ CellValue.number (some 5)
unfolding evaluate evaluate_call
sum_value = refl

quotient_value : evaluate js quotient (row 3) ≡ CellValue.empty
unfolding evaluate evaluate_call
quotient_value = refl

row-Fits : (n c : ℕ) (t : CellValueType) → types c ≡ some t → Fits (read_column js (row n c)) t
row-Fits n c t h = ground arith

row-IsFinite : (n c : ℕ) → IsFinite js (read_column js (row n c))
row-IsFinite n c = ground arith

evaluate-Fits_example : Fits (evaluate js sum (row 3)) CellValueType.number
unfolding infer_type infer_call
evaluate-Fits_example = evaluate-Fits js sum (row 3) types (row-Fits 3) refl

evaluate-IsFinite_example : IsFinite js (evaluate js quotient (row 3))
evaluate-IsFinite_example = evaluate-IsFinite js quotient (row 3) (row-IsFinite 3) (tt, (refl, tt))

same_column :
    (c : ℕ)
    → contains (collect_column_ids sum) c ≡ true
    → row 3 c ≡ some (CellValue.number (some 3))
unfolding collect_column_ids walk visit_columns visit_column add_id
same_column c h = ground arith

evaluate-frame_example :
    evaluate js sum (row 3) ≡ evaluate js sum (λ _. some (CellValue.number (some 3)))
evaluate-frame_example =
    evaluate-frame js sum (row 3) (λ _. some (CellValue.number (some 3)))
      (λ c h. ap (read_column js) (same_column c h))

validate_definition-eq-ok_iff_example :
    (validate_definition sum types ≡ ok CellValueType.number) ↔ (
      (height sum ≤ 12)
      × (size sum ≤ 128)
      × (infer_type sum types ≡ ok CellValueType.number)
      × (CellValueType.number ≢ CellValueType.empty))
validate_definition-eq-ok_iff_example = validate_definition-eq-ok_iff sum types CellValueType.number
