-- ===== src/Formula/Infer.antt =====
-- The types of formulas (packages/domain/src/formulas.ts): `inferType` with its two assertions, and
-- `validateFormulaDefinition`.
use byok_grid.Common.{
  ℕ, ◌+◌, Bool, true, false, not, ◌||◌, Option, none, some, List, [], ◌∷◌, ◌++◌, length, any, keep,
  find, leb, ltb, ◌==◌, if◌then◌else◌, Result, ok, err, ◌>>=◌, ◌>>◌, require,
}
use byok_grid.Formula.Values.{CellValueType, same_type, type_of}
use byok_grid.Formula.Syntax.{
  Function, add, coalesce, concat, divide, equals, choose, lower, multiply, subtract, trim, upper,
  Expression, Arguments, column, literal, call, no_arguments, argument, walk,
}

-- `FormulaDefinitionError`, by its message.
pub data FormulaError : Type 0 where
  column_unavailable : ℕ → FormulaError
  wrong_arity : Function → ℕ → FormulaError
  needs_argument : Function → FormulaError
  unusable_type : Function → CellValueType → FormulaError
  mixed_coalesce : FormulaError
  condition_not_boolean : FormulaError
  mixed_branches : FormulaError
  too_deep : FormulaError
  too_many_nodes : FormulaError
  never_a_value : FormulaError

abbrev pub maximum_depth : ℕ
maximum_depth = 12

abbrev pub maximum_nodes : ℕ
maximum_nodes = 128

abbrev pub exact_arity : Function → Option ℕ
exact_arity divide = some 2
exact_arity equals = some 2
exact_arity choose = some 3
exact_arity lower = some 1
exact_arity multiply = some 2
exact_arity subtract = some 2
exact_arity trim = some 1
exact_arity upper = some 1
exact_arity _ = none

abbrev pub needs_one : Function → Bool
needs_one add = true
needs_one coalesce = true
needs_one concat = true
needs_one _ = false

unfoldable pub assert_arity : Function → ℕ → Result FormulaError (Unit {0})
assert_arity f count = elim (exact_arity f) [
  | some expected ↦ require (count == expected) (wrong_arity f expected)
  | none ↦ if needs_one f then require (leb 1 count) (needs_argument f) else ok tt
]

-- Every argument's type must be `only` or `empty`, the two that the callers allow.
unfoldable pub assert_types :
    Function → List CellValueType → CellValueType → Result FormulaError (Unit {0})
assert_types f actual only =
    elim (find (λ t. not (same_type t only || same_type t CellValueType.empty)) actual) [
      | none ↦ ok tt
      | some invalid ↦ err (unusable_type f invalid)
    ]

-- `types.add(type)`, in the order of insertion.
unfoldable pub insert_type : List CellValueType → CellValueType → List CellValueType
insert_type seen t = if any (λ u. same_type u t) seen then seen else seen ++ t ∷ []

-- `new Set(types)`
unfoldable pub insert_types : List CellValueType → List CellValueType → List CellValueType
insert_types seen [] = seen
insert_types seen (t ∷ ts) = insert_types (insert_type seen t) ts

abbrev pub first_type : List CellValueType → CellValueType
first_type [] = CellValueType.empty
first_type (t ∷ _) = t

abbrev pub is_concrete : CellValueType → Bool
is_concrete t = not (same_type t CellValueType.empty)

-- The one concrete type among the types, `empty` where there is none.
unfoldable pub common_type : FormulaError → List CellValueType → Result FormulaError CellValueType
unfolding insert_types insert_type
common_type mixed types =
    let concrete = insert_types [] (keep is_concrete types) in
    if ltb 1 (length concrete) then err mixed else ok (first_type concrete)

-- The `if` case: the first type is the condition's.
unfoldable pub infer_choose : List CellValueType → Result FormulaError CellValueType
unfolding common_type
infer_choose [] = err condition_not_boolean
infer_choose (t ∷ branches) =
    if same_type t CellValueType.boolean
    then common_type mixed_branches branches
    else err condition_not_boolean

unfoldable pub infer_function : Function → List CellValueType → Result FormulaError CellValueType
unfolding assert_types common_type infer_choose
infer_function concat types = ok CellValueType.text
infer_function lower types = assert_types lower types CellValueType.text >> ok CellValueType.text
infer_function upper types = assert_types upper types CellValueType.text >> ok CellValueType.text
infer_function trim types = assert_types trim types CellValueType.text >> ok CellValueType.text
infer_function add types = assert_types add types CellValueType.number >> ok CellValueType.number
infer_function subtract types =
    assert_types subtract types CellValueType.number >> ok CellValueType.number
infer_function multiply types =
    assert_types multiply types CellValueType.number >> ok CellValueType.number
infer_function divide types =
    assert_types divide types CellValueType.number >> ok CellValueType.number
infer_function equals types = ok CellValueType.boolean
infer_function coalesce types = common_type mixed_coalesce types
infer_function choose types = infer_choose types

unfoldable pub infer_call : Function → List CellValueType → Result FormulaError CellValueType
unfolding assert_arity infer_function
infer_call f types = assert_arity f (length types) >> infer_function f types

abbrev pub ColumnTypes : Type 0
ColumnTypes = ℕ → Option CellValueType

unfoldable mutual
  pub infer_type : {N J : Type 0} → Expression N J → ColumnTypes → Result FormulaError CellValueType
  infer_type (column c) types = elim (types c) [ none ↦ err (column_unavailable c) | some t ↦ ok t ]
  infer_type (literal v) types = ok (type_of v)
  infer_type (call f args) types = infer_types args types >>= infer_call f

  pub infer_types :
      {N J : Type 0} → Arguments N J → ColumnTypes → Result FormulaError (List CellValueType)
  infer_types no_arguments types = ok []
  infer_types (argument e rest) types =
      infer_type e types >>= λ t. infer_types rest types >>= λ ts. ok (t ∷ ts)

-- The visitor of `validateFormulaDefinition`, over the visits of the walk.
unfoldable pub check_limits :
    {N J : Type 0} → List (Expression N J × ℕ) → ℕ → Result FormulaError (Unit {0})
check_limits [] count = ok tt
check_limits ((node, depth) ∷ visits) count =
    let rest = check_limits visits (count + 1) in
    if ltb maximum_depth depth
    then err too_deep
    else if ltb maximum_nodes (count + 1)
    then err too_many_nodes
    else rest

abbrev pub require_value : CellValueType → Result FormulaError CellValueType
require_value t = if same_type t CellValueType.empty then err never_a_value else ok t

unfoldable pub validate_definition :
    {N J : Type 0} → Expression N J → ColumnTypes → Result FormulaError CellValueType
unfolding check_limits infer_type walk
validate_definition e types = check_limits (walk e 1) 0 >> (infer_type e types >>= require_value)
