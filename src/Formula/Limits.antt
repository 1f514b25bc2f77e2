-- ===== src/Formula/Limits.antt =====
-- Which definitions `validateFormulaDefinition` accepts.
use byok_grid.Common.{
  ℕ, ◌+◌, ◌≤◌, ◌≡◌, ◌≢◌, ◌↔◌, refl, List, [], ◌∷◌, length, length-append, arith, All, All-split,
  All-append, Result, ok, ◌>>=◌, >>=-eq-ok,
}
use Prim.Native.Nat.{max}
use byok_grid.Formula.Values.{CellValueType}
use byok_grid.Formula.Syntax.{
  Expression, Arguments, column, literal, call, no_arguments, argument, walk, walk_arguments,
}
use byok_grid.Formula.Infer.{
  ColumnTypes, maximum_depth, maximum_nodes, infer_type, check_limits, require_value,
  validate_definition,
}

-- The nodes of an expression, and the levels of its tree.
abbrev mutual
  pub size : {N J : Type 0} → Expression N J → ℕ
  size (column c) = 1
  size (literal v) = 1
  size (call f args) = 1 + size_arguments args

  pub size_arguments : {N J : Type 0} → Arguments N J → ℕ
  size_arguments no_arguments = 0
  size_arguments (argument e rest) = size e + size_arguments rest

abbrev mutual
  pub height : {N J : Type 0} → Expression N J → ℕ
  height (column c) = 1
  height (literal v) = 1
  height (call f args) = 1 + height_arguments args

  pub height_arguments : {N J : Type 0} → Arguments N J → ℕ
  height_arguments no_arguments = 0
  height_arguments (argument e rest) = max (height e) (height_arguments rest)

-- Every visit is at most `m` deep.
abbrev Shallow : {N J : Type 0} → ℕ → List (Expression N J × ℕ) → Type 0
Shallow m = All (λ visit. visit.1 ≤ m)

mutual
  unfolding walk

  count_nodes : {N J : Type 0} (e : Expression N J) (d : ℕ) → length (walk e d) ≡ size e
  count_nodes (column c) d = omega arith
  count_nodes (literal v) d = omega arith
  count_nodes (call f args) d = omega (arith, count_arguments args (d + 1))

  count_arguments :
      {N J : Type 0} (args : Arguments N J) (d : ℕ)
      → length (walk_arguments args d) ≡ size_arguments args
  count_arguments no_arguments d = omega arith
  count_arguments (argument e rest) d = omega (
    arith,
    length-append (walk e d) (walk_arguments rest d),
    count_nodes e d,
    count_arguments rest d,
  )

mutual
  unfolding walk

  height_bounds :
      {N J : Type 0} (m : ℕ) (e : Expression N J) (d : ℕ)
      → Shallow m (walk e d)
      → d + height e ≤ m + 1
  height_bounds m (column c) d h = omega arith
  height_bounds m (literal v) d h = omega arith
  height_bounds m (call f args) d h =
      omega (arith, height_bounds_arguments m args (d + 1) (omega arith) h.1)

  height_bounds_arguments :
      {N J : Type 0} (m : ℕ) (args : Arguments N J) (d : ℕ)
      → d ≤ m + 1
      → Shallow m (walk_arguments args d)
      → d + height_arguments args ≤ m + 1
  height_bounds_arguments m no_arguments d h s = omega arith
  height_bounds_arguments m (argument e rest) d h s =
      let (first, others) = All-split _ (walk e d) (walk_arguments rest d) s in
      omega (arith, height_bounds m e d first, height_bounds_arguments m rest d h others)

mutual
  unfolding walk

  walk-Shallow :
      {N J : Type 0} (m : ℕ) (e : Expression N J) (d : ℕ)
      → d + height e ≤ m + 1
      → Shallow m (walk e d)
  walk-Shallow m (column c) d h = omega arith
  walk-Shallow m (literal v) d h = omega arith
  walk-Shallow m (call f args) d h =
      (omega arith, walk_arguments-Shallow m args (d + 1) (omega arith))

  walk_arguments-Shallow :
      {N J : Type 0} (m : ℕ) (args : Arguments N J) (d : ℕ)
      → d + height_arguments args ≤ m + 1
      → Shallow m (walk_arguments args d)
  walk_arguments-Shallow m no_arguments d h = tt
  walk_arguments-Shallow m (argument e rest) d h =
      All-append _ (walk e d) (walk_arguments rest d) (walk-Shallow m e d (omega arith))
        (walk_arguments-Shallow m rest d (omega arith))

check_limits→ :
    {N J : Type 0} (visits : List (Expression N J × ℕ)) (count : ℕ)
    → count ≤ maximum_nodes
    → check_limits visits count ≡ ok tt
    → Shallow maximum_depth visits × (count + length visits ≤ maximum_nodes)
unfolding check_limits
check_limits→ [] count h e = (tt, omega arith)
check_limits→ ((node, depth) ∷ visits) count h e = ground (arith, check_limits→ visits (count + 1))

check_limits← :
    {N J : Type 0} (visits : List (Expression N J × ℕ)) (count : ℕ)
    → Shallow maximum_depth visits
    → count + length visits ≤ maximum_nodes
    → check_limits visits count ≡ ok tt
unfolding check_limits
check_limits← [] count s h = refl
check_limits← ((node, depth) ∷ visits) count s h =
    ground (arith, check_limits← visits (count + 1) s.1)

require_value→ :
    (t u : CellValueType) → require_value t ≡ ok u → (t ≡ u) × (u ≢ CellValueType.empty)
require_value→ t u h = ground arith

require_value← : (t : CellValueType) → t ≢ CellValueType.empty → require_value t ≡ ok t
require_value← t h = ground arith

unit_ok : {E : Type 0} (m : Result E (Unit {0})) {u : Unit {0}} → m ≡ ok u → m ≡ ok tt
unit_ok m h = h

-- A definition is accepted with type `t` exactly when its tree has at most 12 levels and 128 nodes,
-- `inferType` gives it `t`, and `t` is not the type of empty values.
pub validate_definition-eq-ok_iff :
    {N J : Type 0} (e : Expression N J) (types : ColumnTypes) (t : CellValueType)
    → (validate_definition e types ≡ ok t)
      ↔ ((height e ≤ 12) × (size e ≤ 128) × (infer_type e types ≡ ok t) × (t ≢ CellValueType.empty))
unfolding validate_definition
validate_definition-eq-ok_iff e types t = (accepted, rejected_never)
  where
    accepted :
        validate_definition e types ≡ ok t
        → (height e ≤ 12) × (size e ≤ 128) × (infer_type e types ≡ ok t) × (t ≢ CellValueType.empty)
    accepted h =
        let (_, limits, typed) =
          >>=-eq-ok (check_limits (walk e 1) 0) (λ _. infer_type e types >>= require_value) h in
        let (u, inferred, kept) = >>=-eq-ok (infer_type e types) require_value typed in
        let (shallow, small) = check_limits→ (walk e 1) 0 (omega arith) limits in
        let (same, concrete) = require_value→ u t kept in
        (omega (arith, height_bounds 12 e 1 shallow), omega (arith, count_nodes e 1), cc, concrete)

    rejected_never :
        (height e ≤ 12) × (size e ≤ 128) × (infer_type e types ≡ ok t) × (t ≢ CellValueType.empty)
        → validate_definition e types ≡ ok t
    rejected_never (low, small, inferred, concrete) =
        rw
          (check_limits← (walk e 1) 0 (walk-Shallow 12 e 1 (omega arith))
            (omega (arith, count_nodes e 1)))
          (rw inferred (require_value← t concrete))
