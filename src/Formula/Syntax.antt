-- ===== src/Formula/Syntax.antt =====
-- Formula expressions and the walk over them (packages/domain/src/formulas.ts).
use byok_grid.Common.{ℕ, ◌+◌, List, [], ◌∷◌, ◌++◌, ◌==◌, any, if◌then◌else◌}
use byok_grid.Formula.Values.{CellValue}

pub data Function : Type 0 where
  add coalesce concat divide equals choose lower multiply subtract trim upper : Function

-- The list of arguments is a type of the block, since a type cannot hold lists of itself.
mutual
  pub data Expression (N J : Type 0) : Type 0 where
    column : ℕ → Expression N J
    literal : CellValue N J → Expression N J
    call : Function → Arguments N J → Expression N J

  pub data Arguments (N J : Type 0) : Type 0 where
    no_arguments : Arguments N J
    argument : Expression N J → Arguments N J → Arguments N J

-- The visits that `walkFormula` makes, in order: each node with its depth.
unfoldable mutual
  pub walk : {N J : Type 0} → Expression N J → ℕ → List (Expression N J × ℕ)
  walk (column c) depth = (column c, depth) ∷ []
  walk (literal v) depth = (literal v, depth) ∷ []
  walk (call f args) depth = (call f args, depth) ∷ walk_arguments args (depth + 1)

  pub walk_arguments : {N J : Type 0} → Arguments N J → ℕ → List (Expression N J × ℕ)
  walk_arguments no_arguments depth = []
  walk_arguments (argument e rest) depth = walk e depth ++ walk_arguments rest depth

-- `ids.add(id)`
unfoldable pub add_id : ℕ → List ℕ → List ℕ
add_id c ids = if any (λ d. d == c) ids then ids else ids ++ c ∷ []

-- The visitor of `collectFormulaColumnIds`.
unfoldable pub visit_column : {N J : Type 0} → Expression N J → List ℕ → List ℕ
unfolding add_id
visit_column (column c) ids = add_id c ids
visit_column (literal v) ids = ids
visit_column (call f args) ids = ids

unfoldable pub visit_columns : {N J : Type 0} → List (Expression N J × ℕ) → List ℕ → List ℕ
visit_columns [] ids = ids
visit_columns ((node, depth) ∷ visits) ids = visit_columns visits (visit_column node ids)

unfoldable pub collect_column_ids : {N J : Type 0} → Expression N J → List ℕ
unfolding visit_columns visit_column walk
collect_column_ids e = visit_columns (walk e 1) []
