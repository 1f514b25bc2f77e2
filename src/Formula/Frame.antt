-- ===== src/Formula/Frame.antt =====
-- Which columns a formula reads, and what `collectFormulaColumnIds` lists.
use byok_grid.Common.{
  ℕ, ◌≡◌, refl, ap, Bool, true, false, ◌||◌, List, [], ◌∷◌, ◌++◌, any, ◌==◌, arith, Bool-cases, inl,
  inr, subst, ==_iff, All, All-split, ◌+◌,
}
use byok_grid.Formula.Values.{Runtime}
use byok_grid.Formula.Syntax.{
  Expression, Arguments, column, literal, call, no_arguments, argument, walk, walk_arguments,
  add_id, visit_column, visit_columns, collect_column_ids,
}
use byok_grid.Formula.Evaluate.{Values, evaluate, evaluate_arguments, evaluate_call, read_column}

abbrev pub contains : List ℕ → ℕ → Bool
contains ids c = any (λ d. d == c) ids

contains-append :
    (xs ys : List ℕ) (c : ℕ) → contains (xs ++ ys) c ≡ (contains xs c || contains ys c)
contains-append [] ys c = refl
contains-append (x ∷ xs) ys c = ground (arith, contains-append xs ys c)

or_false : (a b : Bool) → (a || (b || false)) ≡ (a || b)
or_false a b = ground arith

old_or :
    (c d : ℕ) (ids : List ℕ) → contains ids c ≡ true → contains ids d ≡ (contains ids d || (c == d))
old_or c d ids h = elim (Bool-cases (c == d)) [
  | inl e ↦
      subst (λ x. contains ids x ≡ (contains ids x || (c == x))) ((==_iff c d).0 e) (rw h refl)
  | inr e ↦ rw e (ground arith)
]

contains-add_id :
    (c d : ℕ) (ids : List ℕ) → contains (add_id c ids) d ≡ (contains ids d || (c == d))
unfolding add_id
contains-add_id c d ids = elim (Bool-cases (contains ids c)) [
  | inl old ↦ rw old (old_or c d ids old)
  | inr new ↦ rw (new) (rw (contains-append ids (c ∷ []) d) (or_false (contains ids d) (c == d)))
]

visit_column-grows :
    {N J : Type 0} (node : Expression N J) (ids : List ℕ) (c : ℕ)
    → contains ids c ≡ true
    → contains (visit_column node ids) c ≡ true
unfolding visit_column
visit_column-grows (column d) ids c h = ground (arith, contains-add_id d c ids)
visit_column-grows _ ids c h = h

visit_columns-grows :
    {N J : Type 0} (visits : List (Expression N J × ℕ)) (ids : List ℕ) (c : ℕ)
    → contains ids c ≡ true
    → contains (visit_columns visits ids) c ≡ true
unfolding visit_columns
visit_columns-grows [] ids c h = h
visit_columns-grows ((node, depth) ∷ visits) ids c h =
    visit_columns-grows visits (visit_column node ids) c (visit_column-grows node ids c h)

module _ (js : Runtime) where
  -- Two rows hold the same values in the listed columns, a missing one counting as empty.
  abbrev pub Agree : List ℕ → Values js → Values js → Type 0
  Agree ids values values' =
      (c : ℕ) → contains ids c ≡ true → read_column js (values c) ≡ read_column js (values' c)

  abbrev NodeAgrees : Values js → Values js → Expression js.Number js.Json → Type 0
  NodeAgrees values values' (column c) = read_column js (values c) ≡ read_column js (values' c)
  NodeAgrees values values' _ = Unit

  abbrev VisitsAgree : Values js → Values js → List (Expression js.Number js.Json × ℕ) → Type 0
  VisitsAgree values values' = All (λ visit. NodeAgrees values values' visit.0)

  node_agrees :
      (values values' : Values js) (node : Expression js.Number js.Json) (ids : List ℕ)
      (visits : List (Expression js.Number js.Json × ℕ))
      → Agree (visit_columns visits (visit_column node ids)) values values'
      → NodeAgrees values values' node
  unfolding visit_column
  node_agrees values values' (column c) ids visits agree =
      agree c
        (visit_columns-grows visits (add_id c ids) c (ground (arith, contains-add_id c c ids)))
  node_agrees values values' _ ids visits agree = tt

  visits_agree :
      (values values' : Values js) (visits : List (Expression js.Number js.Json × ℕ)) (ids : List ℕ)
      → Agree (visit_columns visits ids) values values'
      → VisitsAgree values values' visits
  unfolding visit_columns
  visits_agree values values' [] ids agree = tt
  visits_agree values values' ((node, depth) ∷ visits) ids agree = (
    node_agrees values values' node ids visits agree,
    visits_agree values values' visits (visit_column node ids) agree,
  )

  mutual
    unfolding evaluate walk

    frame :
        (e : Expression js.Number js.Json) (depth : ℕ) (values values' : Values js)
        → VisitsAgree values values' (walk e depth)
        → evaluate js e values ≡ evaluate js e values'
    frame (column c) depth values values' agree = agree.0
    frame (literal v) depth values values' agree = refl
    frame (call f args) depth values values' agree =
        ap (evaluate_call js f) (frame_arguments args (depth + 1) values values' agree.1)

    frame_arguments :
        (args : Arguments js.Number js.Json) (depth : ℕ) (values values' : Values js)
        → VisitsAgree values values' (walk_arguments args depth)
        → evaluate_arguments js args values ≡ evaluate_arguments js args values'
    frame_arguments no_arguments depth values values' agree = refl
    frame_arguments (argument e rest) depth values values' agree =
        let (first, others) =
          All-split (λ visit. NodeAgrees values values' visit.0) (walk e depth)
            (walk_arguments rest depth) agree in
        cc (frame e depth values values' first, frame_arguments rest depth values values' others)

  -- Two rows that hold the same values in the columns that `collectFormulaColumnIds` lists give the
  -- formula the same value, whatever else they hold; a missing value counts as an empty one.
  pub evaluate-frame :
      (e : Expression js.Number js.Json) (values values' : Values js)
      → Agree (collect_column_ids e) values values'
      → evaluate js e values ≡ evaluate js e values'
  unfolding collect_column_ids
  evaluate-frame e values values' agree =
      frame e 1 values values' (visits_agree values values' (walk e 1) [] agree)
