-- ===== src/Formula/Sound.antt =====
-- Type soundness of formulas: what `inferType` promises of `evaluateFormula`.
use byok_grid.Common.{
  ℕ, zero, suc, ◌≡◌, refl, sym, ap, ◌∙◌, subst, true, false, some, List, [], ◌∷◌, length, keep, ltb,
  if◌then◌else◌, ok, err, ◌>>=◌, >>=-eq-ok, arith, inl, inr, ◌⊎◌, ◌<◌, ◌≤◌, All, length-append,
}
use byok_grid.Formula.Values.{CellValueType, same_type, CellValue, Runtime, Value, Fits}
use byok_grid.Formula.Syntax.{
  Function, add, coalesce, concat, divide, equals, choose, lower, multiply, subtract, trim, upper,
  Expression, Arguments, column, literal, call, no_arguments, argument,
}
use byok_grid.Formula.Infer.{
  FormulaError, ColumnTypes, mixed_coalesce, mixed_branches, insert_type, insert_types, first_type,
  is_concrete, common_type, infer_choose, infer_function, infer_call, infer_type, infer_types,
  assert_arity, assert_types,
}
use byok_grid.Formula.Evaluate.{
  Values, change_text, first_value, compute, finite_or_empty, safe_divide, choose_value, value_at,
  evaluate_call, evaluate, evaluate_arguments, read_column,
}

same_type→eq : (t u : CellValueType) → same_type t u ≡ true → t ≡ u
same_type→eq t u h = ground arith

-- Every concrete type of the list is `t`.
abbrev Uniform : CellValueType → List CellValueType → Type 0
Uniform t = All (λ u. (u ≡ CellValueType.empty) ⊎ (u ≡ t))

insert_type-length :
    (seen : List CellValueType) (t : CellValueType) → length seen ≤ length (insert_type seen t)
unfolding insert_type
insert_type-length seen t = ground (arith, length-append seen (t ∷ []))

insert_types-length : (seen ts : List CellValueType) → length seen ≤ length (insert_types seen ts)
unfolding insert_types
insert_types-length seen [] = omega arith
insert_types-length seen (t ∷ ts) =
    omega (arith, insert_type-length seen t, insert_types-length (insert_type seen t) ts)

insert_type-one :
    (t u : CellValueType)
    → length (insert_type (t ∷ []) u) < 2
    → (insert_type (t ∷ []) u ≡ t ∷ []) × (u ≡ t)
unfolding insert_type
insert_type-one t u h = ground (arith, same_type→eq t u)

insert_types-one :
    (t : CellValueType) (ts : List CellValueType)
    → length (insert_types (t ∷ []) ts) < 2
    → (insert_types (t ∷ []) ts ≡ t ∷ []) × All (λ u. u ≡ t) ts
unfolding insert_types
insert_types-one t [] h = (refl, tt)
insert_types-one t (u ∷ ts) h =
    let (same, eq) =
      insert_type-one t u (omega (arith, insert_types-length (insert_type (t ∷ []) u) ts)) in
    let (rest, all) = insert_types-one t ts (rw same at h) in (rw same rest, (eq, all))

Uniform-keep :
    (t : CellValueType) (ts : List CellValueType)
    → All (λ u. u ≡ t) (keep is_concrete ts)
    → Uniform t ts
Uniform-keep t [] h = tt
Uniform-keep t (CellValueType.empty ∷ ts) h = (inl refl, Uniform-keep t ts h)
Uniform-keep t (_ ∷ ts) h = (inr h.0, Uniform-keep t ts h.1)

ok_one :
    (e : FormulaError) (cs : List CellValueType) {t : CellValueType}
    → (if ltb 1 (length cs) then err e else ok (first_type cs)) ≡ ok t
    → (length cs < 2) × (first_type cs ≡ t)
ok_one e cs h = ground arith

one-Uniform :
    (e : FormulaError) (ks : List CellValueType) {t : CellValueType}
    → (if ltb 1 (length (insert_types [] ks)) then err e else ok (first_type (insert_types [] ks)))
      ≡ ok t
    → All (λ u. u ≡ t) ks
unfolding insert_types insert_type
one-Uniform e [] h = tt
one-Uniform e (k ∷ ks) {t} h =
    let (few, first) = ok_one e (insert_types (k ∷ []) ks) h in
    let (single, all) = insert_types-one k ks few in
    let eq : k ≡ t = ap first_type (sym single) ∙ first in
    (eq, subst (λ u. All (λ x. x ≡ u) ks) eq all)

common_type-Uniform :
    (e : FormulaError) (ts : List CellValueType) {t : CellValueType}
    → common_type e ts ≡ ok t
    → Uniform t ts
unfolding common_type
common_type-Uniform e ts {t} h = Uniform-keep t ts (one-Uniform e (keep is_concrete ts) h)

module _ (js : Runtime) where
  change_text-Fits :
      (f : List ℕ → List ℕ) (vs : List (Value js)) → Fits (change_text js f vs) CellValueType.text
  unfolding change_text
  change_text-Fits f [] = inl refl
  change_text-Fits f (v ∷ vs) = ground arith

  finite_or_empty-Fits : (n : js.Number) → Fits (finite_or_empty js n) CellValueType.number
  unfolding finite_or_empty
  finite_or_empty-Fits n = ground arith

  compute-Fits :
      (op : js.Number → js.Number → js.Number) (vs : List (Value js))
      → Fits (compute js op vs) CellValueType.number
  unfolding compute
  compute-Fits op vs = ground arith

  -- Each value is one that its type's columns may hold.
  abbrev AllFit : List (Value js) → List CellValueType → Type 0
  AllFit [] [] = Unit
  AllFit (v ∷ vs) (t ∷ ts) = Fits v t × AllFit vs ts
  AllFit _ _ = ⊥

  first_value-Fits :
      (t : CellValueType) (vs : List (Value js)) (ts : List CellValueType)
      → AllFit vs ts
      → Uniform t ts
      → Fits (first_value js vs) t
  unfolding first_value
  first_value-Fits t [] ts fit same = inl refl
  first_value-Fits t (v ∷ vs) [] fit same = absurd fit
  first_value-Fits t (v ∷ vs) (u ∷ ts) fit same =
      ground (arith, first_value-Fits t vs ts fit.1 same.1)

  value_at-Fits :
      (t : CellValueType) (vs : List (Value js)) (ts : List CellValueType) (i : ℕ)
      → AllFit vs ts
      → Uniform t ts
      → Fits (value_at js vs i) t
  value_at-Fits t [] ts i fit same = inl refl
  value_at-Fits t (v ∷ vs) [] i fit same = absurd fit
  value_at-Fits t (v ∷ vs) (u ∷ ts) zero fit same = ground arith
  value_at-Fits t (v ∷ vs) (u ∷ ts) (suc i) fit same = value_at-Fits t vs ts i fit.1 same.1

  infer_choose-Uniform :
      (c : CellValueType) (ts : List CellValueType) {t : CellValueType}
      → infer_choose (c ∷ ts) ≡ ok t
      → Uniform t ts
  unfolding infer_choose
  infer_choose-Uniform CellValueType.boolean ts h = common_type-Uniform mixed_branches ts h
  infer_choose-Uniform _ ts h = cc

  choose_value-Fits :
      (vs : List (Value js)) (ts : List CellValueType) {t : CellValueType}
      → AllFit vs ts
      → infer_choose ts ≡ ok t
      → Fits (choose_value js vs) t
  unfolding choose_value
  choose_value-Fits [] ts fit h = inl refl
  choose_value-Fits (v ∷ vs) [] fit h = absurd fit
  choose_value-Fits (CellValue.boolean true ∷ vs) (c ∷ ts) {t} fit h =
      value_at-Fits t vs ts 0 fit.1 (infer_choose-Uniform c ts h)
  choose_value-Fits (CellValue.boolean false ∷ vs) (c ∷ ts) {t} fit h =
      value_at-Fits t vs ts 1 fit.1 (infer_choose-Uniform c ts h)
  choose_value-Fits (_ ∷ vs) (c ∷ ts) fit h = inl refl

  evaluate_call-Fits :
      (f : Function) (vs : List (Value js)) (ts : List CellValueType) {t : CellValueType}
      → AllFit vs ts
      → infer_function f ts ≡ ok t
      → Fits (evaluate_call js f vs) t
  unfolding evaluate_call infer_function assert_types
  evaluate_call-Fits concat vs ts fit h = ground arith
  evaluate_call-Fits lower vs ts fit h = ground (arith, change_text-Fits js.lower vs)
  evaluate_call-Fits upper vs ts fit h = ground (arith, change_text-Fits js.upper vs)
  evaluate_call-Fits trim vs ts fit h = ground (arith, change_text-Fits js.trim vs)
  evaluate_call-Fits add vs ts fit h = ground (arith, compute-Fits js.add vs)
  evaluate_call-Fits subtract vs ts fit h = ground (arith, compute-Fits js.subtract vs)
  evaluate_call-Fits multiply vs ts fit h = ground (arith, compute-Fits js.multiply vs)
  evaluate_call-Fits divide vs ts fit h = ground (arith, compute-Fits (safe_divide js) vs)
  evaluate_call-Fits equals vs ts fit h = ground arith
  evaluate_call-Fits coalesce vs ts {t} fit h =
      first_value-Fits t vs ts fit (common_type-Uniform mixed_coalesce ts h)
  evaluate_call-Fits choose vs ts fit h = choose_value-Fits vs ts fit h

  -- Each column's value is one that the column's type allows.
  abbrev pub ValuesFit : Values js → ColumnTypes → Type 0
  ValuesFit values types =
      (c : ℕ) (t : CellValueType) → types c ≡ some t → Fits (read_column js (values c)) t

  mutual
    unfolding evaluate infer_type infer_call

    sound :
        (e : Expression js.Number js.Json) (values : Values js) (types : ColumnTypes)
        (t : CellValueType)
        → ValuesFit values types
        → infer_type e types ≡ ok t
        → Fits (evaluate js e values) t
    sound (column c) values types t fit h = fit c t (ground arith)
    sound (literal v) values types t fit h = ground arith
    sound (call f args) values types t fit h =
        let (ts, typed, called) = >>=-eq-ok (infer_types args types) (infer_call f) h in
        let (_, _, inferred) =
          >>=-eq-ok (assert_arity f (length ts)) (λ _. infer_function f ts) called in
        evaluate_call-Fits f (evaluate_arguments js args values) ts
          (sound_arguments args values types ts fit typed) inferred

    sound_arguments :
        (args : Arguments js.Number js.Json) (values : Values js) (types : ColumnTypes)
        (ts : List CellValueType)
        → ValuesFit values types
        → infer_types args types ≡ ok ts
        → AllFit (evaluate_arguments js args values) ts
    sound_arguments no_arguments values types ts fit h =
        let none_typed : [] ≡ ts = cc in subst (AllFit []) none_typed tt
    sound_arguments (argument e rest) values types ts fit h =
        let (t, et, h') =
          >>=-eq-ok (infer_type e types) (λ u. infer_types rest types >>= λ us. ok (u ∷ us)) h in
        let (us, er, h'') = >>=-eq-ok (infer_types rest types) (λ us. ok (t ∷ us)) h' in
        let typed : t ∷ us ≡ ts = cc in
        subst (AllFit (evaluate_arguments js (argument e rest) values)) typed
          (sound e values types t fit et, sound_arguments rest values types us fit er)

  -- A formula whose inferred type is `t`, over columns whose values are empty or of their column's
  -- type, evaluates to an empty value or to a value of type `t`.
  pub evaluate-Fits :
      (e : Expression js.Number js.Json) (values : Values js) (types : ColumnTypes)
      {t : CellValueType}
      → ValuesFit values types
      → infer_type e types ≡ ok t
      → Fits (evaluate js e values) t
  evaluate-Fits e values types {t} fit h = sound e values types t fit h
