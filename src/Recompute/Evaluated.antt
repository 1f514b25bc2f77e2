-- ===== src/Recompute/Evaluated.antt =====
-- What the loop of recomputeDependentSqliteFormulasForRow over the ordered columns leaves
-- (packages/db/src/sqlite/formulas.ts).
use byok_grid.Common.{
  ℕ, ◌≤◌, ◌≡◌, ◌⊎◌, inl, inr, refl, ap, sym, subst, ◌∙◌, true, false, Option, none, some, List, [],
  ◌∷◌, ◌==◌, ==_iff, ==_refl, Result, ok, >>=-eq-ok, >>-eq-ok, require, Bool-cases, Option-cases,
  arith,
}
use byok_grid.Formula.Values.{Runtime, Value}
use byok_grid.Formula.Syntax.{Expression, collect_column_ids}
use byok_grid.Formula.Evaluate.{read_column, evaluate}
use byok_grid.Formula.Frame.{contains, evaluate-frame}
use byok_grid.Toposort.Counts.{count}
use byok_grid.Toposort.Edges.{Edges, HasEdge}
use byok_grid.Toposort.Order.{Follows}
use byok_grid.Recompute.Graph.{RecomputeError, produced_other_type}
use byok_grid.Recompute.Row.{
  Cell, FormulaColumn, Row, cell_of, evaluate_column, evaluate_columns, formula_of, is_expected,
  stored, write_cell,
}
use byok_grid.Recompute.Storage.{IsIso, IsoLiterals, evaluate-IsIso}
use byok_grid.Recompute.Cells.{Keyed, Wrote, has_id, write_cell-Wrote}

-- A column that has been taken is not among those that are left.
pub Follows-apart :
    (es : Edges) (done xs : List ℕ) (s : ℕ) → Follows es done xs → 1 ≤ count s done → count s xs ≡ 0
Follows-apart es done [] s f h = refl
Follows-apart es done (x ∷ xs) s f h = elim (Bool-cases (x == s)) [
  | inl e ↦
      let none_done : count s done ≡ 0 = subst (λ z. count z done ≡ 0) ((==_iff x s).0 e) f.1 in
      absurd (omega arith)
  | inr e ↦ ground (arith, Follows-apart es (x ∷ done) xs s f.2)
]

module _ (js : Runtime) where
  abbrev Formula : Type 0
  Formula = Expression js.Number js.Json

  -- The column is a formula with this expression.
  abbrev pub IsFormula : List (FormulaColumn js) → ℕ → Formula → Type 0
  IsFormula formulas id e =
      (f : FormulaColumn js) × (formula_of js formulas id ≡ some f) × (f.expression ≡ some e)

  -- The timestamps among the literals of the formulas are as `toISOString` writes them.
  abbrev pub IsoFormulas : List (FormulaColumn js) → Type 0
  IsoFormulas formulas = (id : ℕ) (e : Formula) → IsFormula formulas id e → IsoLiterals js e

  -- The values in memory are those of the cells, whose ids are all different; timestamps among them
  -- are as `toISOString` writes them.
  pub record InSync (row : Row js) : Type 0 where
    pub same : (c : ℕ) → read_column js (row.values c) ≡ read_column js (stored js row.cells c)
    pub keyed : Keyed js row.cells
    pub iso : (c : ℕ) → IsIso js (read_column js (row.values c))

  Wrote-InSync :
      (column : ℕ) (v : Value js) (row row' : Row js)
      → Wrote js column v row row'
      → IsIso js v
      → InSync row
      → InSync row'
  Wrote-InSync column v row row' wrote iso sync = record {
    same = λ c. elim (Bool-cases (column == c)) [
      | inl e ↦ rw (wrote.in_memory c) (rw (wrote.on_disk c) (rw e refl))
      | inr e ↦ rw (wrote.in_memory c) (rw (wrote.on_disk c) (rw e (sync.same c)))
    ];
    keyed = wrote.keyed;
    iso = λ c. elim (Bool-cases (column == c)) [
      | inl e ↦ rw (wrote.in_memory c) (rw e iso)
      | inr e ↦ rw (wrote.in_memory c) (rw e (sync.iso c))
    ];
  }

  same_formula :
      {a b : FormulaColumn js} → ◌≡◌ {A = Option (FormulaColumn js)} (some a) (some b) → a ≡ b
  same_formula h = cc

  pub same_expression : {a b : Formula} → ◌≡◌ {A = Option Formula} (some a) (some b) → a ≡ b
  same_expression h = cc

  same_row : {a b : Row js} → ◌≡◌ {A = Result RecomputeError (Row js)} (ok a) (ok b) → a ≡ b
  same_row h = cc

  -- A column has one expression.
  IsFormula-unique :
      (formulas : List (FormulaColumn js)) (id : ℕ) (e e' : Formula)
      → IsFormula formulas id e
      → IsFormula formulas id e'
      → e ≡ e'
  IsFormula-unique formulas id e e' (f, found, at) (f', found', at') =
      let same : f ≡ f' = same_formula (sym found ∙ found') in
      same_expression (sym at ∙ (ap (λ z. z.expression) same ∙ at'))

  formula_id :
      (formulas : List (FormulaColumn js)) (id : ℕ) (f : FormulaColumn js)
      → formula_of js formulas id ≡ some f
      → f.id ≡ id
  formula_id [] id f h = cc
  formula_id (g ∷ gs) id f h = elim (Bool-cases (g.id == id)) [
    | inl e ↦
        let same : g ≡ f = same_formula (rw e at h) in
        subst (λ z. z.id ≡ id) same ((==_iff g.id id).0 e)
    | inr e ↦ formula_id gs id f (rw e at h)
  ]

  module _ (new_id : List (Cell js) → ℕ)
      (fresh : (cells : List (Cell js)) → has_id js (new_id cells) cells ≡ false)
      (formulas : List (FormulaColumn js)) (iso : IsoFormulas formulas) where
    -- One round on a column: nothing when it is no formula, or the write of its value.
    abbrev Round : ℕ → Row js → Row js → Type 0
    Round id row row' =
        ((formula_of js formulas id ≡ none) × (row ≡ row'))
        ⊎ ((e : Formula) × IsFormula formulas id e
            × Wrote js id (evaluate js e row.values) row row')

    evaluate_column-Round :
        (id : ℕ) (row row' : Row js)
        → InSync row
        → evaluate_column js new_id (formula_of js formulas id) row ≡ ok row'
        → Round id row row'
    unfolding evaluate_column
    evaluate_column-Round id row row' sync h = elim (Option-cases (formula_of js formulas id)) [
      | inl missing ↦ let passed = rw missing at h in inl (missing, cc)
      | inr (f, found) ↦ inr (with_formula f found (rw found at h))
    ]
      where
        with_formula :
            (f : FormulaColumn js)
            → formula_of js formulas id ≡ some f
            → evaluate_column js new_id (some f) row ≡ ok row'
            → (e : Formula) × IsFormula formulas id e
              × Wrote js id (evaluate js e row.values) row row'
        with_formula f found h = elim (Option-cases f.expression) [
          | inl none_there ↦ let bad = rw none_there at h in cc
          | inr (e, expression) ↦
              let (passed, wrote) =
                >>-eq-ok
                  (require (is_expected js (evaluate js e row.values) f.value_type)
                    produced_other_type)
                  (ok (
                    write_cell js new_id f.id (evaluate js e row.values) (cell_of js row.cells f.id)
                      row))
                  (rw expression at h) in
              let same = same_row wrote in
              (
                e,
                (f, found, expression),
                subst (λ column. Wrote js column (evaluate js e row.values) row row')
                    (formula_id formulas id f found)
                    (subst (λ r. Wrote js f.id (evaluate js e row.values) row r) same
                      (write_cell-Wrote js new_id fresh f.id (evaluate js e row.values)
                        (cell_of js row.cells f.id) row
                        (evaluate-IsIso js e row.values sync.iso (iso id e (f, found, expression)))
                        refl sync.keyed)),
              )
        ]

    -- What the loop on the ids leaves: other columns are as they were, and each formula among the
    -- ids whose columns come before it, or not at all, has the value of its expression.
    pub record Evaluated (es : Edges) (ids : List ℕ) (row row' : Row js) : Type 0 where
      pub sync : InSync row'
      pub untouched :
          (c : ℕ) → count c ids ≡ 0 → read_column js (row'.values c) ≡ read_column js (row.values c)
      pub right :
          (id : ℕ) (e : Formula)
          → 1 ≤ count id ids
          → IsFormula formulas id e
          → ((c : ℕ)
              → contains (collect_column_ids e) c ≡ true
              → HasEdge c id es ⊎ (count c ids ≡ 0))
          → read_column js (row'.values id) ≡ evaluate js e row'.values

    Round-InSync : (id : ℕ) (row row' : Row js) → Round id row row' → InSync row → InSync row'
    Round-InSync id row row' (inl (missing, same)) sync = subst InSync same sync
    Round-InSync id row row' (inr (e, formula, wrote)) sync =
        Wrote-InSync id (evaluate js e row.values) row row' wrote
          (evaluate-IsIso js e row.values sync.iso (iso id e formula)) sync

    Round-untouched :
        (id : ℕ) (row row' : Row js)
        → Round id row row'
        → (c : ℕ) → (id == c) ≡ false
        → read_column js (row'.values c) ≡ read_column js (row.values c)
    Round-untouched id row row' (inl (missing, same)) c apart =
        subst (λ r. read_column js (r.values c) ≡ read_column js (row.values c)) same refl
    Round-untouched id row row' (inr (e, formula, wrote)) c apart =
        rw (wrote.in_memory c) (rw apart refl)

    Round-right :
        (id : ℕ) (row row' : Row js) (e : Formula)
        → Round id row row'
        → IsFormula formulas id e
        → read_column js (row'.values id) ≡ evaluate js e row.values
    Round-right id row row' e (inl (missing, same)) (f, found, expression) = cc
    Round-right id row row' e (inr (e', formula', wrote)) formula =
        subst (λ z. read_column js (row'.values id) ≡ evaluate js z row.values)
          (IsFormula-unique formulas id e' e formula' formula)
          (rw (wrote.in_memory id) (rw (==_refl id) refl))

    tail_reads :
        (es : Edges) (id : ℕ) (ids : List ℕ) (c other : ℕ)
        → HasEdge c other es ⊎ (count c (id ∷ ids) ≡ 0)
        → HasEdge c other es ⊎ (count c ids ≡ 0)
    tail_reads es id ids c other (inl edge) = inl edge
    tail_reads es id ids c other (inr apart) = inr (omega arith)

    -- The first column of those that are left: nothing that it reads changes from its round on.
    head_right :
        (es : Edges) (done : List ℕ) (id : ℕ) (ids : List ℕ) (row row1 row' : Row js) (e : Formula)
        → Follows es done (id ∷ ids)
        → Round id row row1
        → Evaluated es ids row1 row'
        → IsFormula formulas id e
        → ((c : ℕ)
            → contains (collect_column_ids e) c ≡ true
            → HasEdge c id es ⊎ (count c (id ∷ ids) ≡ 0))
        → read_column js (row'.values id) ≡ evaluate js e row'.values
    head_right es done id ids row row1 row' e follows round rest formula reads =
        rest.untouched id (Follows-apart es (id ∷ done) ids id follows.2 (ground arith))
        ∙ (Round-right id row row1 e round formula
            ∙ evaluate-frame js e row.values row'.values (λ c m. sym (kept c (left c (reads c m)))))
      where
        left : (c : ℕ) → HasEdge c id es ⊎ (count c (id ∷ ids) ≡ 0) → count c (id ∷ ids) ≡ 0
        left c (inl edge) = Follows-apart es done (id ∷ ids) c follows (follows.0 c edge)
        left c (inr apart) = apart

        kept :
            (c : ℕ)
            → count c (id ∷ ids) ≡ 0
            → read_column js (row'.values c) ≡ read_column js (row.values c)
        kept c h =
            rest.untouched c (omega arith) ∙ Round-untouched id row row1 round c (ground arith)

    pub evaluate_columns-Evaluated :
        (es : Edges) (done ids : List ℕ) (row row' : Row js)
        → Follows es done ids
        → InSync row
        → evaluate_columns js new_id formulas ids row ≡ ok row'
        → Evaluated es ids row row'
    unfolding evaluate_columns
    evaluate_columns-Evaluated es done [] row row' follows sync h =
        subst (Evaluated es [] row) (same_row h) (record {
          sync = sync;
          untouched = λ c none_left. refl;
          right = λ id e some_left. absurd (omega arith);
        })
    evaluate_columns-Evaluated es done (id ∷ ids) row row' follows sync h =
        let (row1, first, others) =
          >>=-eq-ok (evaluate_column js new_id (formula_of js formulas id) row) _ h in
        let round = evaluate_column-Round id row row1 sync first in
        let rest =
          evaluate_columns-Evaluated es (id ∷ done) ids row1 row' follows.2
            (Round-InSync id row row1 round sync) others in
        record {
          sync = rest.sync;
          untouched = λ c h.
              rest.untouched c (omega arith) ∙ Round-untouched id row row1 round c (ground arith);
          right = λ other e h formula reads. elim (Bool-cases (id == other)) [
            | inl same ↦
                subst
                  (λ z.
                    IsFormula formulas z e
                    → ((c : ℕ)
                        → contains (collect_column_ids e) c ≡ true
                        → HasEdge c z es ⊎ (count c (id ∷ ids) ≡ 0))
                    → read_column js (row'.values z) ≡ evaluate js e row'.values)
                  ((==_iff id other).0 same)
                  (head_right es done id ids row row1 row' e follows round rest) formula reads
            | inr apart ↦
                rest.right other e (ground arith) formula
                  (λ c m. tail_reads es id ids c other (reads c m))
          ];
        }
