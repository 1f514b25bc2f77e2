-- ===== src/Recompute/Ordered.antt =====
-- The order in which recomputeDependentSqliteFormulasForRow evaluates the columns it reaches
-- (packages/db/src/sqlite/formulas.ts).
use byok_grid.Common.{
  ℕ, ◌+◌, ◌≤◌, ◌≡◌, ◌↔◌, inl, inr, refl, ap, sym, subst, ◌∙◌, Bool, true, ◌&&◌, some, List, [], ◌∷◌,
  ◌==◌, ==_iff, keep, length, if◌then◌else◌, Bool-cases, arith,
}
use byok_grid.Toposort.Loop.{ℤ, pos, is_zero, put}
use byok_grid.Toposort.Counts.{one_if, count, count-append, Within}
use byok_grid.Toposort.Edges.{Edges, HasEdge, targets, waiting}
use byok_grid.Toposort.Invariant.{is_zero-pos}
use byok_grid.Toposort.Order.{Follows, Acyclic, drain_total}
use byok_grid.Workflow.Validate.{member, increment}
use byok_grid.Workflow.Compile.{sort_ids}
use byok_grid.Workflow.Compiled.Sets.{count-sort_ids}
use byok_grid.Recompute.Graph.{
  Dependency, count_degrees, dependents, evaluation_order, push_ready, reachable_dependents,
}
use byok_grid.Recompute.Reached.{member-count}

-- The dependencies between columns of the set, as edges to the column that depends.
abbrev pub inner_edges : List Dependency → List ℕ → Edges
inner_edges [] reachable = []
inner_edges (d ∷ ds) reachable =
    let rest = inner_edges ds reachable in
    if member d.column_id reachable && member d.depends_on_column_id reachable
    then (d.depends_on_column_id, d.column_id) ∷ rest
    else rest

put-increment :
    (degrees : ℕ → ℤ) (c t k : ℕ)
    → degrees t ≡ pos k
    → put degrees c (increment (degrees c)) t ≡ pos (k + one_if (c == t))
put-increment degrees c t k h = elim (Bool-cases (c == t)) [
  | inl e ↦
      let here : degrees c ≡ pos k = ap degrees ((==_iff c t).0 e) ∙ h in
      rw e (rw here (ap pos (omega arith)))
  | inr e ↦ rw e (h ∙ ap pos (omega arith))
]

count_degrees-waiting :
    (reachable : List ℕ) (deps : List Dependency) (degrees : ℕ → ℤ) (t k : ℕ)
    → degrees t ≡ pos k
    → count_degrees reachable deps degrees t ≡ pos (k + waiting t (inner_edges deps reachable) [])
unfolding count_degrees
count_degrees-waiting reachable [] degrees t k h = ground arith
count_degrees-waiting reachable (d ∷ ds) degrees t k h =
    elim (Bool-cases (member d.column_id reachable && member d.depends_on_column_id reachable)) [
      | inl e ↦ rw e (
          count_degrees-waiting reachable ds
            (put degrees d.column_id (increment (degrees d.column_id))) t
            (k + one_if (d.column_id == t)) (put-increment degrees d.column_id t k h)
          ∙ ap pos (ground arith))
      | inr e ↦ rw e (count_degrees-waiting reachable ds degrees t k h)
    ]

count-keep :
    (test : ℕ → Bool) (xs : List ℕ) (t : ℕ)
    → count t (keep test xs) ≡ (if test t then count t xs else 0)
count-keep test [] t = ground arith
count-keep test (x ∷ xs) t = elim (Bool-cases (x == t)) [
  | inl e ↦
      let same : test x ≡ test t = ap test ((==_iff x t).0 e) in
      ground (arith, count-keep test xs t)
  | inr e ↦ ground (arith, count-keep test xs t)
]

inner_edges-closed :
    (deps : List Dependency) (reachable : List ℕ) (s t : ℕ)
    → HasEdge s t (inner_edges deps reachable)
    → (member s reachable ≡ true) × (member t reachable ≡ true)
inner_edges-closed [] reachable s t h = absurd h
inner_edges-closed (d ∷ ds) reachable s t h =
    elim (Bool-cases (member d.column_id reachable && member d.depends_on_column_id reachable)) [
      | inl e ↦
          first_edge (ground arith) (ground arith) (inner_edges-closed ds reachable s t) (rw e at h)
      | inr e ↦ inner_edges-closed ds reachable s t (rw e at h)
    ]
  where
    first_edge :
        member d.column_id reachable ≡ true
        → member d.depends_on_column_id reachable ≡ true
        → (HasEdge s t (inner_edges ds reachable)
            → (member s reachable ≡ true) × (member t reachable ≡ true))
        → HasEdge s t ((d.depends_on_column_id, d.column_id) ∷ inner_edges ds reachable)
        → (member s reachable ≡ true) × (member t reachable ≡ true)
    first_edge target source others (inl (from, to)) = (
      subst (λ z. member z reachable ≡ true) from source,
      subst (λ z. member z reachable ≡ true) to target,
    )
    first_edge target source others (inr other) = others other

reachable_dependents-targets :
    (deps : List Dependency) (reachable : List ℕ) (x t : ℕ)
    → member x reachable ≡ true
    → reachable_dependents deps reachable x ≡ targets x (inner_edges deps reachable)
unfolding reachable_dependents dependents
reachable_dependents-targets [] reachable x t m = refl
reachable_dependents-targets (d ∷ ds) reachable x t m =
    let rest = reachable_dependents-targets ds reachable x t m in
    elim (Bool-cases (d.depends_on_column_id == x)) [
      | inl e ↦
          let source : member d.depends_on_column_id reachable ≡ true =
            subst (λ z. member z reachable ≡ true) (sym ((==_iff d.depends_on_column_id x).0 e))
              m in
          ground (arith, rest)
      | inr e ↦ ground (arith, rest)
    ]

-- The order, when there is one, holds each reachable column once, after the reachable columns that
-- it depends on; there is one exactly when the reachable columns have no cycle.
pub evaluation_order-Follows :
    (deps : List Dependency) (reachable : List ℕ)
    → ((y : ℕ) → count y reachable ≤ 1)
    → (order : List ℕ) × (evaluation_order deps reachable ≡ some order)
      × Follows (inner_edges deps reachable) [] order
      × Within order reachable
      × ((length order ≡ length reachable) ↔ Acyclic (inner_edges deps reachable))
unfolding evaluation_order
evaluation_order-Follows deps reachable unique =
    drain_total reachable (inner_edges deps reachable) closed push_ready pushed sort_ids
      count-sort_ids (reachable_dependents deps reachable) splits unique (length reachable)
      (sort_ids (keep (λ id. is_zero (degrees id)) reachable)) degrees (omega arith) waits ready
  where
    degrees : ℕ → ℤ
    degrees = count_degrees reachable deps (λ id. pos 0)

    held : (t : ℕ) → member t reachable ≡ true → 1 ≤ count t reachable
    held t h = ground (arith, member-count t reachable)

    closed :
        (s t : ℕ)
        → HasEdge s t (inner_edges deps reachable)
        → (1 ≤ count s reachable) × (1 ≤ count t reachable)
    closed s t h =
        let (source, target) = inner_edges-closed deps reachable s t h in
        (held s source, held t target)

    pushed :
        (ready : List ℕ) (u t : ℕ) → count t (push_ready ready u) ≡ one_if (u == t) + count t ready
    pushed ready u t = omega (arith, count-append t ready (u ∷ []))

    splits :
        (x t : ℕ)
        → 1 ≤ count x reachable
        → count t (reachable_dependents deps reachable x)
          ≡ count t (targets x (inner_edges deps reachable))
    splits x t h =
        let inside : member x reachable ≡ true = ground (arith, member-count x reachable) in
        ap (count t) (reachable_dependents-targets deps reachable x t inside)

    waits : (t : ℕ) → degrees t ≡ pos (waiting t (inner_edges deps reachable) [])
    waits t = count_degrees-waiting reachable deps (λ id. pos 0) t 0 refl ∙ ap pos (omega arith)

    ready :
        (t : ℕ)
        → count t (sort_ids (keep (λ id. is_zero (degrees id)) reachable))
          ≡ (if waiting t (inner_edges deps reachable) [] == 0 then count t reachable else 0)
    ready t =
        count-sort_ids (keep (λ id. is_zero (degrees id)) reachable) t
        ∙ count-keep (λ id. is_zero (degrees id)) reachable t
        ∙ rw (waits t) (rw (is_zero-pos (waiting t (inner_edges deps reachable) [])) refl)
