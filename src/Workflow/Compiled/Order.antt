-- ===== src/Workflow/Compiled/Order.antt =====
-- What the compiler does with a graph that passes the structure check.
use byok_grid.Common.{
  ℕ, zero, suc, ◌≤◌, ◌≡◌, refl, ap, ◌∙◌, sym, subst, Bool, true, some, List, [], ◌∷◌, ◌==◌, keep,
  length, if◌then◌else◌, arith, Bool-cases, ==_iff, Option-cases, inl, inr, Text, ok,
}
use Prim.Native.Nat.{Ordering}
use byok_grid.Toposort.Loop.{pos, is_zero}
use byok_grid.Toposort.Counts.{one_if, count, Within-full}
use byok_grid.Toposort.Edges.{Edges, HasEdge, targets, waiting}
use byok_grid.Toposort.Order.{Follows, drain_total}
use byok_grid.Workflow.Graph.{Node, Graph, node_ids, node_by_id}
use byok_grid.Workflow.Plan.{Route, CompiledStep, CompiledPlan}
use byok_grid.Workflow.Validate.{member}
use byok_grid.Workflow.WellFormed.Scans.{ends}
use byok_grid.Workflow.WellFormed.Cycles.{Connects-closed, Distinct→}
use byok_grid.Workflow.WellFormed.Valid.{WellFormed}
use byok_grid.Workflow.Compile.{
  set_of, insert_sorted, sort_ids, group_routes, no_routes, compile_routes, source_ids, target_ids,
  required_order, remaining, released, topological_order, step_of, compile_steps, step_ids,
  compile_plan, plan_of,
}
use byok_grid.Workflow.Compiled.Sets.{
  count-insert_sorted, count-sort_ids, count_absent, count-set_of, pairs, HasEdge-has, has-pairs,
  count-targets-pairs, route_ends, member-target_ids, waiting-pairs, group_routes_lem,
  has-compile_routes,
}

Follows-sub :
    (es es' : Edges) (done xs : List ℕ)
    → ((s t : ℕ) → HasEdge s t es' → HasEdge s t es)
    → Follows es done xs
    → Follows es' done xs
Follows-sub es es' done [] sub f = tt
Follows-sub es es' done (x ∷ xs) sub f =
    ((λ s e. f.0 s (sub s x e)), f.1, Follows-sub es es' (x ∷ done) xs sub f.2)

member_of : (t : ℕ) (xs : List ℕ) → 1 ≤ count t xs → member t xs ≡ true
member_of t xs h = ground (arith, count_absent t xs)

count_once : (t : ℕ) (xs : List ℕ) → count t xs ≤ 1 → count t (set_of xs) ≡ count t xs
count_once t xs h = ground (arith, count-set_of t xs, count_absent t xs)

count-keep :
    (test : ℕ → Bool) (xs : List ℕ) (t : ℕ)
    → count t (keep test xs) ≡ (if test t then count t xs else 0)
count-keep test [] t = ground arith
count-keep test (x ∷ xs) t = elim (Bool-cases (x == t)) [
  | inl same ↦
      let e : test x ≡ test t = ap test ((==_iff x t).0 same) in
      ground (arith, count-keep test xs t)
  | inr other ↦ ground (arith, count-keep test xs t)
]

required_order-full :
    (order : List ℕ) (n : ℕ) → length order ≡ n → required_order n (some order) ≡ ok order
required_order-full order n full = ground arith

is_zero_pos : (n : ℕ) → is_zero (pos n) ≡ (n == 0)
is_zero_pos zero = refl
is_zero_pos (suc n) = ground arith

module _ {C : Type 0} where
  node_found :
      (nodes : List (Node C)) (id : ℕ)
      → 1 ≤ count id (node_ids nodes)
      → (n : Node C) × (node_by_id nodes id ≡ some n)
  unfolding node_by_id
  node_found [] id h = absurd (omega arith)
  node_found (n ∷ ns) id h = elim (Option-cases (node_by_id ns id)) [
    | inl missing ↦ elim (Bool-cases (n.id == id)) [
      | inl same ↦ (n, rw (missing, same) refl)
      | inr other ↦ let (m, e) = node_found ns id (ground arith) in absurd cc
    ]
    | inr (m, found) ↦ (m, rw found refl)
  ]

  compile_steps-ok :
      (nodes : List (Node C)) (inbound outbound : ℕ → List Route) (ids : List ℕ)
      → ((t : ℕ) → 1 ≤ count t ids → 1 ≤ count t (node_ids nodes))
      → (steps : List (CompiledStep C)) × (compile_steps nodes inbound outbound ids ≡ ok steps)
        × (step_ids steps ≡ ids)
  unfolding compile_steps
  compile_steps-ok nodes inbound outbound [] here = ([], refl, refl)
  compile_steps-ok nodes inbound outbound (id ∷ ids) here =
      let (node, found) = node_found nodes id (here id (ground arith)) in
      let (steps, rest, same) =
        compile_steps-ok nodes inbound outbound ids (λ t h. here t (ground arith)) in
      (
        step_of id (inbound id) (outbound id) node ∷ steps,
        rw (found, rest) refl,
        ap (λ xs. id ∷ xs) same,
      )

module _ {C : Type 0} (locale_ids : ℕ → ℕ → Ordering) (locale_texts : Text → Text → Ordering)
    (g : Graph C) where
  abbrev routes : List Route
  routes = compile_routes locale_ids locale_texts g.edges

  abbrev inbound : ℕ → List Route
  inbound = group_routes (λ r. r.target_step_id) routes no_routes

  abbrev outbound : ℕ → List Route
  outbound = group_routes (λ r. r.source_step_id) routes no_routes

  abbrev dependencies : Edges
  dependencies = pairs (route_ends routes)

  dependencies→ : (s t : ℕ) → HasEdge s t dependencies → HasEdge s t (ends g.edges)
  dependencies→ s t h = (HasEdge-has s t (ends g.edges)).1 (
      sym (has-compile_routes locale_ids locale_texts s t g.edges)
      ∙ (sym (has-pairs s t (route_ends routes)) ∙ (HasEdge-has s t dependencies).0 h))

  dependencies← : (s t : ℕ) → HasEdge s t (ends g.edges) → HasEdge s t dependencies
  dependencies← s t h = (HasEdge-has s t dependencies).1 (
      has-pairs s t (route_ends routes)
      ∙ (has-compile_routes locale_ids locale_texts s t g.edges
          ∙ (HasEdge-has s t (ends g.edges)).0 h))

  remaining-waiting : (t : ℕ) → remaining inbound t ≡ pos (waiting t dependencies [])
  remaining-waiting t =
      ap (λ rs. pos (length (set_of (source_ids rs))))
        (group_routes_lem (λ r. r.target_step_id) routes t)
      ∙ ap pos (sym (waiting-pairs t routes))

  released-targets : (x t : ℕ) → count t (released outbound x) ≡ count t (targets x dependencies)
  released-targets x t =
      count-sort_ids (set_of (target_ids (outbound x))) t
      ∙ (count-set_of t (target_ids (outbound x))
          ∙ (ap (λ rs. one_if (member t (target_ids rs)))
                (group_routes_lem (λ r. r.source_step_id) routes x)
              ∙ (ap one_if (member-target_ids x t routes)
                  ∙ sym (count-targets-pairs x t (route_ends routes)))))

  module _ (valid : WellFormed g) where
    abbrev ids : List ℕ
    ids = set_of (node_ids g.nodes)

    count-ids : (t : ℕ) → count t ids ≡ count t (node_ids g.nodes)
    count-ids t =
        count_once t (node_ids g.nodes) (Distinct→ (node_ids g.nodes) valid.nodes_distinct t)

    dependencies-closed :
        (s t : ℕ) → HasEdge s t dependencies → (1 ≤ count s ids) × (1 ≤ count t ids)
    dependencies-closed s t h =
        let (from, to) =
          Connects-closed g.nodes g.edges valid.connected s t (dependencies→ s t h) in
        (omega (arith, count-ids s), omega (arith, count-ids t))

    ready-count :
        (t : ℕ)
        → count t (sort_ids (keep (λ id. is_zero (remaining inbound id)) ids))
          ≡ (if waiting t dependencies [] == 0 then count t ids else 0)
    ready-count t =
        count-sort_ids (keep (λ id. is_zero (remaining inbound id)) ids) t
        ∙ (count-keep (λ id. is_zero (remaining inbound id)) ids t
            ∙ ap (λ b. if b then count t ids else 0)
                (ap is_zero (remaining-waiting t) ∙ is_zero_pos (waiting t dependencies [])))

    ordered :
        (order : List ℕ) × (topological_order ids inbound outbound ≡ ok order)
        × Follows (ends g.edges) [] order
        × ((t : ℕ) → count t order ≡ count t (node_ids g.nodes))
    unfolding topological_order
    ordered =
        let (rank, up) = valid.acyclic in
        let (order, run, follows, within, whole) =
          drain_total ids dependencies dependencies-closed insert_sorted count-insert_sorted
            (λ rest. rest) (λ rest t. refl) (released outbound) (λ x t node. released-targets x t)
            (λ t. omega (arith, count-ids t, Distinct→ (node_ids g.nodes) valid.nodes_distinct t))
            (length ids) (sort_ids (keep (λ id. is_zero (remaining inbound id)) ids))
            (remaining inbound) (omega arith) remaining-waiting ready-count in
        let full : length order ≡ length ids =
          whole.1 (rank, λ s t e. up s t (dependencies→ s t e)) in
        (
          order,
          ap (required_order (length ids)) run ∙ required_order-full order (length ids) full,
          Follows-sub dependencies (ends g.edges) [] order dependencies← follows,
          λ t. omega (arith, within t, Within-full order ids within full t, count-ids t),
        )

  pub compile_plan_total :
      WellFormed g
      → (plan : CompiledPlan C) × (compile_plan locale_ids locale_texts g ≡ ok plan)
        × Follows (ends g.edges) [] (step_ids plan.steps)
        × ((t : ℕ) → count t (step_ids plan.steps) ≡ count t (node_ids g.nodes))
  unfolding compile_plan
  compile_plan_total valid =
      let (order, run, follows, counts) = ordered valid in
      let (steps, built, same) =
        compile_steps-ok g.nodes inbound outbound order (λ t m. omega (arith, counts t)) in
      (
        plan_of steps,
        rw (run, built) refl,
        subst (λ xs. Follows (ends g.edges) [] xs) (sym same) follows,
        λ t. ap (count t) same ∙ counts t,
      )
