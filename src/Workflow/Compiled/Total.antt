-- ===== src/Workflow/Compiled/Total.antt =====
-- When `compileWorkflowGraph` throws, and what its plan has when it does not.
use byok_grid.Common.{
  ℕ, ◌≤◌, ◌≡◌, ◌⊎◌, inl, inr, refl, true, false, ◌&&◌, List, [], ◌∷◌, length, leb, Text, ok, err,
  Bool-cases, arith,
}
use Prim.Native.Nat.{Ordering}
use byok_grid.Toposort.Counts.{count}
use byok_grid.Toposort.Order.{Follows}
use byok_grid.Workflow.Graph.{Graph, node_ids}
use byok_grid.Workflow.Plan.{CompiledPlan}
use byok_grid.Workflow.Validate.{Issue, validate_structure}
use byok_grid.Workflow.Publish.{PublishIssue, validate_publishable}
use byok_grid.Workflow.WellFormed.Scans.{ends}
use byok_grid.Workflow.WellFormed.Valid.{WellFormed, validate_structure-eq-nil_iff}
use byok_grid.Workflow.Compile.{
  too_large, invalid_graph, without_issues, parse_graph, compile_graph, step_ids,
}
use byok_grid.Workflow.Compiled.Order.{compile_plan_total}

-- The graph has at most 100 nodes and 200 edges.
abbrev pub Small : {C : Type 0} → Graph C → Type 0
Small g = (length g.edges ≤ 200) × (length g.nodes ≤ 100)

-- What the schema demands of a graph.
abbrev pub Parses : {C : Type 0} → Graph C → Type 0
Parses g = Small g × WellFormed g × (validate_publishable g ≡ [])

module _ {C : Type 0} (locale_ids : ℕ → ℕ → Ordering) (locale_texts : Text → Text → Ordering)
    (g : Graph C) where
  -- The plan has a step for each node and no other, each after the sources of its edges.
  abbrev pub Compiles : Type 0
  Compiles =
      (plan : CompiledPlan C) × (compile_graph locale_ids locale_texts g ≡ ok plan)
      × Follows (ends g.edges) [] (step_ids plan.steps)
      × ((t : ℕ) → count t (step_ids plan.steps) ≡ count t (node_ids g.nodes))

  -- The graph is too large, or the issues of both checks are reported.
  abbrev pub Throws : Type 0
  Throws =
      ((¬ Small g) × (compile_graph locale_ids locale_texts g ≡ err too_large))
      ⊎ ((¬ (WellFormed g × (validate_publishable g ≡ [])))
          × (compile_graph locale_ids locale_texts g
              ≡ err (invalid_graph (validate_structure g) (validate_publishable g))))

  parsed :
      (issues : List Issue) (others : List PublishIssue)
      → ((issues ≡ []) × (others ≡ []) × (without_issues g issues others ≡ ok g))
        ⊎ ((¬ ((issues ≡ []) × (others ≡ [])))
            × (without_issues g issues others ≡ err (invalid_graph issues others)))
  parsed [] [] = inl (refl, refl, refl)
  parsed (issue ∷ issues) others = inr ((λ (h, _). cc), refl)
  parsed [] (issue ∷ issues) = inr ((λ (_, h). cc), refl)

  sizes_hold : (leb (length g.edges) 200 && leb (length g.nodes) 100) ≡ true → Small g
  sizes_hold h = ground arith

  sizes_fail : (leb (length g.edges) 200 && leb (length g.nodes) 100) ≡ false → ¬ Small g
  sizes_fail h = λ (edges, nodes). ground arith

  -- Every graph is either compiled or refused, whatever the locale. It is compiled if it has at most
  -- 100 nodes and 200 edges, is well formed and has no issue for its publication, and then the plan has a step for each
  -- node and no other, each after the sources of its edges. Else it is refused for its size or with
  -- the issues of both checks, so the error that the nodes could not be ordered is never thrown.
  pub compile_graph_total : (Parses g × Compiles) ⊎ ((¬ Parses g) × Throws)
  unfolding compile_graph parse_graph
  compile_graph_total = elim (Bool-cases (leb (length g.edges) 200 && leb (length g.nodes) 100)) [
    | inr large ↦ inr ((λ parses. sizes_fail large parses.0), inl (sizes_fail large, rw large refl))
    | inl small ↦ elim (parsed (validate_structure g) (validate_publishable g)) [
      | inl (no_issues, publishable, passed) ↦
          let valid = (validate_structure-eq-nil_iff g).0 no_issues in
          let (plan, built, follows, counts) = compile_plan_total locale_ids locale_texts g valid in
          inl (
            (sizes_hold small, valid, publishable),
            (plan, rw (small, passed) built, follows, counts),
          )
      | inr (issues, refused) ↦
          let bad : ¬ (WellFormed g × (validate_publishable g ≡ [])) = λ (valid, publishable).
            issues ((validate_structure-eq-nil_iff g).1 valid, publishable) in
          inr ((λ parses. bad (parses.1, parses.2)), inr (bad, rw (small, refused) refl))
    ]
  ]
