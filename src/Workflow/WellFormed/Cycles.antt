-- ===== src/Workflow/WellFormed/Cycles.antt =====
-- The counts that the scan of the edges leaves, and the loop that visits the nodes.
use byok_grid.Common.{
  ℕ, suc, ◌+◌, ◌≤◌, ◌≡◌, ◌↔◌, inl, inr, refl, ◌∙◌, ap, sym, false, not, Option, some, List, [], ◌∷◌,
  ◌++◌, ◌==◌, arith, All, append-nil, append_assoc, if◌then◌else◌, length, Distinct,
}
use byok_grid.Toposort.Loop.{ℤ, pos, is_zero, drain}
use byok_grid.Toposort.Counts.{count, one_if}
use byok_grid.Toposort.Edges.{HasEdge, targets, waiting}
use byok_grid.Toposort.Invariant.{is_zero-pos}
use byok_grid.Toposort.Order.{Acyclic, drain_total}
use byok_grid.Workflow.Graph.{Node, Edge, Graph, node_ids, node_by_id-count}
use byok_grid.Workflow.Validate.{
  cycle, issue_if, Scan, start_scan, scan_edges, ready_ids, push, visited_all, cycle_issues,
}
use byok_grid.Workflow.WellFormed.Connects.{Connects}
use byok_grid.Workflow.WellFormed.Scans.{recorded, scan_edge-recorded, ends, same_id}

outgoing_step :
    (e : Edge) (es : List Edge) (scan : Scan) (x : ℕ)
    → (recorded e scan).outgoing x ++ targets x (ends es)
      ≡ scan.outgoing x ++ targets x (ends (e ∷ es))
outgoing_step e es scan x =
    ground (arith, append_assoc (scan.outgoing x) (e.target_node_id ∷ []) (targets x (ends es)))

module _ {C : Type 0} where
  scan-outgoing :
      (nodes : List (Node C)) (index : ℕ) (es : List Edge) (scan : Scan) (x : ℕ)
      → All (Connects nodes) es
      → (scan_edges nodes index es scan).outgoing x ≡ scan.outgoing x ++ targets x (ends es)
  unfolding scan_edges
  scan-outgoing nodes index [] scan x all = rw append-nil
  scan-outgoing nodes index (e ∷ es) scan x all =
      rw (scan_edge-recorded nodes index e scan all.0, scan_edges)
        (scan-outgoing nodes (index + 1) es (recorded e scan) x all.1 ∙ outgoing_step e es scan x)

  scan-incoming :
      (nodes : List (Node C)) (index : ℕ) (es : List Edge) (scan : Scan) (t k : ℕ)
      → All (Connects nodes) es
      → scan.incoming t ≡ pos k
      → (scan_edges nodes index es scan).incoming t ≡ pos (k + waiting t (ends es) [])
  unfolding scan_edges
  scan-incoming nodes index [] scan t k all start = ground arith
  scan-incoming nodes index (e ∷ es) scan t k all start =
      rw (scan_edge-recorded nodes index e scan all.0, scan_edges)
        (scan-incoming nodes (index + 1) es (recorded e scan) t (k + one_if (e.target_node_id == t))
            all.1 (ground arith)
          ∙ ap pos (ground arith))

  count-ready_ids :
      (left : ℕ → ℤ) (ns : List (Node C)) (stack : List ℕ) (t : ℕ)
      → count t (ready_ids left ns stack)
        ≡ count t stack + (if is_zero (left t) then count t (node_ids ns) else 0)
  unfolding ready_ids
  count-ready_ids left [] stack t = ground arith
  count-ready_ids left (n ∷ ns) stack t =
      ground
        (arith, count-ready_ids left ns (if is_zero (left n.id) then n.id ∷ stack else stack) t)

  -- The ends of an edge that connects are nodes.
  pub Connects-closed :
      (nodes : List (Node C)) (es : List Edge)
      → All (Connects nodes) es
      → (s t : ℕ) → HasEdge s t (ends es)
      → (1 ≤ count s (node_ids nodes)) × (1 ≤ count t (node_ids nodes))
  Connects-closed nodes [] all s t h = absurd h
  Connects-closed nodes (e ∷ es) all s t (inl (from, to)) =
      let (source, target, at_source, at_target, _, _, _) = all.0 in
      (
        rw (← from) (node_by_id-count nodes e.source_node_id at_source).1,
        rw (← to) (node_by_id-count nodes e.target_node_id at_target).1,
      )
  Connects-closed nodes (e ∷ es) all s t (inr h) = Connects-closed nodes es all.1 s t h

apart→ : (x : ℕ) (xs : List ℕ) → All (λ y. same_id x y ≡ false) xs → count x xs ≡ 0
apart→ x [] h = omega arith
apart→ x (y ∷ ys) h = ground (arith, apart→ x ys h.1)

apart← : (x : ℕ) (xs : List ℕ) → count x xs ≡ 0 → All (λ y. same_id x y ≡ false) xs
apart← x [] h = tt
apart← x (y ∷ ys) h = (ground arith, apart← x ys (ground arith))

pub Distinct→ : (xs : List ℕ) → Distinct same_id xs → (t : ℕ) → count t xs ≤ 1
Distinct→ [] h t = omega arith
Distinct→ (x ∷ xs) h t = ground (arith, Distinct→ xs h.1 t, apart→ x xs h.0)

Distinct← : (xs : List ℕ) → ((t : ℕ) → count t xs ≤ 1) → Distinct same_id xs
Distinct← [] h = tt
Distinct← (x ∷ xs) h = (apart← x xs (ground (arith, h x)), Distinct← xs (λ t. omega (arith, h t)))

verdict :
    (o : Option (List ℕ)) (order : List ℕ) (n : ℕ)
    → o ≡ some order
    → (issue_if (not (visited_all n o)) cycle ≡ []) ↔ (length order ≡ n)
verdict o order n e = rw e ((λ h. ground arith), (λ h. ground arith))

module _ {C : Type 0} where
  length-node_ids : (ns : List (Node C)) → length (node_ids ns) ≡ length ns
  length-node_ids [] = refl
  length-node_ids (n ∷ ns) = ap suc (length-node_ids ns)

  module _ (g : Graph C) (distinct : Distinct same_id (node_ids g.nodes))
      (all : All (Connects g.nodes) g.edges) where
    abbrev scanned : Scan
    scanned = scan_edges g.nodes 0 g.edges start_scan

    scanned-incoming : (t : ℕ) → scanned.incoming t ≡ pos (waiting t (ends g.edges) [])
    scanned-incoming t =
        scan-incoming g.nodes 0 g.edges start_scan t 0 all refl ∙ ap pos (omega arith)

    scanned-ready :
        (t : ℕ)
        → count t (ready_ids scanned.incoming g.nodes [])
          ≡ (if waiting t (ends g.edges) [] == 0 then count t (node_ids g.nodes) else 0)
    scanned-ready t = ground (
      arith,
      count-ready_ids scanned.incoming g.nodes [] t,
      scanned-incoming t,
      is_zero-pos (waiting t (ends g.edges) []),
    )

    -- Over edges that connect nodes with ids of their own, the loop finds no cycle exactly when
    -- there is none.
    pub cycle_issues-Acyclic : (cycle_issues g scanned ≡ []) ↔ Acyclic (ends g.edges)
    unfolding cycle_issues
    cycle_issues-Acyclic =
        let (order, run, _, _, whole) =
          drain_total (node_ids g.nodes) (ends g.edges) (Connects-closed g.nodes g.edges all) push
            (λ ready u t. refl) (λ stack. stack) (λ ready t. refl) scanned.outgoing
            (λ x t node. ap (count t) (scan-outgoing g.nodes 0 g.edges start_scan x all))
            (Distinct→ (node_ids g.nodes) distinct) (length g.nodes + length g.edges)
            (ready_ids scanned.incoming g.nodes []) scanned.incoming
            (omega (arith, length-node_ids g.nodes)) scanned-incoming scanned-ready in
        let found =
          verdict
            (drain push (λ stack. stack) scanned.outgoing (length g.nodes + length g.edges)
              (ready_ids scanned.incoming g.nodes []) scanned.incoming)
            order (length g.nodes) run in
        (
          (λ h. whole.0 (found.0 h ∙ sym (length-node_ids g.nodes))),
          (λ h. found.1 (whole.1 h ∙ length-node_ids g.nodes)),
        )
