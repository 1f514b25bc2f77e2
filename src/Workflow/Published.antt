-- ===== src/Workflow/Published.antt =====
-- What a graph that passes the check of `validatePublishableWorkflowGraph` has.
use byok_grid.Common.{
  ℕ, ◌+◌, ◌≡◌, ◌⊎◌, inl, inr, refl, Bool, true, false, not, ◌&&◌, List, [], ◌∷◌, ◌==◌, ==_iff, keep,
  length, All, append-eq-nil, Bool-cases, Option-cases, ◌≤◌, arith, sym, ap, ◌∙◌,
}
use byok_grid.Toposort.Loop.{ℤ, pos, put, is_zero}
use byok_grid.Workflow.Graph.{Node, NodeKind, Edge, Graph, node_ids}
use byok_grid.Workflow.Validate.{increment, member, visited_all}
use byok_grid.Toposort.Counts.{count, Within, Within-full}
use byok_grid.Workflow.Visited.{
  Reached, start, visit_loop-AllReached, push_all-AllReached, member-IsTriggerId, Reached-member,
  count_absent,
}
use byok_grid.Workflow.Publishable.{length-node_ids}
use byok_grid.Workflow.Publish.{
  push_all, PublishIssue, publish_issue_if, needs_trigger, needs_destination, unreachable_node,
  needs_input, is_trigger, is_destination, known, count_incoming, input_issues, triggers,
  destinations, reachable_nodes, validate_publishable,
}

-- An edge between two of the nodes ends at the node.
abbrev pub HasInput : List ℕ → List Edge → ℕ → Type 0
HasInput ids [] id = ⊥
HasInput ids (e ∷ es) id =
    ((member e.source_node_id ids ≡ true)
      × (member e.target_node_id ids ≡ true)
      × (e.target_node_id ≡ id))
    ⊎ HasInput ids es id

-- A node of the list has a kind that the test accepts.
abbrev pub HasKind : {C : Type 0} → (NodeKind → Bool) → List (Node C) → Type 0
HasKind test [] = ⊥
HasKind test (n ∷ ns) = (test n.kind ≡ true) ⊎ HasKind test ns

count_incoming-none :
    (ids : List ℕ) (es : List Edge) (incoming : ℕ → ℤ) (id : ℕ)
    → (¬ HasInput ids es id)
    → count_incoming ids es incoming id ≡ incoming id
unfolding count_incoming
count_incoming-none ids [] incoming id nothing = refl
count_incoming-none ids (e ∷ es) incoming id nothing = elim (Bool-cases (known ids e)) [
  | inr out ↦ rw out (count_incoming-none ids es incoming id (λ later. nothing (inr later)))
  | inl inside ↦ rw inside (
      count_incoming-none ids es
        (put incoming e.target_node_id (increment (incoming e.target_node_id))) id
        (λ later. nothing (inr later))
      ∙ elim (Bool-cases (e.target_node_id == id)) [
        | inl same ↦
            absurd (nothing (inl (ground arith, ground arith, (==_iff e.target_node_id id).0 same)))
        | inr other ↦ rw other refl
      ])
]

-- Whether there is such an edge.
input_cases : (ids : List ℕ) (es : List Edge) (id : ℕ) → HasInput ids es id ⊎ (¬ HasInput ids es id)
input_cases ids [] id = inr (λ h. h)
input_cases ids (e ∷ es) id = elim (input_cases ids es id) [
  | inl later ↦ inl (inr later)
  | inr nothing ↦ elim (Bool-cases (known ids e && (e.target_node_id == id))) [
    | inl here ↦
        inl (inl (ground arith, ground arith, (==_iff e.target_node_id id).0 (ground arith)))
    | inr apart ↦ inr (λ found. elim found [
      | inl (from, to, same) ↦
          let at : (e.target_node_id == id) ≡ true = (==_iff e.target_node_id id).1 same in
          let here : (known ids e && (e.target_node_id == id)) ≡ true = rw (from, to, at) refl in cc
      | inr later ↦ nothing later
    ])
  ]
]

unnegated : (b : Bool) → not b ≡ false → b ≡ true
unnegated true h = refl
unnegated false h = cc

count-member : (t : ℕ) (xs : List ℕ) → member t xs ≡ true → 1 ≤ count t xs
count-member t [] h = cc
count-member t (x ∷ xs) h = ground (arith, count-member t xs)

issue_if-nil :
    (test : Bool) (issue : PublishIssue) → publish_issue_if test issue ≡ [] → test ≡ false
issue_if-nil true issue h = cc
issue_if-nil false issue h = refl

module _ {C : Type 0} where
  keep-HasKind :
      (test : NodeKind → Bool) (nodes : List (Node C))
      → (length (keep (λ n. test n.kind) nodes) == 0) ≡ false
      → HasKind test nodes
  keep-HasKind test [] h = cc
  keep-HasKind test (n ∷ ns) h = elim (Bool-cases (test n.kind)) [
    | inl here ↦ inl here
    | inr other ↦ inr (keep-HasKind test ns (rw other at h))
  ]

  input_issues-nil :
      (ids : List ℕ) (es : List Edge) (index : ℕ) (nodes : List (Node C))
      → input_issues (count_incoming ids es (λ _. pos 0)) index nodes ≡ []
      → All (λ n. is_trigger n.kind ≡ false → HasInput ids es n.id) nodes
  unfolding input_issues
  input_issues-nil ids es index [] h = tt
  input_issues-nil ids es index (n ∷ ns) h =
      let incoming : ℕ → ℤ = count_incoming ids es (λ _. pos 0) in
      let (clear, rest) =
        append-eq-nil
          (publish_issue_if (not (is_trigger n.kind) && is_zero (incoming n.id))
            (needs_input index))
          (input_issues incoming (index + 1) ns) h in
      let none_here =
        issue_if-nil (not (is_trigger n.kind) && is_zero (incoming n.id)) (needs_input index)
          clear in
      (
        (λ other. elim (input_cases ids es n.id) [
          | inl found ↦ found
          | inr nothing ↦
              let zero_count : is_zero (incoming n.id) ≡ true =
                ap is_zero (count_incoming-none ids es (λ _. pos 0) n.id nothing) in
              absurd (cc (rw (other, zero_count) at none_here))
        ]),
        input_issues-nil ids es (index + 1) ns rest,
      )

  -- A trigger and a destination, an edge into each node that is no trigger from a node of the graph,
  -- and a path from a trigger to each node.
  pub record Publishable (g : Graph C) : Type 0 where
    pub triggered : HasKind is_trigger g.nodes
    pub delivered : HasKind is_destination g.nodes
    pub fed :
        All (λ n. is_trigger n.kind ≡ false → HasInput (node_ids g.nodes) g.edges n.id) g.nodes
    pub reached : (id : ℕ) → member id (node_ids g.nodes) ≡ true → Reached g id

  visited_all-Reached :
      (g : Graph C)
      → visited_all (length g.nodes) (reachable_nodes g) ≡ true
      → (id : ℕ) → member id (node_ids g.nodes) ≡ true
      → Reached g id
  unfolding reachable_nodes
  visited_all-Reached g h id inside = elim (Option-cases (reachable_nodes g)) [
    | inl missing ↦ let bad = rw missing at h in cc
    | inr (end, found) ↦
        let full : (length end == length g.nodes) ≡ true = rw found at h in
        let (all, once) =
          visit_loop-AllReached g (length (triggers g.nodes) + length g.edges)
            (push_all [] (node_ids (triggers g.nodes))) [] end
            (push_all-AllReached g [] (node_ids (triggers g.nodes)) (λ t m. absurd (cc))
              (λ t m. start t (member-IsTriggerId g.nodes t m)))
            (λ t m. absurd (cc)) (λ t. omega arith) found in
        let within : Within end (node_ids g.nodes) = λ t. elim (Bool-cases (member t end)) [
          | inl visited ↦ omega (
            arith,
            once t,
            count-member t (node_ids g.nodes) (Reached-member g t (all t visited)),
          )
          | inr apart ↦ omega (arith, count_absent t end apart)
        ] in
        let lengths : length end ≡ length (node_ids g.nodes) =
          (==_iff (length end) (length g.nodes)).0 full ∙ sym (length-node_ids g.nodes) in
        elim (Bool-cases (member id end)) [
          | inl visited ↦ all id visited
          | inr apart ↦ absurd (
              omega (
                arith,
                count_absent id end apart,
                Within-full end (node_ids g.nodes) within lengths id,
                count-member id (node_ids g.nodes) inside,
              ))
        ]
  ]

  -- A graph that passes the check of graphs to be published has a trigger and a destination; each of
  -- its nodes that is no trigger has an edge into it from a node of the graph; and a path of edges
  -- leads from a trigger to each of its nodes.
  pub validate_publishable-Publishable : (g : Graph C) → validate_publishable g ≡ [] → Publishable g
  unfolding validate_publishable
  validate_publishable-Publishable g h =
      let (triggered, h1) =
        append-eq-nil (publish_issue_if (length (triggers g.nodes) == 0) needs_trigger) _ h in
      let (delivered, h2) =
        append-eq-nil (publish_issue_if (length (destinations g.nodes) == 0) needs_destination) _
          h1 in
      let (fed, visited) =
        append-eq-nil
          (input_issues (count_incoming (node_ids g.nodes) g.edges (λ _. pos 0)) 0 g.nodes) _ h2 in
      record {
        triggered = keep-HasKind is_trigger g.nodes (issue_if-nil _ needs_trigger triggered);
        delivered =
            keep-HasKind is_destination g.nodes (issue_if-nil _ needs_destination delivered);
        fed = input_issues-nil (node_ids g.nodes) g.edges 0 g.nodes fed;
        reached = visited_all-Reached g (unnegated _ (issue_if-nil _ unreachable_node visited));
      }
