-- ===== src/Workflow/Publishable.antt =====
-- The fuel of the loop of `validatePublishableWorkflowGraph`, and what it visits.
use byok_grid.Common.{
  ℕ, zero, suc, ◌+◌, ◌≤◌, ◌≡◌, inl, inr, refl, false, some, List, [], ◌∷◌, ◌++◌, ◌==◌, ==_iff,
  length, length-append, if◌then◌else◌, Bool-cases, arith, subst, sym,
}
use byok_grid.Toposort.Loop.{put}
use byok_grid.Toposort.Counts.{one_if}
use byok_grid.Workflow.Graph.{Node, Edge, Graph, node_ids}
use byok_grid.Workflow.Validate.{member}
use byok_grid.Workflow.Publish.{
  push_all, visit_loop, known, record_outgoing, triggers, reachable_nodes,
}

length-push_all : (stack ids : List ℕ) → length (push_all stack ids) ≡ length stack + length ids
length-push_all stack [] = omega arith
length-push_all stack (id ∷ ids) = omega (arith, length-push_all (id ∷ stack) ids)

-- The edges from a node, and those from nodes that are not visited.
abbrev edges_from : ℕ → List Edge → ℕ
edges_from x [] = 0
edges_from x (e ∷ es) = one_if (e.source_node_id == x) + edges_from x es

abbrev unvisited : List Edge → List ℕ → ℕ
unvisited [] seen = 0
unvisited (e ∷ es) seen = (if member e.source_node_id seen then 0 else 1) + unvisited es seen

length-record_outgoing :
    (ids : List ℕ) (es : List Edge) (outgoing : ℕ → List ℕ) (x : ℕ)
    → length (record_outgoing ids es outgoing x) ≤ length (outgoing x) + edges_from x es
unfolding record_outgoing
length-record_outgoing ids [] outgoing x = omega arith
length-record_outgoing ids (e ∷ es) outgoing x = elim (Bool-cases (known ids e)) [
  | inr out ↦ rw out (ground (arith, length-record_outgoing ids es outgoing x))
  | inl inside ↦
      let outgoing' : ℕ → List ℕ =
        put outgoing e.source_node_id (outgoing e.source_node_id ++ e.target_node_id ∷ []) in
      rw inside (elim (Bool-cases (e.source_node_id == x)) [
        | inl same ↦
            let at : e.source_node_id ≡ x = (==_iff e.source_node_id x).0 same in
            let here : length (outgoing' x) ≡ length (outgoing x) + 1 = rw same (
              subst (λ z. length (outgoing z ++ e.target_node_id ∷ []) ≡ length (outgoing x) + 1)
                (sym at) (omega (arith, length-append (outgoing x) (e.target_node_id ∷ [])))) in
            ground (arith, length-record_outgoing ids es outgoing' x, here)
        | inr other ↦
            let here : outgoing' x ≡ outgoing x = rw other refl in
            ground (arith, length-record_outgoing ids es outgoing' x, here)
      ])
]

unvisited-visit :
    (es : List Edge) (seen : List ℕ) (id : ℕ)
    → member id seen ≡ false
    → unvisited es (id ∷ seen) + edges_from id es ≤ unvisited es seen
unvisited-visit [] seen id new = omega arith
unvisited-visit (e ∷ es) seen id new = elim (Bool-cases (e.source_node_id == id)) [
  | inl same ↦
      let fresh : member e.source_node_id seen ≡ false =
        subst (λ z. member z seen ≡ false) (sym ((==_iff e.source_node_id id).0 same)) new in
      ground (arith, unvisited-visit es seen id)
  | inr other ↦ ground (arith, unvisited-visit es seen id)
]

unvisited-nil : (es : List Edge) → unvisited es [] ≡ length es
unvisited-nil [] = refl
unvisited-nil (e ∷ es) = omega (arith, unvisited-nil es)

visit_loop-total :
    (outgoing : ℕ → List ℕ) (es : List Edge)
    → ((x : ℕ) → length (outgoing x) ≤ edges_from x es)
    → (fuel : ℕ) (pending reachable : List ℕ) → length pending + unvisited es reachable ≤ fuel
    → (end : List ℕ) × (visit_loop outgoing fuel pending reachable ≡ some end)
unfolding visit_loop
visit_loop-total outgoing es few fuel [] reachable enough = (reachable, refl)
visit_loop-total outgoing es few zero (id ∷ pending) reachable enough = absurd (omega arith)
visit_loop-total outgoing es few (suc fuel) (id ∷ pending) reachable enough =
    elim (Bool-cases (member id reachable)) [
      | inl old ↦
          rw (visit_loop, old)
            (visit_loop-total outgoing es few fuel pending reachable (omega arith))
      | inr new ↦
          rw (visit_loop, new)
            (visit_loop-total outgoing es few fuel (push_all pending (outgoing id)) (id ∷ reachable)
              (omega (
                arith,
                few id,
                length-push_all pending (outgoing id),
                unvisited-visit es reachable id new,
              )))
    ]

pub length-node_ids : {C : Type 0} (nodes : List (Node C)) → length (node_ids nodes) ≡ length nodes
length-node_ids [] = refl
length-node_ids (n ∷ ns) = omega (arith, length-node_ids ns)

-- The loop that looks for the nodes that a trigger reaches ends: a round for each trigger and each
-- edge is enough, whatever the graph, cyclic ones included.
pub reachable_nodes-total :
    {C : Type 0} (g : Graph C) → (ids : List ℕ) × (reachable_nodes g ≡ some ids)
unfolding reachable_nodes
reachable_nodes-total g =
    visit_loop-total (record_outgoing (node_ids g.nodes) g.edges (λ _. [])) g.edges
      (λ x. omega (arith, length-record_outgoing (node_ids g.nodes) g.edges (λ _. []) x))
      (length (triggers g.nodes) + length g.edges) (push_all [] (node_ids (triggers g.nodes))) []
      (omega (
        arith,
        length-push_all [] (node_ids (triggers g.nodes)),
        length-node_ids (triggers g.nodes),
        unvisited-nil g.edges,
      ))
