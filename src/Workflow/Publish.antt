-- ===== src/Workflow/Publish.antt =====
-- `validatePublishableWorkflowGraph` (packages/domain/src/workflow-policy.ts).
use byok_grid.Common.{
  ℕ, zero, suc, ◌+◌, Bool, true, false, not, ◌&&◌, Option, none, some, List, [], ◌∷◌, ◌++◌, ◌==◌,
  keep, length, if◌then◌else◌,
}
use byok_grid.Toposort.Loop.{ℤ, pos, is_zero, put}
use byok_grid.Workflow.Graph.{
  Node, NodeKind, Edge, Graph, node_ids, table_rows, write_table, send_webhook,
}
use byok_grid.Workflow.Validate.{member, increment, push, visited_all}

-- The messages of `addIssue`, with the index in the issue's path.
pub data PublishIssue : Type 0 where
  needs_trigger needs_destination unreachable_node : PublishIssue
  needs_input : ℕ → PublishIssue

abbrev pub publish_issue_if : Bool → PublishIssue → List PublishIssue
publish_issue_if test issue = if test then issue ∷ [] else []

abbrev pub is_trigger : NodeKind → Bool
is_trigger table_rows = true
is_trigger _ = false

-- `kind.startsWith('destination.')`
abbrev pub is_destination : NodeKind → Bool
is_destination write_table = true
is_destination send_webhook = true
is_destination _ = false

-- `stack.push(...ids)`, on a stack whose top is its head.
abbrev pub push_all : List ℕ → List ℕ → List ℕ
push_all stack [] = stack
push_all stack (id ∷ ids) = push_all (push stack id) ids

-- The loop over `pending`; `none` means that the fuel ran out.
unfoldable pub visit_loop : (ℕ → List ℕ) → ℕ → List ℕ → List ℕ → Option (List ℕ)
visit_loop outgoing fuel [] reachable = some reachable
visit_loop outgoing zero (id ∷ pending) reachable = none
visit_loop outgoing (suc fuel) (id ∷ pending) reachable =
    visit_loop outgoing fuel
      (if member id reachable then pending else push_all pending (outgoing id))
      (if member id reachable then reachable else id ∷ reachable)

-- Both ends of the edge are nodes.
abbrev pub known : List ℕ → Edge → Bool
known ids e = member e.source_node_id ids && member e.target_node_id ids

-- The two maps that the loop over the edges fills.
unfoldable pub record_outgoing : List ℕ → List Edge → (ℕ → List ℕ) → ℕ → List ℕ
record_outgoing ids [] outgoing = outgoing
record_outgoing ids (e ∷ es) outgoing = record_outgoing ids es (
    if known ids e
    then put outgoing e.source_node_id (outgoing e.source_node_id ++ e.target_node_id ∷ [])
    else outgoing)

unfoldable pub count_incoming : List ℕ → List Edge → (ℕ → ℤ) → ℕ → ℤ
count_incoming ids [] incoming = incoming
count_incoming ids (e ∷ es) incoming = count_incoming ids es (
    if known ids e
    then put incoming e.target_node_id (increment (incoming e.target_node_id))
    else incoming)

module _ {C : Type 0} where
  abbrev pub triggers : List (Node C) → List (Node C)
  triggers nodes = keep (λ n. is_trigger n.kind) nodes

  abbrev pub destinations : List (Node C) → List (Node C)
  destinations nodes = keep (λ n. is_destination n.kind) nodes

  unfoldable pub input_issues : (ℕ → ℤ) → ℕ → List (Node C) → List PublishIssue
  input_issues incoming index [] = []
  input_issues incoming index (n ∷ ns) =
      publish_issue_if (not (is_trigger n.kind) && is_zero (incoming n.id)) (needs_input index)
      ++ input_issues incoming (index + 1) ns

  -- The nodes that a trigger reaches; the fuel is a round for each trigger and each edge.
  unfoldable pub reachable_nodes : Graph C → Option (List ℕ)
  unfolding visit_loop record_outgoing
  reachable_nodes g =
      visit_loop (record_outgoing (node_ids g.nodes) g.edges (λ _. []))
        (length (triggers g.nodes) + length g.edges) (push_all [] (node_ids (triggers g.nodes))) []

  unfoldable pub validate_publishable : Graph C → List PublishIssue
  unfolding input_issues count_incoming reachable_nodes
  validate_publishable g =
      publish_issue_if (length (triggers g.nodes) == 0) needs_trigger
      ++ (publish_issue_if (length (destinations g.nodes) == 0) needs_destination
          ++ (input_issues (count_incoming (node_ids g.nodes) g.edges (λ _. pos 0)) 0 g.nodes
              ++ publish_issue_if (not (visited_all (length g.nodes) (reachable_nodes g)))
                  unreachable_node))
