-- ===== src/Workflow/Validate.antt =====
-- `validateWorkflowGraphStructure` (packages/domain/src/workflow-policy.ts).
use byok_grid.Common.{
  ℕ, zero, suc, ◌+◌, Bool, false, not, ◌&&◌, Option, none, some, List, [], ◌∷◌, ◌++◌, ◌==◌, any,
  length, if◌then◌else◌, Text, text_eq, Result, ok, err, ◌>>=◌, ◌>>◌, require,
}
use byok_grid.Toposort.Loop.{ℤ, pos, negsuc, is_zero, put, drain}
use byok_grid.Workflow.Graph.{
  Node, Edge, Graph, inputs, outputs, find_port, same_port_type, node_by_id,
}

-- The messages of `addIssue`, with the index in the issue's path.
pub data Issue : Type 0 where
  duplicate_node_id : ℕ → Issue
  duplicate_edge_id : ℕ → Issue
  unknown_endpoint : ℕ → Issue
  self_connection : ℕ → Issue
  incompatible_ports : ℕ → Issue
  occupied_input : ℕ → Issue
  cycle : Issue

abbrev pub member : ℕ → List ℕ → Bool
member x xs = any (λ y. y == x) xs

abbrev pub issue_if : Bool → Issue → List Issue
issue_if test issue = if test then issue ∷ [] else []

-- An input of a node: `${target.id}:${targetPort.id}`.
abbrev pub InputKey : Type 0
InputKey = ℕ × Text

abbrev pub key_eq : InputKey → InputKey → Bool
key_eq (a, s) (b, t) = a == b && text_eq s t

unfoldable pub occupied : InputKey → List InputKey → Bool
occupied key keys = any (λ k. key_eq k key) keys

abbrev pub increment : ℤ → ℤ
increment (pos n) = pos (suc n)
increment (negsuc zero) = pos 0
increment (negsuc (suc n)) = negsuc n

-- What the loop over the edges keeps.
pub record Scan : Type 0 where
  pub edge_ids : List ℕ
  pub occupied_inputs : List InputKey
  pub outgoing : ℕ → List ℕ
  pub incoming : ℕ → ℤ

abbrev pub start_scan : Scan
start_scan = record {
  edge_ids = [];
  occupied_inputs = [];
  outgoing = λ _. [];
  incoming = λ _. pos 0;
}

abbrev pub require_some {ℓ} : {A : Type ℓ} → Option A → Issue → Result Issue A
require_some (some a) issue = ok a
require_some none issue = err issue

abbrev pub push : List ℕ → ℕ → List ℕ
push stack id = id ∷ stack

abbrev pub visited_all : ℕ → Option (List ℕ) → Bool
visited_all size none = false
visited_all size (some order) = length order == size

-- The checks that end a round, and that of the input.
unfoldable pub connection_issues : ℕ → Scan → Result Issue (ℕ × ℕ × Text) → List Issue
unfolding occupied
connection_issues index scan (err issue) = issue ∷ []
connection_issues index scan (ok (source, target, port)) =
    issue_if (occupied (target, port) scan.occupied_inputs) (occupied_input index)

module _ {C : Type 0} where
  -- The loop over the nodes; `seen` is the ids in `nodesById`.
  unfoldable pub node_issues : ℕ → List ℕ → List (Node C) → List Issue
  node_issues index seen [] = []
  node_issues index seen (n ∷ ns) =
      issue_if (member n.id seen) (duplicate_node_id index)
      ++ node_issues (index + 1) (n.id ∷ seen) ns

  -- The two ports of an edge must be there and of one type.
  unfoldable pub connect_ports : ℕ → Edge → Node C → Node C → Result Issue (ℕ × ℕ × Text)
  connect_ports index e source target = do
    source_port ←
        require_some (find_port (outputs source.kind) e.source_handle) (incompatible_ports index)
    target_port ←
        require_some (find_port (inputs target.kind) e.target_handle) (incompatible_ports index)
    require (same_port_type source_port.type target_port.type) (incompatible_ports index)
    ok (source.id, target.id, target_port.id)

  unfoldable pub connect_nodes : ℕ → Edge → Node C → Node C → Result Issue (ℕ × ℕ × Text)
  connect_nodes index e source target = do
    require (not (source.id == target.id)) (self_connection index)
    connect_ports index e source target

  -- The checks of an edge that end its round with `continue`; else its source, target and input port.
  unfoldable pub connect : List (Node C) → ℕ → Edge → Result Issue (ℕ × ℕ × Text)
  connect nodes index e = do
    source ← require_some (node_by_id nodes e.source_node_id) (unknown_endpoint index)
    target ← require_some (node_by_id nodes e.target_node_id) (unknown_endpoint index)
    connect_nodes index e source target

  -- The issues that a round adds.
  unfoldable pub edge_issues : List (Node C) → ℕ → Edge → Scan → List Issue
  unfolding connection_issues
  edge_issues nodes index e scan =
      issue_if (member e.id scan.edge_ids) (duplicate_edge_id index)
      ++ connection_issues index scan (connect nodes index e)

  -- What a round records.
  unfoldable pub scan_edge : List (Node C) → ℕ → Edge → Scan → Scan
  scan_edge nodes index e scan = elim (connect nodes index e) [
    | err issue ↦ record scan { edge_ids = e.id ∷ scan.edge_ids }
    | ok (source, target, port) ↦ record {
      edge_ids = e.id ∷ scan.edge_ids;
      occupied_inputs = (target, port) ∷ scan.occupied_inputs;
      outgoing = put scan.outgoing source (scan.outgoing source ++ target ∷ []);
      incoming = put scan.incoming target (increment (scan.incoming target));
    }
  ]

  unfoldable pub edges_issues : List (Node C) → ℕ → List Edge → Scan → List Issue
  edges_issues nodes index [] scan = []
  edges_issues nodes index (e ∷ es) scan =
      edge_issues nodes index e scan
      ++ edges_issues nodes (index + 1) es (scan_edge nodes index e scan)

  unfoldable pub scan_edges : List (Node C) → ℕ → List Edge → Scan → Scan
  scan_edges nodes index [] scan = scan
  scan_edges nodes index (e ∷ es) scan =
      scan_edges nodes (index + 1) es (scan_edge nodes index e scan)

  -- The ids whose count is 0 when the loop starts. `acyclicQueue` is a stack, whose top, the end of
  -- the source's array, is the head here.
  unfoldable pub ready_ids : (ℕ → ℤ) → List (Node C) → List ℕ → List ℕ
  ready_ids left [] stack = stack
  ready_ids left (n ∷ ns) stack =
      ready_ids left ns (if is_zero (left n.id) then n.id ∷ stack else stack)

  -- The issue of the loop that visits the nodes; its fuel is a round for each node and each edge.
  unfoldable pub cycle_issues : Graph C → Scan → List Issue
  unfolding ready_ids drain
  cycle_issues g scan =
      let fuel = length g.nodes + length g.edges in
      let order =
        drain push (λ stack. stack) scan.outgoing fuel (ready_ids scan.incoming g.nodes [])
          scan.incoming in
      issue_if (not (visited_all (length g.nodes) order)) cycle

  unfoldable pub validate_structure : Graph C → List Issue
  unfolding node_issues edges_issues scan_edges cycle_issues
  validate_structure g =
      node_issues 0 [] g.nodes
      ++ (edges_issues g.nodes 0 g.edges start_scan
          ++ cycle_issues g (scan_edges g.nodes 0 g.edges start_scan))
