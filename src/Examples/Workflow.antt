-- ===== src/Examples/Workflow.antt =====
-- Workflow graphs (packages/domain/src/workflow-policy.ts): a trigger with one destination.
use byok_grid.Common.{ℕ, err, some, List, ◌⊎◌, text_eq, ◌≡◌, ◌↔◌, refl, [], ◌∷◌, codes}
use byok_grid.Toposort.Loop.{drain, release}
use byok_grid.Workflow.Graph.{node_by_id, find_port, inputs, outputs, NodeKind, Node, Edge, Graph}
use byok_grid.Workflow.Validate.{
  node_issues, edges_issues, edge_issues, scan_edges, scan_edge, connect, connect_nodes,
  connect_ports, connection_issues, occupied, cycle_issues, ready_ids, validate_structure,
}
use Prim.Native.Nat.{compare, Ordering}
use byok_grid.Workflow.Compile.{compile_graph, parse_graph, invalid_graph}
use byok_grid.Workflow.Compiled.Total.{Compiles, Parses, Throws, compile_graph_total}
use byok_grid.Workflow.Publish.{
  needs_trigger, needs_destination, validate_publishable, input_issues, reachable_nodes, visit_loop,
  record_outgoing, count_incoming,
}
use byok_grid.Workflow.Publishable.{reachable_nodes-total}
use byok_grid.Workflow.Published.{Publishable, validate_publishable-Publishable}
use byok_grid.Workflow.WellFormed.Valid.{WellFormed, validate_structure-eq-nil_iff}

abbrev trigger : Node Unit
trigger = record { id = 1; name = codes "rows"; kind = NodeKind.table_rows; configuration = tt }

abbrev destination : Node Unit
destination = record {
  id = 2;
  name = codes "hook";
  kind = NodeKind.send_webhook;
  configuration = tt;
}

abbrev wire : Edge
wire = record {
  id = 3;
  source_handle = codes "rows";
  source_node_id = 1;
  target_handle = codes "rows";
  target_node_id = 2;
}

abbrev graph : Graph Unit
graph = record { nodes = trigger ∷ destination ∷ []; edges = wire ∷ [] }

no_issue : validate_structure graph ≡ []
unfolding validate_structure node_issues edges_issues edge_issues scan_edges scan_edge connect
    connect_nodes connect_ports connection_issues occupied cycle_issues ready_ids drain release
    node_by_id find_port inputs outputs text_eq
no_issue = refl

validate_structure-eq-nil_iff_example : (validate_structure graph ≡ []) ↔ WellFormed graph
validate_structure-eq-nil_iff_example = validate_structure-eq-nil_iff graph

no_publish_issue : validate_publishable graph ≡ []
unfolding validate_publishable input_issues reachable_nodes visit_loop record_outgoing
    count_incoming
no_publish_issue = refl

compile_graph_total_example :
    (Parses graph × Compiles compare (λ _ _. Ordering.eq) graph)
    ⊎ ((¬ Parses graph) × Throws compare (λ _ _. Ordering.eq) graph)
compile_graph_total_example = compile_graph_total compare (λ _ _. Ordering.eq) graph

-- A draft that may be saved and not be published.
abbrev empty_graph : Graph Unit
empty_graph = record { nodes = []; edges = [] }

empty_refused :
    compile_graph compare (λ _ _. Ordering.eq) empty_graph
    ≡ err (invalid_graph [] (needs_trigger ∷ needs_destination ∷ []))
unfolding compile_graph parse_graph validate_structure node_issues edges_issues scan_edges
    cycle_issues ready_ids drain validate_publishable input_issues reachable_nodes visit_loop
    record_outgoing count_incoming
empty_refused = refl

reachable_nodes-total_example : (ids : List ℕ) × (reachable_nodes graph ≡ some ids)
reachable_nodes-total_example = reachable_nodes-total graph

validate_publishable-Publishable_example : Publishable graph
validate_publishable-Publishable_example = validate_publishable-Publishable graph no_publish_issue
