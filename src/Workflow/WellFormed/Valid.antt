-- ===== src/Workflow/WellFormed/Valid.antt =====
-- Which graphs pass the structure check.
use byok_grid.Common.{◌≡◌, ◌↔◌, [], ◌++◌, All, Distinct, Fresh-Distinct, append-eq-nil}
use byok_grid.Toposort.Order.{Acyclic}
use byok_grid.Workflow.Graph.{Graph, node_ids}
use byok_grid.Workflow.Validate.{
  key_eq, start_scan, node_issues, edges_issues, scan_edges, cycle_issues, validate_structure,
}
use byok_grid.Workflow.WellFormed.Connects.{Connects}
use byok_grid.Workflow.WellFormed.Scans.{
  same_id, edge_ids, input_keys, ends, node_issues→, node_issues←, edges_issues→, edges_issues←,
}
use byok_grid.Workflow.WellFormed.Cycles.{cycle_issues-Acyclic}

pub record WellFormed {C : Type 0} (g : Graph C) : Type 0 where
  pub nodes_distinct : Distinct same_id (node_ids g.nodes)
  pub edges_distinct : Distinct same_id (edge_ids g.edges)
  pub connected : All (Connects g.nodes) g.edges
  pub inputs_single : Distinct key_eq (input_keys g.edges)
  pub acyclic : Acyclic (ends g.edges)

module _ {C : Type 0} (g : Graph C) where
  accepted : validate_structure g ≡ [] → WellFormed g
  unfolding validate_structure
  accepted h =
      let (nodes_clear, rest) =
        append-eq-nil (node_issues 0 [] g.nodes)
          (edges_issues g.nodes 0 g.edges start_scan
            ++ cycle_issues g (scan_edges g.nodes 0 g.edges start_scan))
          h in
      let (edges_clear, cycles_clear) =
        append-eq-nil (edges_issues g.nodes 0 g.edges start_scan)
          (cycle_issues g (scan_edges g.nodes 0 g.edges start_scan)) rest in
      let (ids, all, keys) = edges_issues→ g.nodes 0 g.edges start_scan edges_clear in
      let nodes =
        (Fresh-Distinct same_id (node_ids g.nodes)).0 (node_issues→ 0 [] g.nodes nodes_clear) in
      record {
        nodes_distinct = nodes;
        edges_distinct = (Fresh-Distinct same_id (edge_ids g.edges)).0 ids;
        connected = all;
        inputs_single = (Fresh-Distinct key_eq (input_keys g.edges)).0 keys;
        acyclic = (cycle_issues-Acyclic g nodes all).0 cycles_clear;
      }

  no_issues : WellFormed g → validate_structure g ≡ []
  unfolding validate_structure
  no_issues w =
      rw
        (
          node_issues← 0 [] g.nodes
              ((Fresh-Distinct same_id (node_ids g.nodes)).1 w.nodes_distinct),
          edges_issues← g.nodes 0 g.edges start_scan
              ((Fresh-Distinct same_id (edge_ids g.edges)).1 w.edges_distinct) w.connected
              ((Fresh-Distinct key_eq (input_keys g.edges)).1 w.inputs_single),
        )
        ((cycle_issues-Acyclic g w.nodes_distinct w.connected).1 w.acyclic)

  -- The structure check reports nothing exactly for the graphs whose node ids and edge ids are
  -- distinct, whose edges each run from an output of a node to an input of another node of the
  -- graph, no two into one input, and whose nodes can be ranked so that every edge goes up.
  pub validate_structure-eq-nil_iff : (validate_structure g ≡ []) ↔ WellFormed g
  validate_structure-eq-nil_iff = (accepted, no_issues)
