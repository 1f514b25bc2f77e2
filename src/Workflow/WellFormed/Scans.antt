-- ===== src/Workflow/WellFormed/Scans.antt =====
-- What the loops over the nodes and the edges find and record.
use byok_grid.Common.{
  ℕ, ◌+◌, ◌≡◌, refl, Bool, true, false, List, [], ◌∷◌, ◌++◌, ◌==◌, Text, Result, ok, err, arith,
  All, Fresh, append-eq-nil,
}
use byok_grid.Toposort.Loop.{put}
use byok_grid.Toposort.Edges.{Edges}
use byok_grid.Workflow.Graph.{Node, Edge, node_ids}
use byok_grid.Workflow.Validate.{
  Issue, issue_if, member, InputKey, key_eq, occupied, increment, Scan, node_issues, connect,
  edge_issues, connection_issues, scan_edge, edges_issues,
}
use byok_grid.Workflow.WellFormed.Connects.{Connects, connect→, connect←}

abbrev pub same_id : ℕ → ℕ → Bool
same_id a b = a == b

abbrev pub edge_ids : List Edge → List ℕ
edge_ids [] = []
edge_ids (e ∷ es) = e.id ∷ edge_ids es

abbrev pub input_keys : List Edge → List InputKey
input_keys [] = []
input_keys (e ∷ es) = (e.target_node_id, e.target_handle) ∷ input_keys es

abbrev pub ends : List Edge → Edges
ends [] = []
ends (e ∷ es) = (e.source_node_id, e.target_node_id) ∷ ends es

issue_if-eq-nil : (b : Bool) (issue : Issue) → issue_if b issue ≡ [] → b ≡ false
issue_if-eq-nil true issue h = cc
issue_if-eq-nil false issue h = refl

-- What an edge adds to what the scan keeps, when it connects.
abbrev pub recorded : Edge → Scan → Scan
recorded e scan = record {
  edge_ids = e.id ∷ scan.edge_ids;
  occupied_inputs = (e.target_node_id, e.target_handle) ∷ scan.occupied_inputs;
  outgoing =
      put scan.outgoing e.source_node_id (scan.outgoing e.source_node_id ++ e.target_node_id ∷ []);
  incoming = put scan.incoming e.target_node_id (increment (scan.incoming e.target_node_id));
}

module _ {C : Type 0} where
  pub node_issues→ :
      (index : ℕ) (seen : List ℕ) (nodes : List (Node C))
      → node_issues index seen nodes ≡ []
      → Fresh same_id seen (node_ids nodes)
  unfolding node_issues
  node_issues→ index seen [] h = tt
  node_issues→ index seen (n ∷ ns) h =
      let (here, there) =
        append-eq-nil (issue_if (member n.id seen) (Issue.duplicate_node_id index))
          (node_issues (index + 1) (n.id ∷ seen) ns) h in
      (
        issue_if-eq-nil (member n.id seen) (Issue.duplicate_node_id index) here,
        node_issues→ (index + 1) (n.id ∷ seen) ns there,
      )

  pub node_issues← :
      (index : ℕ) (seen : List ℕ) (nodes : List (Node C))
      → Fresh same_id seen (node_ids nodes)
      → node_issues index seen nodes ≡ []
  unfolding node_issues
  node_issues← index seen [] h = refl
  node_issues← index seen (n ∷ ns) h = rw h.0 (node_issues← (index + 1) (n.id ∷ seen) ns h.1)

  connection→ :
      (nodes : List (Node C)) (index : ℕ) (e : Edge) (scan : Scan)
      → connection_issues index scan (connect nodes index e) ≡ []
      → Connects nodes e
        × (occupied (e.target_node_id, e.target_handle) scan.occupied_inputs ≡ false)
  unfolding connection_issues
  connection→ nodes index e scan h = go (connect nodes index e) refl h
    where
      go :
          (r : Result Issue (ℕ × ℕ × Text))
          → connect nodes index e ≡ r
          → connection_issues index scan r ≡ []
          → Connects nodes e
            × (occupied (e.target_node_id, e.target_handle) scan.occupied_inputs ≡ false)
      go (err issue) same none_left = cc
      go (ok (s, t, p)) same none_left =
          let (connects, parts) = connect→ nodes index e same in (connects, ground arith)

  -- An edge without issues is new, connects two nodes, and takes a free input.
  edge_issues→ :
      (nodes : List (Node C)) (index : ℕ) (e : Edge) (scan : Scan)
      → edge_issues nodes index e scan ≡ []
      → (member e.id scan.edge_ids ≡ false)
        × Connects nodes e
        × (occupied (e.target_node_id, e.target_handle) scan.occupied_inputs ≡ false)
  unfolding edge_issues
  edge_issues→ nodes index e scan h =
      let (new, rest) =
        append-eq-nil (issue_if (member e.id scan.edge_ids) (Issue.duplicate_edge_id index))
          (connection_issues index scan (connect nodes index e)) h in
      let (connects, free) = connection→ nodes index e scan rest in
      (
        issue_if-eq-nil (member e.id scan.edge_ids) (Issue.duplicate_edge_id index) new,
        connects,
        free,
      )

  pub scan_edge-recorded :
      (nodes : List (Node C)) (index : ℕ) (e : Edge) (scan : Scan)
      → Connects nodes e
      → scan_edge nodes index e scan ≡ recorded e scan
  unfolding scan_edge
  scan_edge-recorded nodes index e scan c = rw (connect← nodes index e c, scan_edge)

  pub edges_issues→ :
      (nodes : List (Node C)) (index : ℕ) (es : List Edge) (scan : Scan)
      → edges_issues nodes index es scan ≡ []
      → Fresh same_id scan.edge_ids (edge_ids es)
        × All (Connects nodes) es
        × Fresh key_eq scan.occupied_inputs (input_keys es)
  unfolding edges_issues occupied
  edges_issues→ nodes index [] scan h = (tt, tt, tt)
  edges_issues→ nodes index (e ∷ es) scan h =
      let (here, there) =
        append-eq-nil (edge_issues nodes index e scan)
          (edges_issues nodes (index + 1) es (scan_edge nodes index e scan)) h in
      let (new, connects, free) = edge_issues→ nodes index e scan here in
      let next : edges_issues nodes (index + 1) es (recorded e scan) ≡ [] =
        rw (scan_edge-recorded nodes index e scan connects) at there in
      let (ids, all, keys) = edges_issues→ nodes (index + 1) es (recorded e scan) next in
      ((new, ids), (connects, all), (free, keys))

  pub edges_issues← :
      (nodes : List (Node C)) (index : ℕ) (es : List Edge) (scan : Scan)
      → Fresh same_id scan.edge_ids (edge_ids es)
      → All (Connects nodes) es
      → Fresh key_eq scan.occupied_inputs (input_keys es)
      → edges_issues nodes index es scan ≡ []
  unfolding edges_issues edge_issues occupied
  edges_issues← nodes index [] scan ids all keys = refl
  edges_issues← nodes index (e ∷ es) scan ids all keys =
      rw (ids.0, connect← nodes index e all.0)
        (rw (keys.0, scan_edge-recorded nodes index e scan all.0)
          (edges_issues← nodes (index + 1) es (recorded e scan) ids.1 all.1 keys.1))
