-- ===== src/Workflow/WellFormed/Connects.antt =====
-- Edges between two nodes of the graph, from an output of the one to an input of the other.
use byok_grid.Common.{
  ℕ, ◌≡◌, ◌≢◌, refl, Bool, true, false, not, Option, none, some, List, ◌==◌, ==_iff, Text, Result,
  ok, ◌>>=◌, ◌>>◌, >>=-eq-ok, require, arith,
}
use byok_grid.Workflow.Graph.{
  Node, Edge, Port, PortType, rows, inputs, outputs, find_port, find_port-id, Offers,
  find_port-Offers, Offers-find_port, node_by_id, node_by_id-count, same_port_type,
}
use byok_grid.Workflow.Validate.{
  Issue, connect, connect_nodes, connect_ports, require_some, self_connection, unknown_endpoint,
}

same_types : (a b : PortType) → same_port_type a b ≡ true
same_types rows rows = refl

require-not {ℓ} :
    {A : Type ℓ} (b : Bool) (issue : Issue) (m : Result Issue A) {a : A}
    → (require (not b) issue >> m) ≡ ok a
    → (b ≡ false) × (m ≡ ok a)
require-not true issue m h = cc
require-not false issue m h = (refl, h)

require_some-ok {ℓ} :
    {A : Type ℓ} (o : Option A) (issue : Issue) {a : A} → require_some o issue ≡ ok a → o ≡ some a
require_some-ok none issue h = cc
require_some-ok (some b) issue h = cc

module _ {C : Type 0} where
  abbrev pub Connects : List (Node C) → Edge → Type 0
  Connects nodes e =
      (source : Node C) × (target : Node C) × (node_by_id nodes e.source_node_id ≡ some source)
      × (node_by_id nodes e.target_node_id ≡ some target)
      × (e.source_node_id ≢ e.target_node_id)
      × Offers (outputs source.kind) e.source_handle
      × Offers (inputs target.kind) e.target_handle

  found_ports :
      (index : ℕ) (e : Edge) (source target : Node C) {r : ℕ × ℕ × Text}
      → connect_ports index e source target ≡ ok r
      → (p : Port) × (q : Port) × (find_port (outputs source.kind) e.source_handle ≡ some p)
        × (find_port (inputs target.kind) e.target_handle ≡ some q)
        × (r ≡ (source.id, target.id, q.id))
  unfolding connect_ports
  found_ports index e source target h = ground arith

  found_nodes :
      (nodes : List (Node C)) (index : ℕ) (e : Edge) {r : ℕ × ℕ × Text}
      → connect nodes index e ≡ ok r
      → (source : Node C) × (target : Node C) × (node_by_id nodes e.source_node_id ≡ some source)
        × (node_by_id nodes e.target_node_id ≡ some target)
        × (connect_nodes index e source target ≡ ok r)
  unfolding connect
  found_nodes nodes index e {r} h =
      let rest = λ (source : Node C).
        require_some (node_by_id nodes e.target_node_id) (unknown_endpoint index) >>= λ target.
        connect_nodes index e source target in
      let (source, at_source, h') =
        >>=-eq-ok (require_some (node_by_id nodes e.source_node_id) (unknown_endpoint index)) rest
          h in
      let (target, at_target, joined) =
        >>=-eq-ok (require_some (node_by_id nodes e.target_node_id) (unknown_endpoint index))
          (connect_nodes index e source) h' in
      (
        source,
        target,
        require_some-ok (node_by_id nodes e.source_node_id) (unknown_endpoint index) at_source,
        require_some-ok (node_by_id nodes e.target_node_id) (unknown_endpoint index) at_target,
        joined,
      )

  pub connect→ :
      (nodes : List (Node C)) (index : ℕ) (e : Edge) {r : ℕ × ℕ × Text}
      → connect nodes index e ≡ ok r
      → Connects nodes e × (r ≡ (e.source_node_id, e.target_node_id, e.target_handle))
  unfolding connect_nodes
  connect→ nodes index e {r} h =
      let (source, target, at_source, at_target, checked) = found_nodes nodes index e h in
      let (apart, joined) =
        require-not (source.id == target.id) (self_connection index)
          (connect_ports index e source target) checked in
      let (p, q, at_p, at_q, result) = found_ports index e source target joined in
      let (source_id, _) = node_by_id-count nodes e.source_node_id at_source in
      let (target_id, _) = node_by_id-count nodes e.target_node_id at_target in
      let handle = find_port-id (inputs target.kind) e.target_handle at_q in
      (
        (
          source,
          target,
          at_source,
          at_target,
          (λ same. ground (arith, ==_iff source.id target.id)),
          find_port-Offers (outputs source.kind) e.source_handle at_p,
          find_port-Offers (inputs target.kind) e.target_handle at_q,
        ),
        (cc),
      )

  pub connect← :
      (nodes : List (Node C)) (index : ℕ) (e : Edge)
      → Connects nodes e
      → connect nodes index e ≡ ok (e.source_node_id, e.target_node_id, e.target_handle)
  unfolding connect connect_nodes connect_ports
  connect← nodes index e (source, target, at_source, at_target, apart, from, to) =
      let (p, at_p) = Offers-find_port (outputs source.kind) e.source_handle from in
      let (q, at_q) = Offers-find_port (inputs target.kind) e.target_handle to in
      ground (
        arith,
        node_by_id-count nodes e.source_node_id at_source,
        node_by_id-count nodes e.target_node_id at_target,
        find_port-id (inputs target.kind) e.target_handle at_q,
        same_types p.type q.type,
      )
