-- ===== src/Workflow/Graph.antt =====
-- Workflow graphs (packages/domain/src/workflow-policy.ts): nodes, edges and the ports of each kind.
-- An entity id, a UUID, is a number: the program compares ids and orders them, and does no more.
use byok_grid.Common.{
  ℕ, ◌≡◌, ◌⊎◌, inl, inr, refl, Bool, true, Option, none, some, List, [], ◌∷◌, ◌==◌, find,
  if◌then◌else◌, Text, codes, text_eq, text_eq→eq, text_eq_refl, Bool-cases, Option-cases, arith,
  ◌≤◌,
}
use byok_grid.Toposort.Counts.{count}

pub data NodeKind : Type 0 where
  table_rows enrich_column filter write_table send_webhook : NodeKind

-- `C` is the type of the configurations, which the graph checks do not read.
pub record Node (C : Type 0) : Type 0 where
  pub id : ℕ
  pub name : Text
  pub kind : NodeKind
  pub configuration : C

pub record Edge : Type 0 where
  pub id : ℕ
  pub source_handle : Text
  pub source_node_id : ℕ
  pub target_handle : Text
  pub target_node_id : ℕ

pub record Graph (C : Type 0) : Type 0 where
  pub nodes : List (Node C)
  pub edges : List Edge

pub data PortType : Type 0 where
  rows : PortType

pub record Port : Type 0 where
  pub id : Text
  pub type : PortType

abbrev rows_port : Port
rows_port = record { id = codes "rows"; type = rows }

abbrev matched_port : Port
matched_port = record { id = codes "matched"; type = rows }

abbrev rejected_port : Port
rejected_port = record { id = codes "rejected"; type = rows }

-- The two halves of `nodePorts`.
unfoldable pub inputs : NodeKind → List Port
inputs table_rows = []
inputs enrich_column = rows_port ∷ []
inputs filter = rows_port ∷ []
inputs write_table = rows_port ∷ []
inputs send_webhook = rows_port ∷ []

unfoldable pub outputs : NodeKind → List Port
outputs table_rows = rows_port ∷ []
outputs enrich_column = rows_port ∷ []
outputs filter = matched_port ∷ rejected_port ∷ []
outputs write_table = []
outputs send_webhook = []

-- `ports.find((port) => port.id === handle)`
unfoldable pub find_port : List Port → Text → Option Port
find_port ports handle = find (λ p. text_eq p.id handle) ports

abbrev pub same_port_type : PortType → PortType → Bool
same_port_type rows rows = true

-- A port of the list has the id.
abbrev pub Offers : List Port → Text → Type 0
Offers [] handle = ⊥
Offers (p ∷ ps) handle = (p.id ≡ handle) ⊎ Offers ps handle

pub find_port-id :
    (ports : List Port) (handle : Text) {p : Port} → find_port ports handle ≡ some p → p.id ≡ handle
unfolding find_port
find_port-id [] handle h = cc
find_port-id (q ∷ qs) handle {p} h = elim (Bool-cases (text_eq q.id handle)) [
  | inl e ↦ ground (arith, text_eq→eq q.id handle e)
  | inr e ↦ find_port-id qs handle (rw e at h)
]

pub find_port-Offers :
    (ports : List Port) (handle : Text) {p : Port}
    → find_port ports handle ≡ some p
    → Offers ports handle
unfolding find_port
find_port-Offers [] handle h = cc
find_port-Offers (q ∷ qs) handle {p} h = elim (Bool-cases (text_eq q.id handle)) [
  | inl e ↦ inl (text_eq→eq q.id handle e)
  | inr e ↦ inr (find_port-Offers qs handle (rw e at h))
]

pub Offers-find_port :
    (ports : List Port) (handle : Text)
    → Offers ports handle
    → (p : Port) × (find_port ports handle ≡ some p)
unfolding find_port
Offers-find_port [] handle h = absurd h
Offers-find_port (q ∷ qs) handle h = elim (Bool-cases (text_eq q.id handle)) [
  | inl e ↦ (q, rw e refl)
  | inr e ↦
      rw e
        (elim h [ inl same ↦ cc (text_eq_refl q.id) | inr rest ↦ Offers-find_port qs handle rest ])
]

module _ {C : Type 0} where
  abbrev pub node_ids : List (Node C) → List ℕ
  node_ids [] = []
  node_ids (n ∷ ns) = n.id ∷ node_ids ns

  -- `nodesById.get(id)`: of nodes with one id the map holds the last.
  unfoldable pub node_by_id : List (Node C) → ℕ → Option (Node C)
  node_by_id [] id = none
  node_by_id (n ∷ ns) id = elim (node_by_id ns id) [
    | some m ↦ some m
    | none ↦ if n.id == id then some n else none
  ]

  pub node_by_id-count :
      (nodes : List (Node C)) (id : ℕ) {n : Node C}
      → node_by_id nodes id ≡ some n
      → (n.id ≡ id) × (1 ≤ count id (node_ids nodes))
  unfolding node_by_id
  node_by_id-count [] id h = cc
  node_by_id-count (m ∷ ms) id {n} h = elim (Option-cases (node_by_id ms id)) [
    | inl missing ↦ ground arith
    | inr (found, e) ↦ ground (arith, node_by_id-count ms id {n = found})
  ]
