-- ===== src/Workflow/Visited.antt =====
-- What the loop of `validatePublishableWorkflowGraph` visits
-- (packages/domain/src/workflow-policy.ts).
use byok_grid.Common.{
  ℕ, zero, suc, ◌≤◌, ◌≡◌, ◌⊎◌, inl, inr, refl, true, false, ◌||◌, Option, some, List, [], ◌∷◌, ◌++◌,
  ◌==◌, ==_iff, ==_refl, Bool-cases, arith, subst,
}
use byok_grid.Toposort.Loop.{put}
use byok_grid.Toposort.Counts.{count}
use byok_grid.Workflow.Graph.{Node, Edge, Graph, node_ids}
use byok_grid.Workflow.Validate.{member}
use byok_grid.Workflow.Publish.{is_trigger, push_all, visit_loop, known, record_outgoing, triggers}

-- An edge between two of the nodes runs from the first to the second.
abbrev pub Linked : List ℕ → List Edge → ℕ → ℕ → Type 0
Linked ids [] s t = ⊥
Linked ids (e ∷ es) s t =
    ((member e.source_node_id ids ≡ true)
      × (member e.target_node_id ids ≡ true)
      × (e.source_node_id ≡ s)
      × (e.target_node_id ≡ t))
    ⊎ Linked ids es s t

-- A trigger of the list has the id.
abbrev pub IsTriggerId : {C : Type 0} → List (Node C) → ℕ → Type 0
IsTriggerId [] id = ⊥
IsTriggerId (n ∷ ns) id = ((is_trigger n.kind ≡ true) × (n.id ≡ id)) ⊎ IsTriggerId ns id

-- A path of edges leads from a trigger to the node.
pub data Reached {C : Type 0} (g : Graph C) : ℕ → Type 0 where
  start : (id : ℕ) → IsTriggerId g.nodes id → Reached g id
  along : (s t : ℕ) → Reached g s → Linked (node_ids g.nodes) g.edges s t → Reached g t

member-push_all :
    (stack ids : List ℕ) (t : ℕ) → member t (push_all stack ids) ≡ (member t stack || member t ids)
member-push_all stack [] t = ground arith
member-push_all stack (id ∷ ids) t = ground (arith, member-push_all (id ∷ stack) ids t)

member-last :
    (xs : List ℕ) (x t : ℕ) → member t (xs ++ x ∷ []) ≡ true → (member t xs ≡ true) ⊎ (x ≡ t)
member-last [] x t h = inr ((==_iff x t).0 (ground arith))
member-last (y ∷ ys) x t h = elim (Bool-cases (y == t)) [
  | inl e ↦ inl (ground arith)
  | inr e ↦ elim (member-last ys x t (ground arith)) [
    | inl there ↦ inl (ground arith)
    | inr same ↦ inr same
  ]
]

record_outgoing-Linked :
    (ids : List ℕ) (es : List Edge) (outgoing : ℕ → List ℕ) (s t : ℕ)
    → member t (record_outgoing ids es outgoing s) ≡ true
    → (member t (outgoing s) ≡ true) ⊎ Linked ids es s t
unfolding record_outgoing
record_outgoing-Linked ids [] outgoing s t h = inl h
record_outgoing-Linked ids (e ∷ es) outgoing s t h = elim (Bool-cases (known ids e)) [
  | inr out ↦ elim (record_outgoing-Linked ids es outgoing s t (rw out at h)) [
    | inl old ↦ inl old
    | inr later ↦ inr (inr later)
  ]
  | inl inside ↦
      elim (record_outgoing-Linked ids es
        (put outgoing e.source_node_id (outgoing e.source_node_id ++ e.target_node_id ∷ [])) s t
        (rw inside at h)) [
          | inr later ↦ inr (inr later)
          | inl old ↦ elim (Bool-cases (e.source_node_id == s)) [
            | inr other ↦ inl (rw other at old)
            | inl same ↦
                let at : e.source_node_id ≡ s = (==_iff e.source_node_id s).0 same in
                elim (member-last (outgoing e.source_node_id) e.target_node_id t (rw same at old)) [
                  | inl there ↦ inl (subst (λ z. member t (outgoing z) ≡ true) at there)
                  | inr end ↦ inr (inl (ground arith, ground arith, at, end))
                ]
          ]
        ]
]

module _ {C : Type 0} where
  pub member-IsTriggerId :
      (nodes : List (Node C)) (id : ℕ)
      → member id (node_ids (triggers nodes)) ≡ true
      → IsTriggerId nodes id
  member-IsTriggerId [] id h = cc
  member-IsTriggerId (n ∷ ns) id h = elim (Bool-cases (is_trigger n.kind)) [
    | inr other ↦ inr (member-IsTriggerId ns id (rw other at h))
    | inl starts ↦
        let split : (n.id == id || member id (node_ids (triggers ns))) ≡ true = rw starts at h in
        elim (Bool-cases (n.id == id)) [
          | inl same ↦ inl (starts, (==_iff n.id id).0 same)
          | inr apart ↦ inr (member-IsTriggerId ns id (ground arith))
        ]
  ]

  IsTriggerId-member :
      (nodes : List (Node C)) (id : ℕ) → IsTriggerId nodes id → member id (node_ids nodes) ≡ true
  IsTriggerId-member [] id h = absurd h
  IsTriggerId-member (n ∷ ns) id (inl (_, same)) =
      let here : (n.id == id) ≡ true = (==_iff n.id id).1 same in ground arith
  IsTriggerId-member (n ∷ ns) id (inr later) =
      let there = IsTriggerId-member ns id later in ground arith

Linked-member : (ids : List ℕ) (es : List Edge) (s t : ℕ) → Linked ids es s t → member t ids ≡ true
Linked-member ids [] s t h = absurd h
Linked-member ids (e ∷ es) s t (inl (_, to, _, same)) = subst (λ z. member z ids ≡ true) same to
Linked-member ids (e ∷ es) s t (inr later) = Linked-member ids es s t later

pub count_absent : (t : ℕ) (xs : List ℕ) → member t xs ≡ false → count t xs ≡ 0
count_absent t [] h = refl
count_absent t (x ∷ xs) h = ground (arith, count_absent t xs)

-- The visited nodes, and those that wait.
module _ {C : Type 0} (g : Graph C) where
  abbrev pub AllReached : List ℕ → Type 0
  AllReached xs = (t : ℕ) → member t xs ≡ true → Reached g t

  abbrev pub outgoing : ℕ → List ℕ
  outgoing = record_outgoing (node_ids g.nodes) g.edges (λ _. [])

  outgoing-AllReached : (id : ℕ) → Reached g id → AllReached (outgoing id)
  outgoing-AllReached id reached t h =
      elim (record_outgoing-Linked (node_ids g.nodes) g.edges (λ _. []) id t h) [
        | inl nothing ↦ absurd (cc)
        | inr linked ↦ along id t reached linked
      ]

  pub push_all-AllReached :
      (stack ids : List ℕ) → AllReached stack → AllReached ids → AllReached (push_all stack ids)
  push_all-AllReached stack ids a b t h = elim (Bool-cases (member t stack)) [
    | inl here ↦ a t here
    | inr apart ↦ b t (ground (arith, member-push_all stack ids t))
  ]

  cons-AllReached : (id : ℕ) (xs : List ℕ) → Reached g id → AllReached xs → AllReached (id ∷ xs)
  cons-AllReached id xs reached all t h = elim (Bool-cases (id == t)) [
    | inl same ↦ subst (Reached g) ((==_iff id t).0 same) reached
    | inr other ↦ all t (ground arith)
  ]

  cons-once :
      (id : ℕ) (xs : List ℕ)
      → member id xs ≡ false
      → ((t : ℕ) → count t xs ≤ 1)
      → (t : ℕ) → count t (id ∷ xs) ≤ 1
  cons-once id xs new once t = elim (Bool-cases (id == t)) [
    | inl same ↦
        let absent : count t xs ≡ 0 =
          subst (λ z. count z xs ≡ 0) ((==_iff id t).0 same) (count_absent id xs new) in
        ground arith
    | inr other ↦ ground (arith, once t)
  ]

  pub visit_loop-AllReached :
      (fuel : ℕ) (pending reachable end : List ℕ)
      → AllReached pending
      → AllReached reachable
      → ((t : ℕ) → count t reachable ≤ 1)
      → visit_loop outgoing fuel pending reachable ≡ some end
      → AllReached end × ((t : ℕ) → count t end ≤ 1)
  unfolding visit_loop
  visit_loop-AllReached fuel [] reachable end waits seen once h =
      subst (λ z. AllReached z × ((t : ℕ) → count t z ≤ 1)) (same_list h) (seen, once)
    where
      same_list : {a b : List ℕ} → ◌≡◌ {A = Option (List ℕ)} (some a) (some b) → a ≡ b
      same_list h = cc
  visit_loop-AllReached zero (id ∷ pending) reachable end waits seen once h = cc
  visit_loop-AllReached (suc fuel) (id ∷ pending) reachable end waits seen once h =
      let here : Reached g id = waits id (rw (==_refl id) refl) in
      let rest : AllReached pending = λ t m. waits t (ground arith) in
      elim (Bool-cases (member id reachable)) [
        | inl old ↦
            visit_loop-AllReached fuel pending reachable end rest seen once
              (rw (visit_loop, old) at h)
        | inr new ↦
            visit_loop-AllReached fuel (push_all pending (outgoing id)) (id ∷ reachable) end
              (push_all-AllReached pending (outgoing id) rest (outgoing-AllReached id here))
              (cons-AllReached id reachable here seen) (cons-once id reachable new once)
              (rw (visit_loop, new) at h)
      ]

  pub Reached-member : (t : ℕ) → Reached g t → member t (node_ids g.nodes) ≡ true
  Reached-member t (start _ trigger) = IsTriggerId-member g.nodes t trigger
  Reached-member t (along s _ reached linked) = Linked-member (node_ids g.nodes) g.edges s t linked
