-- ===== src/Toposort/Edges.antt =====
-- Graphs as lists of edges (source, target), and the edges that still wait for their source.
use byok_grid.Common.{
  ℕ, ◌+◌, ◌≤◌, ◌≡◌, ◌⊎◌, refl, ◌&&◌, List, [], ◌∷◌, ◌==◌, if◌then◌else◌, arith, Bool-cases, inl,
  inr,
}
use byok_grid.Toposort.Counts.{one_if, count}

abbrev pub Edges : Type 0
Edges = List (ℕ × ℕ)

abbrev pub HasEdge : ℕ → ℕ → Edges → Type 0
HasEdge s t [] = ⊥
HasEdge s t ((a, b) ∷ es) = ((a ≡ s) × (b ≡ t)) ⊎ HasEdge s t es

abbrev pub targets : ℕ → Edges → List ℕ
targets x [] = []
targets x ((a, b) ∷ es) = let rest = targets x es in if a == x then b ∷ rest else rest

-- The edges into `t` whose source is not in the list.
abbrev pub waiting : ℕ → Edges → List ℕ → ℕ
waiting t [] done = 0
waiting t ((a, b) ∷ es) done = one_if (b == t && count a done == 0) + waiting t es done

pub waiting-step :
    (t x : ℕ) (es : Edges) (done : List ℕ)
    → count x done ≡ 0
    → waiting t es done ≡ waiting t es (x ∷ done) + count t (targets x es)
waiting-step t x [] done h = omega arith
waiting-step t x ((a, b) ∷ es) done h = ground (arith, waiting-step t x es done h)

pub waiting-zero :
    (s t : ℕ) (es : Edges) (done : List ℕ)
    → HasEdge s t es
    → waiting t es done ≡ 0
    → 1 ≤ count s done
waiting-zero s t [] done e h = absurd e
waiting-zero s t ((a, b) ∷ es) done (inl (p, q)) h = ground arith
waiting-zero s t ((a, b) ∷ es) done (inr e) h = waiting-zero s t es done e (omega arith)

pub waiting-source :
    (t : ℕ) (es : Edges) (done : List ℕ)
    → 1 ≤ waiting t es done
    → (s : ℕ) × HasEdge s t es × (count s done ≡ 0)
waiting-source t [] done h = absurd (omega arith)
waiting-source t ((a, b) ∷ es) done h = elim (Bool-cases (b == t && count a done == 0)) [
  | inl e ↦ (a, inl (refl, ground arith), ground arith)
  | inr e ↦ let (s, edge, free) = waiting-source t es done (ground arith) in (s, inr edge, free)
]

pub count-targets : (s t : ℕ) (es : Edges) → 1 ≤ count t (targets s es) → HasEdge s t es
count-targets s t [] h = absurd (omega arith)
count-targets s t ((a, b) ∷ es) h = elim (Bool-cases (a == s && b == t)) [
  | inl e ↦ inl (ground arith, ground arith)
  | inr e ↦ inr (count-targets s t es (ground arith))
]
