-- ===== src/Toposort/Order.antt =====
-- What the loop returns: with enough fuel an order in which every id follows its sources, and which
-- holds every node exactly when the graph has no cycle.
use byok_grid.Common.{
  ℕ, zero, suc, ◌+◌, ◌≤◌, ◌<◌, ◌≡◌, ◌⊎◌, refl, List, [], ◌∷◌, ◌==◌, if◌then◌else◌, arith, length,
  length-append, ◌++◌, ◌↔◌, Bool-cases, ==_iff, inl, inr, some,
}
use byok_grid.Toposort.Loop.{ℤ, pos, release, drain}
use byok_grid.Toposort.Counts.{
  one_if, count, count_self, count-append, Within, Within-length, Within-full,
}
use byok_grid.Toposort.Edges.{Edges, HasEdge, targets, waiting, waiting-zero, waiting-source}
use byok_grid.Toposort.Invariant.{Inv, round-Inv, start-Inv, arrange-Inv}

-- Each id of the order is new, and follows the sources of all its edges.
abbrev pub Follows : Edges → List ℕ → List ℕ → Type 0
Follows es done [] = Unit
Follows es done (x ∷ xs) =
    ((s : ℕ) → HasEdge s x es → 1 ≤ count s done) × (count x done ≡ 0) × Follows es (x ∷ done) xs

abbrev pub after : List ℕ → List ℕ → List ℕ
after done [] = done
after done (x ∷ xs) = after (x ∷ done) xs

pub count-after : (t : ℕ) (done xs : List ℕ) → count t (after done xs) ≡ count t done + count t xs
count-after t done [] = omega arith
count-after t done (x ∷ xs) = omega (arith, count-after t (x ∷ done) xs)

-- A graph has no cycle: its ids can be ranked so that every edge goes up.
abbrev pub Acyclic : Edges → Type 0
Acyclic es = (rank : ℕ → ℕ) × ((s t : ℕ) → HasEdge s t es → rank s < rank t)

-- The rounds before the first `x`.
abbrev pub position : ℕ → List ℕ → ℕ
position x [] = 0
position x (y ∷ ys) = let rest = position x ys in if y == x then 0 else suc rest

Follows-position :
    (es : Edges) (done xs : List ℕ) (s t : ℕ)
    → Follows es done xs
    → HasEdge s t es
    → 1 ≤ count t xs
    → (1 ≤ count s done) ⊎ (position s xs < position t xs)
Follows-position es done [] s t f e h = absurd (omega arith)
Follows-position es done (y ∷ ys) s t f e h = elim (Bool-cases (y == t)) [
  | inl same ↦ inl (f.0 s (rw ((==_iff y t).0 same) e))
  | inr other ↦ ground (arith, Follows-position es (y ∷ done) ys s t f.2 e)
]

-- An order that holds every target shows that there is no cycle.
pub Follows-Acyclic :
    (es : Edges) (xs : List ℕ)
    → Follows es [] xs
    → ((s t : ℕ) → HasEdge s t es → 1 ≤ count t xs)
    → Acyclic es
Follows-Acyclic es xs f holds =
    ((λ x. position x xs), λ s t e. ground (arith, Follows-position es [] xs s t f e (holds s t e)))

le_or_zero : (n : ℕ) → (n ≡ 0) ⊎ (1 ≤ n)
le_or_zero zero = inl refl
le_or_zero (suc n) = inr (omega arith)

module _ (nodes : List ℕ) (es : Edges)
    (closed : (s t : ℕ) → HasEdge s t es → (1 ≤ count s nodes) × (1 ≤ count t nodes)) where
  -- When nothing is ready any more and the graph has no cycle, every node has been taken.
  Inv-complete :
      (done : List ℕ) (left : ℕ → ℤ) (rank : ℕ → ℕ)
      → ((s t : ℕ) → HasEdge s t es → rank s < rank t)
      → Inv nodes es done [] [] left
      → (n t : ℕ) → rank t < n
      → 1 ≤ count t nodes
      → 1 ≤ count t done
  Inv-complete done left rank up inv zero t h m = absurd (omega arith)
  Inv-complete done left rank up inv (suc n) t h m = elim (le_or_zero (waiting t es done)) [
    | inl clear ↦ omega (arith, inv.full t m (omega arith))
    | inr stuck ↦
        let (s, edge, free) = waiting-source t es done stuck in
        absurd (
          omega (
            arith,
            up s t edge,
            Inv-complete done left rank up inv n s (omega (arith, up s t edge)) (closed s t edge).0,
          ))
  ]

  module _ (insert : List ℕ → ℕ → List ℕ)
      (count-insert : (ready : List ℕ) (u t : ℕ)
        → count t (insert ready u) ≡ one_if (u == t) + count t ready)
      (arrange : List ℕ → List ℕ)
      (count-arrange : (ready : List ℕ) (t : ℕ) → count t (arrange ready) ≡ count t ready)
      (outgoing : ℕ → List ℕ)
      (splits : (x t : ℕ) → 1 ≤ count x nodes → count t (outgoing x) ≡ count t (targets x es))
      (unique : (t : ℕ) → count t nodes ≤ 1) where
    Drained : ℕ → List ℕ → List ℕ → (ℕ → ℤ) → Type 0
    Drained fuel done ready left =
        (order : List ℕ) × (drain insert arrange outgoing fuel ready left ≡ some order)
        × Follows es done order
        × ((left' : ℕ → ℤ) × Inv nodes es (after done order) [] [] left')

    drain-Drained :
        (fuel : ℕ) (done ready : List ℕ) (left : ℕ → ℤ)
        → length nodes ≤ fuel + length done
        → Inv nodes es done [] ready left
        → Drained fuel done ready left
    unfolding drain Drained
    drain-Drained fuel done [] left enough inv = ([], refl, tt, (left, inv))
    drain-Drained zero done (x ∷ ready) left enough inv =
        let all : Within (done ++ x ∷ ready) nodes =
          λ t. omega (arith, count-append t done (x ∷ ready), inv.within t) in
        absurd (
          omega
            (arith, Within-length (done ++ x ∷ ready) nodes all, length-append done (x ∷ ready)))
    drain-Drained (suc fuel) done (x ∷ ready) left enough inv =
        let inv' =
          round-Inv nodes es insert count-insert outgoing splits (λ s t e. (closed s t e).1) unique
            done ready x left inv in
        let (ready', left') = release insert (outgoing x) ready left in
        let (order, run, follows, end) =
          drain-Drained fuel (x ∷ done) (arrange ready') left' (omega arith)
            (arrange-Inv nodes es arrange count-arrange (x ∷ done) ready' left' inv') in
        (
          x ∷ order,
          rw run,
          (
            (λ s e.
                waiting-zero s x es done e
                  (omega (arith, inv.clear x (omega (arith, count_self x ready))))),
            ground (arith, inv.within x, unique x),
            follows,
          ),
          end,
        )

    -- From a right start, a round for each node is enough. The order that the loop returns holds no
    -- id twice and none that is no node, each id follows its sources, and it holds every node
    -- exactly when the graph has no cycle.
    pub drain_total :
        (fuel : ℕ) (ready : List ℕ) (left : ℕ → ℤ)
        → length nodes ≤ fuel
        → ((t : ℕ) → left t ≡ pos (waiting t es []))
        → ((t : ℕ) → count t ready ≡ (if waiting t es [] == 0 then count t nodes else 0))
        → (order : List ℕ) × (drain insert arrange outgoing fuel ready left ≡ some order)
          × Follows es [] order
          × Within order nodes
          × ((length order ≡ length nodes) ↔ Acyclic es)
    unfolding Drained
    drain_total fuel ready left enough counts waits =
        let (order, run, follows, (left', inv)) =
          drain-Drained fuel [] ready left (omega arith)
            (start-Inv nodes es ready left counts waits) in
        let within : Within order nodes =
          λ t. omega (arith, inv.within t, count-after t [] order) in
        (
          order,
          run,
          follows,
          within,
          (
            (λ whole.
                Follows-Acyclic es order follows (λ s t e.
                  omega (arith, Within-full order nodes within whole t, (closed s t e).1))),
            (λ (rank, up). same_length order within left' rank up inv),
          ),
        )
      where
        same_length :
            (order : List ℕ)
            → Within order nodes
            → (left' : ℕ → ℤ) (rank : ℕ → ℕ) → ((s t : ℕ) → HasEdge s t es → rank s < rank t)
            → Inv nodes es (after [] order) [] [] left'
            → length order ≡ length nodes
        same_length order within left' rank up inv =
            let back : Within nodes order = λ t. ground (
              arith,
              unique t,
              Inv-complete (after [] order) left' rank up inv (suc (rank t)) t,
              count-after t [] order,
            ) in
            omega (arith, Within-length order nodes within, Within-length nodes order back)
