-- ===== src/Toposort/Invariant.antt =====
-- What holds between two rounds of the loop, and that each round keeps it.
use byok_grid.Common.{
  ℕ, zero, suc, ◌+◌, ◌≤◌, ◌≡◌, refl, List, [], ◌∷◌, ◌==◌, if◌then◌else◌, arith, Bool-cases, inl,
  inr,
}
use byok_grid.Toposort.Loop.{ℤ, pos, decrement, is_zero, put, release}
use byok_grid.Toposort.Counts.{one_if, count, count_self}
use byok_grid.Toposort.Edges.{Edges, HasEdge, targets, waiting, waiting-step, count-targets}

-- The ids taken so far are `done`, those of the round's targets still to be counted down `ts`.
pub record Inv (nodes : List ℕ) (es : Edges) (done ts ready : List ℕ) (left : ℕ → ℤ) : Type 0 where
  pub left_is : (t : ℕ) → left t ≡ pos (waiting t es done + count t ts)
  pub clear : (t : ℕ) → 1 ≤ count t done + count t ready → waiting t es done + count t ts ≡ 0
  pub full :
      (t : ℕ)
      → 1 ≤ count t nodes
      → waiting t es done + count t ts ≡ 0
      → 1 ≤ count t done + count t ready
  pub within : (t : ℕ) → count t done + count t ready ≤ count t nodes

pub is_zero-pos : (k : ℕ) → is_zero (pos k) ≡ (k == 0)
is_zero-pos zero = refl
is_zero-pos (suc k) = ground arith

count_head : (k w u : ℕ) (us : List ℕ) → w + count u us ≡ k → w + count u (u ∷ us) ≡ suc k
count_head k w u us h = ground arith

module _ (nodes : List ℕ) (es : Edges) where
  countdown-Inv :
      (done : List ℕ) (u : ℕ) (us ready ready' : List ℕ) (left : ℕ → ℤ)
      → Inv nodes es done (u ∷ us) ready left
      → 1 ≤ count u nodes
      → ((t : ℕ)
          → count t ready' ≡ (
              if (waiting u es done + count u us) == 0
              then one_if (u == t) + count t ready
              else count t ready))
      → Inv nodes es done us ready' (put left u (pos (waiting u es done + count u us)))
  countdown-Inv done u us ready ready' left inv member joined = record {
    left_is = λ t. ground (arith, inv.left_is t);
    clear = λ t h. ground (arith, inv.clear t, joined t);
    full = λ t m h. ground (arith, inv.full t, joined t);
    within = λ t. ground (arith, inv.within t, joined t, inv.clear u);
  }

  module _ (insert : List ℕ → ℕ → List ℕ)
      (count-insert : (ready : List ℕ) (u t : ℕ)
        → count t (insert ready u) ≡ one_if (u == t) + count t ready) where
    release-Inv :
        (done ts ready : List ℕ) (left : ℕ → ℤ)
        → ((t : ℕ) → 1 ≤ count t ts → 1 ≤ count t nodes)
        → Inv nodes es done ts ready left
        → Inv nodes es done [] (release insert ts ready left).0 (release insert ts ready left).1
    unfolding release
    release-Inv done [] ready left inside inv = inv
    release-Inv done (u ∷ us) ready left inside inv =
        let k : ℕ = waiting u es done + count u us in
        let down : decrement (left u) ≡ pos k =
          rw (inv.left_is u) (rw (count_head k (waiting u es done) u us refl)) in
        let ready' : List ℕ = if is_zero (pos k) then insert ready u else ready in
        rw (down, release)
          (release-Inv done us ready' (put left u (pos k)) (λ t h. inside t (omega arith))
            (countdown-Inv done u us ready ready' left inv (inside u (count_self u us))
              (λ t. rw (is_zero-pos k) (joined k ready u t))))
      where
        joined :
            (k : ℕ) (ready : List ℕ) (u t : ℕ)
            → count t (if k == 0 then insert ready u else ready)
              ≡ (if k == 0 then one_if (u == t) + count t ready else count t ready)
        joined k ready u t = elim (Bool-cases (k == 0)) [
          | inl e ↦ rw e (count-insert ready u t)
          | inr e ↦ rw e refl
        ]

    module _ (outgoing : ℕ → List ℕ)
        (splits : (x t : ℕ) → 1 ≤ count x nodes → count t (outgoing x) ≡ count t (targets x es))
        (closed : (s t : ℕ) → HasEdge s t es → 1 ≤ count t nodes)
        (unique : (t : ℕ) → count t nodes ≤ 1) where
      head_node :
          (done ready : List ℕ) (x : ℕ) (left : ℕ → ℤ)
          → Inv nodes es done [] (x ∷ ready) left
          → 1 ≤ count x nodes
      head_node done ready x left inv = omega (arith, inv.within x, count_self x ready)

      take-Inv :
          (done ready : List ℕ) (x : ℕ) (left : ℕ → ℤ)
          → Inv nodes es done [] (x ∷ ready) left
          → Inv nodes es (x ∷ done) (outgoing x) ready left
      take-Inv done ready x left inv = record {
        left_is =
            λ t. ground (arith, inv.left_is t, splits x t node, waiting-step t x es done free);
        clear = λ t h. ground (arith, inv.clear t, splits x t node, waiting-step t x es done free);
        full = λ t m h. ground (arith, inv.full t, splits x t node, waiting-step t x es done free);
        within = λ t. ground (arith, inv.within t);
      }
        where
          free : count x done ≡ 0
          free = ground (arith, inv.within x, unique x)

          node : 1 ≤ count x nodes
          node = head_node done ready x left inv

      pub round-Inv :
          (done ready : List ℕ) (x : ℕ) (left : ℕ → ℤ)
          → Inv nodes es done [] (x ∷ ready) left
          → Inv nodes es
              (x ∷ done)
              []
              (release insert (outgoing x) ready left).0
              (release insert (outgoing x) ready left).1
      round-Inv done ready x left inv =
          release-Inv (x ∷ done) (outgoing x) ready left
            (λ t h.
              closed x t (
                count-targets x t es (omega (arith, splits x t (head_node done ready x left inv)))))
            (take-Inv done ready x left inv)

  -- Before the first round: the counts are those of all edges, and the ready ids those without one.
  pub start-Inv :
      (ready : List ℕ) (left : ℕ → ℤ)
      → ((t : ℕ) → left t ≡ pos (waiting t es []))
      → ((t : ℕ) → count t ready ≡ (if waiting t es [] == 0 then count t nodes else 0))
      → Inv nodes es [] [] ready left
  start-Inv ready left counts waits = record {
    left_is = λ t. ground (arith, counts t);
    clear = λ t h. ground (arith, waits t);
    full = λ t m h. ground (arith, waits t);
    within = λ t. ground (arith, waits t);
  }

  pub arrange-Inv :
      (arrange : List ℕ → List ℕ)
      → ((ready : List ℕ) (t : ℕ) → count t (arrange ready) ≡ count t ready)
      → (done ready : List ℕ) (left : ℕ → ℤ) → Inv nodes es done [] ready left
      → Inv nodes es done [] (arrange ready) left
  arrange-Inv arrange same done ready left inv = record {
    left_is = inv.left_is;
    clear = λ t h. inv.clear t (omega (arith, same ready t));
    full = λ t m h. omega (arith, inv.full t m h, same ready t);
    within = λ t. omega (arith, inv.within t, same ready t);
  }
