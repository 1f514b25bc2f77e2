-- ===== src/Recompute/Reached.antt =====
-- What the search of recomputeDependentSqliteFormulasForRow reaches
-- (packages/db/src/sqlite/formulas.ts).
use byok_grid.Common.{
  ℕ, zero, suc, ◌+◌, ◌≤◌, ◌≡◌, ◌⊎◌, inl, inr, refl, sym, subst, Bool, true, false, ◌||◌, not, some,
  List, [], ◌∷◌, ◌++◌, ◌==◌, ==_iff, length, length-append, Bool-cases, arith,
}
use byok_grid.Toposort.Counts.{one_if, count, count-append}
use byok_grid.Workflow.Validate.{member}
use byok_grid.Recompute.Graph.{Dependency, dependents, reach_loop, reach_new}

member-append : (t : ℕ) (xs ys : List ℕ) → member t (xs ++ ys) ≡ (member t xs || member t ys)
member-append t [] ys = refl
member-append t (x ∷ xs) ys = ground (arith, member-append t xs ys)

pub member-count : (t : ℕ) (xs : List ℕ) → member t xs ≡ not (count t xs == 0)
member-count t [] = refl
member-count t (x ∷ xs) = ground (arith, member-count t xs)

-- The dependencies of columns that are not reached.
abbrev unreached : List Dependency → List ℕ → ℕ
unreached [] reachable = 0
unreached (d ∷ ds) reachable = one_if (not (member d.column_id reachable)) + unreached ds reachable

abbrev is_column : List Dependency → ℕ → Bool
is_column [] y = false
is_column (d ∷ ds) y = d.column_id == y || is_column ds y

dependents-is_column :
    (deps : List Dependency) (x y : ℕ)
    → member y (dependents deps x) ≡ true
    → is_column deps y ≡ true
unfolding dependents
dependents-is_column [] x y h = cc
dependents-is_column (d ∷ ds) x y h = ground (arith, dependents-is_column ds x y)

unreached-grows :
    (deps : List Dependency) (reachable : List ℕ) (y : ℕ)
    → unreached deps (reachable ++ y ∷ []) ≤ unreached deps reachable
unreached-grows [] reachable y = omega arith
unreached-grows (d ∷ ds) reachable y =
    ground (arith, unreached-grows ds reachable y, member-append d.column_id reachable (y ∷ []))

unreached-drops :
    (deps : List Dependency) (reachable : List ℕ) (y : ℕ)
    → member y reachable ≡ false
    → is_column deps y ≡ true
    → unreached deps (reachable ++ y ∷ []) + 1 ≤ unreached deps reachable
unreached-drops [] reachable y new column = cc
unreached-drops (d ∷ ds) reachable y new column = elim (Bool-cases (d.column_id == y)) [
  | inl e ↦
      let same : d.column_id ≡ y = (==_iff d.column_id y).0 e in
      let fresh : member d.column_id reachable ≡ false =
        subst (λ z. member z reachable ≡ false) (sym same) new in
      ground (arith, unreached-grows ds reachable y, member-append d.column_id reachable (y ∷ []))
  | inr e ↦
      ground (arith, unreached-drops ds reachable y, member-append d.column_id reachable (y ∷ []))
]

-- What the inner loop does to the set and the queue.
record Grown (deps : List Dependency) (ds reachable queue reachable' queue' : List ℕ) : Type 0 where
  pub takes : (y : ℕ) → member y ds ≡ true → member y reachable' ≡ true
  pub keeps : (y : ℕ) → member y reachable ≡ true → member y reachable' ≡ true
  pub queues : (y : ℕ) → member y reachable' ≡ true → (member y reachable || member y queue') ≡ true
  pub waits : (y : ℕ) → member y queue ≡ true → member y queue' ≡ true
  pub once : ((y : ℕ) → count y reachable ≤ 1) → (y : ℕ) → count y reachable' ≤ 1
  pub bound : length queue' + unreached deps reachable' ≤ length queue + unreached deps reachable

head_or_tail : (d y : ℕ) (xs : List ℕ) → member y (d ∷ xs) ≡ true → (d ≡ y) ⊎ (member y xs ≡ true)
head_or_tail d y xs h = elim (Bool-cases (d == y)) [
  | inl e ↦ inl ((==_iff d y).0 e)
  | inr e ↦ inr (ground arith)
]

member-last : (d : ℕ) (xs : List ℕ) → member d (xs ++ d ∷ []) ≡ true
member-last d xs = ground (arith, member-append d xs (d ∷ []))

member-more : (y d : ℕ) (xs : List ℕ) → member y xs ≡ true → member y (xs ++ d ∷ []) ≡ true
member-more y d xs h = ground (arith, member-append y xs (d ∷ []))

count-last :
    (d : ℕ) (xs : List ℕ)
    → member d xs ≡ false
    → ((y : ℕ) → count y xs ≤ 1)
    → (y : ℕ) → count y (xs ++ d ∷ []) ≤ 1
count-last d xs new unique y = elim (Bool-cases (d == y)) [
  | inl e ↦
      let fresh : member y xs ≡ false = subst (λ z. member z xs ≡ false) ((==_iff d y).0 e) new in
      ground (arith, count-append y xs (d ∷ []), member-count y xs)
  | inr e ↦ ground (arith, count-append y xs (d ∷ []), unique y)
]

reach_new-Grown :
    (deps : List Dependency) (ds reachable queue : List ℕ)
    → ((y : ℕ) → member y ds ≡ true → is_column deps y ≡ true)
    → Grown deps ds reachable queue
        (reach_new ds reachable queue).0
        (reach_new ds reachable queue).1
unfolding reach_new
reach_new-Grown deps [] reachable queue columns = record {
  takes = λ y h. cc;
  keeps = λ y h. h;
  queues = λ y h. ground arith;
  waits = λ y h. h;
  once = λ h. h;
  bound = omega arith;
}
reach_new-Grown deps (d ∷ ds) reachable queue columns = elim (Bool-cases (member d reachable)) [
  | inl old ↦ rw old (known old (reach_new-Grown deps ds reachable queue others))
  | inr new ↦
      rw new (added new (reach_new-Grown deps ds (reachable ++ d ∷ []) (queue ++ d ∷ []) others))
]
  where
    others : (y : ℕ) → member y ds ≡ true → is_column deps y ≡ true
    others y h = columns y (ground arith)

    known :
        member d reachable ≡ true
        → {reachable' queue' : List ℕ} → Grown deps ds reachable queue reachable' queue'
        → Grown deps (d ∷ ds) reachable queue reachable' queue'
    known old grown = record {
      takes = λ y h. elim (head_or_tail d y ds h) [
        | inl e ↦ grown.keeps y (subst (λ z. member z reachable ≡ true) e old)
        | inr m ↦ grown.takes y m
      ];
      keeps = grown.keeps;
      queues = grown.queues;
      waits = grown.waits;
      once = grown.once;
      bound = grown.bound;
    }

    added :
        member d reachable ≡ false
        → {reachable' queue' : List ℕ}
        → Grown deps ds (reachable ++ d ∷ []) (queue ++ d ∷ []) reachable' queue'
        → Grown deps (d ∷ ds) reachable queue reachable' queue'
    added new {reachable'} {queue'} grown = record {
      takes = λ y h. elim (head_or_tail d y ds h) [
        | inl e ↦
            grown.keeps y
              (subst (λ z. member z (reachable ++ d ∷ []) ≡ true) e (member-last d reachable))
        | inr m ↦ grown.takes y m
      ];
      keeps = λ y h. grown.keeps y (member-more y d reachable h);
      queues = λ y h. elim (Bool-cases (d == y)) [
        | inl e ↦
            let waiting : member y queue' ≡ true = grown.waits y (
              subst (λ z. member z (queue ++ d ∷ []) ≡ true) ((==_iff d y).0 e)
                (member-last d queue)) in
            ground arith
        | inr e ↦ ground (arith, grown.queues y h, member-append y reachable (d ∷ []))
      ];
      waits = λ y h. grown.waits y (member-more y d queue h);
      once = λ unique. grown.once (count-last d reachable new unique);
      bound = omega (
        arith,
        grown.bound,
        length-append queue (d ∷ []),
        unreached-drops deps reachable d new (columns d (ground arith)),
      );
    }

-- The changed columns and those of the set, and what the loop still has to do for them.
abbrev Source : List ℕ → List ℕ → ℕ → Type 0
Source changed reachable x = (member x changed || member x reachable) ≡ true

-- All that depends on the column is in the set.
abbrev pub Closed : List Dependency → List ℕ → ℕ → Type 0
Closed deps reachable x = (y : ℕ) → member y (dependents deps x) ≡ true → member y reachable ≡ true

abbrev Pending : List Dependency → List ℕ → List ℕ → List ℕ → Type 0
Pending deps changed queue reachable =
    (x : ℕ) → Source changed reachable x → (member x queue ≡ true) ⊎ Closed deps reachable x

-- The set that the search returns.
pub record ReachedSet (deps : List Dependency) (changed reachable : List ℕ) : Type 0 where
  pub closed : (x : ℕ) → (member x changed || member x reachable) ≡ true → Closed deps reachable x
  pub unique : (y : ℕ) → count y reachable ≤ 1

module _ (deps : List Dependency) (changed : List ℕ) where
  round_Pending :
      (id : ℕ) (queue reachable reachable' queue' : List ℕ)
      → Grown deps (dependents deps id) reachable queue reachable' queue'
      → Pending deps changed (id ∷ queue) reachable
      → Pending deps changed queue' reachable'
  round_Pending id queue reachable reachable' queue' grown pending x source =
      elim (Bool-cases (member x queue')) [
        | inl waits ↦ inl waits
        | inr apart ↦
            let old : Source changed reachable x = ground (arith, grown.queues x) in
            was (pending x old) apart
      ]
    where
      was :
          (member x (id ∷ queue) ≡ true) ⊎ Closed deps reachable x
          → member x queue' ≡ false
          → (member x queue' ≡ true) ⊎ Closed deps reachable' x
      was (inr closed) apart = inr (λ y h. grown.keeps y (closed y h))
      was (inl h) apart = elim (head_or_tail id x queue h) [
        | inl e ↦
            inr (λ y h. grown.takes y (subst (λ z. member y (dependents deps z) ≡ true) (sym e) h))
        | inr m ↦ inl (grown.waits x m)
      ]

  nothing_waits :
      (reachable : List ℕ) (x : ℕ)
      → (member x [] ≡ true) ⊎ Closed deps reachable x
      → Closed deps reachable x
  nothing_waits reachable x (inl h) = cc
  nothing_waits reachable x (inr closed) = closed

  reach_loop-total :
      (fuel : ℕ) (queue reachable : List ℕ)
      → length queue + unreached deps reachable ≤ fuel
      → Pending deps changed queue reachable
      → ((y : ℕ) → count y reachable ≤ 1)
      → (end : List ℕ) × (reach_loop deps fuel queue reachable ≡ some end)
        × ReachedSet deps changed end
  unfolding reach_loop
  reach_loop-total fuel [] reachable enough pending unique = (
    reachable,
    refl,
    record { closed = λ x h. nothing_waits reachable x (pending x h); unique = unique },
  )
  reach_loop-total zero (id ∷ queue) reachable enough pending unique = absurd (omega arith)
  reach_loop-total (suc fuel) (id ∷ queue) reachable enough pending unique =
      let grown =
        reach_new-Grown deps (dependents deps id) reachable queue (dependents-is_column deps id) in
      reach_loop-total fuel _ _ (omega (arith, grown.bound))
        (round_Pending id queue reachable _ _ grown pending) (grown.once unique)

  unreached_all : (ds : List Dependency) → unreached ds [] ≤ length ds
  unreached_all [] = omega arith
  unreached_all (d ∷ ds) = omega (arith, unreached_all ds)

  -- A round for each changed column and each dependency is enough.
  pub reach_loop-ReachedSet :
      (end : List ℕ) × (reach_loop deps (length changed + length deps) changed [] ≡ some end)
      × ReachedSet deps changed end
  reach_loop-ReachedSet =
      reach_loop-total (length changed + length deps) changed [] (omega (arith, unreached_all deps))
        (λ x source. inl (ground arith)) (λ y. omega arith)
