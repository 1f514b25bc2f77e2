-- ===== src/Common/Lists.antt =====
-- Lists measured by native numbers, and predicates on their items.
use Prim.Native.Nat.{ℕ, zero, suc, ◌+◌}
use mathlib.Core.Path.{◌≡◌, refl}
use mathlib.Core.Bool.{Bool, true, false, ◌||◌}
use mathlib.Core.Option.{Option, none, some}
use mathlib.Core.List.{List, [], ◌∷◌, ◌++◌}
use native.Mathlib.Omega.{arith}
use byok_grid.Common.Tests.{if◌then◌else◌, Bool-cases}
use mathlib.Core.Logic.{inl, inr}

module _ {ℓ} {A : Type ℓ} where
  abbrev pub length : List A → ℕ
  length [] = 0
  length (x ∷ xs) = suc (length xs)

  -- `xs.some(test)`
  abbrev pub any : (A → Bool) → List A → Bool
  any test [] = false
  any test (x ∷ xs) = test x || any test xs

  -- `xs.filter(test)`
  abbrev pub keep : (A → Bool) → List A → List A
  keep test [] = []
  keep test (x ∷ xs) = let rest = keep test xs in if test x then x ∷ rest else rest

  -- `xs.find(test)`
  abbrev pub find : (A → Bool) → List A → Option A
  find test [] = none
  find test (x ∷ xs) = let rest = find test xs in if test x then some x else rest

  abbrev pub take : ℕ → List A → List A
  take zero xs = []
  take (suc n) [] = []
  take (suc n) (x ∷ xs) = x ∷ take n xs

  -- `UPDATE … SET … WHERE …`
  unfoldable pub update_where : (A → Bool) → (A → A) → List A → List A
  update_where test change [] = []
  update_where test change (x ∷ xs) = (if test x then change x else x) ∷ update_where test change xs

  pub length-append : (xs ys : List A) → length (xs ++ ys) ≡ length xs + length ys
  length-append [] ys = omega arith
  length-append (x ∷ xs) ys = omega (arith, length-append xs ys)

abbrev pub All {ℓ κ} : {A : Type ℓ} → (A → Type κ) → List A → Type κ
All P [] = Unit
All P (x ∷ xs) = P x × All P xs

module _ {ℓ κ} {A : Type ℓ} (P : A → Type κ) where
  pub All-append : (xs ys : List A) → All P xs → All P ys → All P (xs ++ ys)
  All-append [] ys hx hy = hy
  All-append (x ∷ xs) ys hx hy = (hx.0, All-append xs ys hx.1 hy)

  pub All-split : (xs ys : List A) → All P (xs ++ ys) → All P xs × All P ys
  All-split [] ys h = (tt, h)
  All-split (x ∷ xs) ys h = let (hx, hy) = All-split xs ys h.1 in ((h.0, hx), hy)

module _ {ℓ} {A : Type ℓ} (test : A → Bool) (change : A → A) where
  -- An update that takes every row with the property out of it leaves none that has it.
  pub update_where-clears :
      (has : A → Bool)
      → ((x : A) → test x ≡ true → has (change x) ≡ false)
      → ((x : A) → test x ≡ false → has x ≡ false)
      → (xs : List A) → any has (update_where test change xs) ≡ false
  unfolding update_where
  update_where-clears has clears others [] = refl
  update_where-clears has clears others (x ∷ xs) =
      ground (arith, clears x, others x, update_where-clears has clears others xs)

  -- An update that gives no row the property leaves none that has it where there was none.
  pub update_where-adds_none :
      (has : A → Bool)
      → ((x : A) → test x ≡ true → has x ≡ false → has (change x) ≡ false)
      → (xs : List A) → any has xs ≡ false
      → any has (update_where test change xs) ≡ false
  unfolding update_where
  update_where-adds_none has adds [] none_has = refl
  update_where-adds_none has adds (x ∷ xs) none_has =
      ground (arith, adds x, update_where-adds_none has adds xs)

-- Two tables row by row.
abbrev pub Pairwise {ℓ} : {A : Type ℓ} → (A → A → Type 0) → List A → List A → Type 0
Pairwise R [] [] = Unit
Pairwise R (x ∷ xs) (y ∷ ys) = R x y × Pairwise R xs ys
Pairwise R _ _ = ⊥

module _ {ℓ} {A : Type ℓ} (R : A → A → Type 0) where
  pub Pairwise-refl : ((x : A) → R x x) → (xs : List A) → Pairwise R xs xs
  Pairwise-refl same [] = tt
  Pairwise-refl same (x ∷ xs) = (same x, Pairwise-refl same xs)

  pub Pairwise-trans :
      ((x y z : A) → R x y → R y z → R x z)
      → (xs ys zs : List A) → Pairwise R xs ys
      → Pairwise R ys zs
      → Pairwise R xs zs
  Pairwise-trans joins [] [] [] p q = tt
  Pairwise-trans joins [] [] (z ∷ zs) p q = absurd q
  Pairwise-trans joins [] (y ∷ ys) zs p q = absurd p
  Pairwise-trans joins (x ∷ xs) [] zs p q = absurd p
  Pairwise-trans joins (x ∷ xs) (y ∷ ys) [] p q = absurd q
  Pairwise-trans joins (x ∷ xs) (y ∷ ys) (z ∷ zs) p q =
      (joins x y z p.0 q.0, Pairwise-trans joins xs ys zs p.1 q.1)

  -- An update relates each row to what it becomes.
  pub update_where-Pairwise :
      (test : A → Bool) (change : A → A)
      → ((x : A) → test x ≡ true → R x (change x))
      → ((x : A) → test x ≡ false → R x x)
      → (xs : List A) → Pairwise R xs (update_where test change xs)
  unfolding update_where
  update_where-Pairwise test change changed kept [] = tt
  update_where-Pairwise test change changed kept (x ∷ xs) =
      (row, update_where-Pairwise test change changed kept xs)
    where
      row : R x (if test x then change x else x)
      row = elim (Bool-cases (test x)) [ inl e ↦ rw e (changed x e) | inr e ↦ rw e (kept x e) ]
