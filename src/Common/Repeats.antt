-- ===== src/Common/Repeats.antt =====
-- Lists with no two alike, and the loop that finds the first repetition with a set of the items seen.
use mathlib.Core.Path.{◌≡◌, refl}
use mathlib.Core.Logic.{◌↔◌}
use mathlib.Core.Bool.{Bool, false, ◌||◌}
use mathlib.Core.List.{List, [], ◌∷◌, ◌++◌}
use native.Mathlib.Omega.{arith}
use byok_grid.Common.Lists.{any, All}

module _ {A : Type 0} (alike : A → A → Bool) where
  abbrev pub Unseen : List A → A → Type 0
  Unseen seen x = any (λ y. alike y x) seen ≡ false

  -- No item is like one before it, or like one of `seen`.
  abbrev pub Fresh : List A → List A → Type 0
  Fresh seen [] = Unit
  Fresh seen (x ∷ xs) = Unseen seen x × Fresh (x ∷ seen) xs

  abbrev pub Distinct : List A → Type 0
  Distinct [] = Unit
  Distinct (x ∷ xs) = All (λ y. alike x y ≡ false) xs × Distinct xs

  unseen_split : (b c : Bool) → (b || c) ≡ false → (b ≡ false) × (c ≡ false)
  unseen_split b c h = ground arith

  unseen_join : (b c : Bool) → b ≡ false → c ≡ false → (b || c) ≡ false
  unseen_join b c p q = ground arith

  split-All :
      (x : A) (seen xs : List A)
      → All (Unseen (x ∷ seen)) xs
      → All (λ y. alike x y ≡ false) xs × All (Unseen seen) xs
  split-All x seen [] h = (tt, tt)
  split-All x seen (y ∷ ys) h =
      let (here, there) = unseen_split (alike x y) (any (λ z. alike z y) seen) h.0 in
      let (apart, unseen) = split-All x seen ys h.1 in ((here, apart), (there, unseen))

  join-All :
      (x : A) (seen xs : List A)
      → All (λ y. alike x y ≡ false) xs
      → All (Unseen seen) xs
      → All (Unseen (x ∷ seen)) xs
  join-All x seen [] h k = tt
  join-All x seen (y ∷ ys) h k =
      (unseen_join (alike x y) (any (λ z. alike z y) seen) h.0 k.0, join-All x seen ys h.1 k.1)

  Fresh→ : (seen xs : List A) → Fresh seen xs → All (Unseen seen) xs × Distinct xs
  Fresh→ seen [] h = (tt, tt)
  Fresh→ seen (x ∷ xs) h =
      let (unseen, distinct) = Fresh→ (x ∷ seen) xs h.1 in
      let (apart, rest) = split-All x seen xs unseen in ((h.0, rest), (apart, distinct))

  Fresh← : (seen xs : List A) → All (Unseen seen) xs → Distinct xs → Fresh seen xs
  Fresh← seen [] h d = tt
  Fresh← seen (x ∷ xs) h d = (h.0, Fresh← (x ∷ seen) xs (join-All x seen xs d.0 h.1) d.1)

  All-Unseen : (xs : List A) → All (Unseen []) xs
  All-Unseen [] = tt
  All-Unseen (x ∷ xs) = (refl, All-Unseen xs)

  pub Fresh-Distinct : (xs : List A) → Fresh [] xs ↔ Distinct xs
  Fresh-Distinct xs = ((λ h. (Fresh→ [] xs h).1), Fresh← [] xs (All-Unseen xs))

pub append-eq-nil {ℓ} : {A : Type ℓ} (xs ys : List A) → xs ++ ys ≡ [] → (xs ≡ []) × (ys ≡ [])
append-eq-nil [] ys h = (refl, h)
append-eq-nil (x ∷ xs) ys h = cc
