-- ===== src/Toposort/Loop.antt =====
-- The loop: take the first ready id, count down its targets, and make those that reach 0 ready.
-- Ids are numbers, maps are functions, and a count may pass below 0 as a JavaScript number does.
use byok_grid.Common.{
  ℕ, zero, suc, Bool, true, false, Option, none, some, List, [], ◌∷◌, ◌==◌, if◌then◌else◌,
}

-- `negsuc n` is -(n + 1).
pub data ℤ : Type 0 where
  pos : ℕ → ℤ
  negsuc : ℕ → ℤ

abbrev pub decrement : ℤ → ℤ
decrement (pos zero) = negsuc 0
decrement (pos (suc n)) = pos n
decrement (negsuc n) = negsuc (suc n)

abbrev pub is_zero : ℤ → Bool
is_zero (pos zero) = true
is_zero _ = false

-- `map.set(key, value)` on a map that is a function.
abbrev pub put {ℓ} : {A : Type ℓ} → (ℕ → A) → ℕ → A → ℕ → A
put m k v j = if k == j then v else m j

abbrev pub prepend : {A : Type 0} → A → Option (List A) → Option (List A)
prepend x none = none
prepend x (some xs) = some (x ∷ xs)

module _ (insert : List ℕ → ℕ → List ℕ) where
  -- The inner loop: the ready list and the counts after it.
  unfoldable pub release : List ℕ → List ℕ → (ℕ → ℤ) → List ℕ × (ℕ → ℤ)
  release [] ready left = (ready, left)
  release (t ∷ ts) ready left =
      let next = decrement (left t) in
      release ts (if is_zero next then insert ready t else ready) (put left t next)

  -- The outer loop, with fuel: `none` means that the fuel ran out.
  unfoldable pub drain : (List ℕ → List ℕ) → (ℕ → List ℕ) → ℕ → List ℕ → (ℕ → ℤ) → Option (List ℕ)
  drain arrange outgoing fuel [] left = some []
  drain arrange outgoing zero (x ∷ ready) left = none
  drain arrange outgoing (suc fuel) (x ∷ ready) left =
      let (ready', left') = release (outgoing x) ready left in
      prepend x (drain arrange outgoing fuel (arrange ready') left')
