-- ===== src/Toposort/Counts.antt =====
-- Lists of ids by how often they hold each id.
use byok_grid.Common.{
  ℕ, suc, ◌+◌, ◌≤◌, ◌≡◌, Bool, List, [], ◌∷◌, ◌++◌, ◌==◌, if◌then◌else◌, arith, length,
}

abbrev pub one_if : Bool → ℕ
one_if b = if b then 1 else 0

abbrev pub count : ℕ → List ℕ → ℕ
count t [] = 0
count t (x ∷ xs) = one_if (x == t) + count t xs

pub count-append : (t : ℕ) (xs ys : List ℕ) → count t (xs ++ ys) ≡ count t xs + count t ys
count-append t [] ys = omega arith
count-append t (x ∷ xs) ys = omega (arith, count-append t xs ys)

-- The list without the first `x`.
remove : ℕ → List ℕ → List ℕ
remove x [] = []
remove x (y ∷ ys) = let rest = remove x ys in if y == x then ys else y ∷ rest

count-remove :
    (x t : ℕ) (ys : List ℕ) → 1 ≤ count x ys → count t (remove x ys) + one_if (x == t) ≡ count t ys
unfolding remove
count-remove x t [] h = omega arith
count-remove x t (y ∷ ys) h = ground (arith, count-remove x t ys)

length-remove : (x : ℕ) (ys : List ℕ) → 1 ≤ count x ys → suc (length (remove x ys)) ≡ length ys
unfolding remove
length-remove x [] h = omega arith
length-remove x (y ∷ ys) h = ground (arith, length-remove x ys)

abbrev pub Within : List ℕ → List ℕ → Type 0
Within xs ys = (t : ℕ) → count t xs ≤ count t ys

pub count_self : (x : ℕ) (xs : List ℕ) → 1 ≤ count x (x ∷ xs)
count_self x xs = ground arith

Within-remove : (x : ℕ) (xs ys : List ℕ) → Within (x ∷ xs) ys → Within xs (remove x ys)
Within-remove x xs ys h t = ground (arith, h t, h x, count-remove x t ys, count_self x xs)

-- A list within another is no longer.
pub Within-length : (xs ys : List ℕ) → Within xs ys → length xs ≤ length ys
Within-length [] ys h = omega arith
Within-length (x ∷ xs) ys h =
    let here : 1 ≤ count x ys = omega (arith, h x, count_self x xs) in
    omega (arith, Within-length xs (remove x ys) (Within-remove x xs ys h), length-remove x ys here)

-- A list within another of its length holds all of it.
pub Within-full : (xs ys : List ℕ) → Within xs ys → length xs ≡ length ys → Within ys xs
Within-full [] [] h e t = omega arith
Within-full [] (y ∷ ys) h e t = absurd (omega arith)
Within-full (x ∷ xs) ys h e t =
    let here : 1 ≤ count x ys = omega (arith, h x, count_self x xs) in
    let shorter : length xs ≡ length (remove x ys) = omega (arith, length-remove x ys here) in
    omega (
      arith,
      Within-full xs (remove x ys) (Within-remove x xs ys h) shorter t,
      count-remove x t ys here,
    )
