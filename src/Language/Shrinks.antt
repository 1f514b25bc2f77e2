-- ===== src/Language/Shrinks.antt =====
-- What the scans of formula-language.ts leave of a text (packages/domain/src/formula-language.ts).
use byok_grid.Common.{
  ℕ, ◌≤◌, Text, Bool, true, false, ◌||◌, ◌==◌, Option, none, some, [], ◌∷◌, length, is_space,
  Bool-cases, Option-cases, inl, inr, subst, arith,
}
use byok_grid.Language.Lexer.{
  is_digit, span, skip_space, scanned, scan_name, scan_string, scan_integer, with_digits,
  scan_fraction, scan_sign, scan_exponent, scan_unsigned, scan_number,
}

-- What is left of a scan that succeeds is at most so long.
abbrev pub Leaves : ℕ → Option (Text × Text) → Type 0
Leaves n none = Unit
Leaves n (some (word, rest)) = length rest ≤ n

Leaves-wider : (n m : ℕ) (o : Option (Text × Text)) → n ≤ m → Leaves n o → Leaves m o
Leaves-wider n m none h leaves = tt
Leaves-wider n m (some (word, rest)) h leaves = omega arith

Leaves-scanned :
    (c n m : ℕ) (o : Option (Text × Text)) → n ≤ m → Leaves n o → Leaves m (scanned c o)
Leaves-scanned c n m none h leaves = tt
Leaves-scanned c n m (some (word, rest)) h leaves = omega arith

pub length-span : (test : ℕ → Bool) (s : Text) → length (span test s).1 ≤ length s
unfolding span
length-span test [] = omega arith
length-span test (c ∷ s) = elim (Bool-cases (test c)) [
  | inl e ↦ rw e (let rest = length-span test s in omega arith)
  | inr e ↦ rw e (omega arith)
]

pub length-skip_space : (s : Text) → length (skip_space s) ≤ length s
unfolding skip_space
length-skip_space [] = omega arith
length-skip_space (c ∷ s) = elim (Bool-cases (is_space c)) [
  | inl e ↦ rw e (let rest = length-skip_space s in omega arith)
  | inr e ↦ rw e (omega arith)
]

pub scan_name-Leaves : (closing : Bool) (s : Text) → Leaves (length s) (scan_name closing s)
unfolding scan_name
scan_name-Leaves false [] = tt
scan_name-Leaves true [] = omega arith
scan_name-Leaves false (c ∷ s) = elim (Bool-cases (c == b']')) [
  | inl e ↦ rw e (
      Leaves-wider (length s) (length (c ∷ s)) (scan_name true s) (omega arith)
        (scan_name-Leaves true s))
  | inr e ↦ rw e (
      Leaves-scanned c (length s) (length (c ∷ s)) (scan_name false s) (omega arith)
        (scan_name-Leaves false s))
]
scan_name-Leaves true (c ∷ s) = elim (Bool-cases (c == b']')) [
  | inl e ↦ rw e (
      Leaves-scanned c (length s) (length (c ∷ s)) (scan_name false s) (omega arith)
        (scan_name-Leaves false s))
  | inr e ↦ rw e (omega arith)
]

pub scan_string-Leaves : (escaped : Bool) (s : Text) → Leaves (length s) (scan_string escaped s)
unfolding scan_string
scan_string-Leaves escaped [] = tt
scan_string-Leaves true (c ∷ s) =
    Leaves-scanned c (length s) (length (c ∷ s)) (scan_string false s) (omega arith)
      (scan_string-Leaves false s)
scan_string-Leaves false (c ∷ s) = elim (Bool-cases (c == b'"')) [
  | inl e ↦ rw e (omega arith)
  | inr e ↦ rw e (elim (Bool-cases (c == b'\\')) [
    | inl q ↦ rw q (
        Leaves-scanned c (length s) (length (c ∷ s)) (scan_string true s) (omega arith)
          (scan_string-Leaves true s))
    | inr q ↦ rw q (
        Leaves-scanned c (length s) (length (c ∷ s)) (scan_string false s) (omega arith)
          (scan_string-Leaves false s))
  ])
]

with_digits-leaves :
    (lead : Text) (found : Text × Text) (s : Text) (n : ℕ)
    → length found.1 ≤ n
    → length s ≤ n
    → length (with_digits lead found s).1 ≤ n
with_digits-leaves lead ([], after) s n h k = k
with_digits-leaves lead (d ∷ digits, after) s n h k = h

length-scan_fraction : (s : Text) → length (scan_fraction s).1 ≤ length s
unfolding scan_fraction
length-scan_fraction [] = omega arith
length-scan_fraction (c ∷ s) = elim (Bool-cases (c == b'.')) [
  | inl e ↦ rw e (
      with_digits-leaves (c ∷ []) (span is_digit s) (c ∷ s) (length (c ∷ s))
        (omega (arith, length-span is_digit s)) (omega arith))
  | inr e ↦ rw e (omega arith)
]

length-scan_sign : (s : Text) → length (scan_sign s).1 ≤ length s
length-scan_sign [] = omega arith
length-scan_sign (c ∷ s) = elim (Bool-cases (c == b'+' || c == b'-')) [
  | inl e ↦ rw e (omega arith)
  | inr e ↦ rw e (omega arith)
]

length-scan_exponent : (s : Text) → length (scan_exponent s).1 ≤ length s
unfolding scan_exponent
length-scan_exponent [] = omega arith
length-scan_exponent (c ∷ s) = elim (Bool-cases (c == b'e' || c == b'E')) [
  | inl e ↦ rw e (
      with_digits-leaves (c ∷ (scan_sign s).0) (span is_digit (scan_sign s).1) (c ∷ s)
        (length (c ∷ s)) (omega (arith, length-span is_digit (scan_sign s).1, length-scan_sign s))
        (omega arith))
  | inr e ↦ rw e (omega arith)
]

-- A number takes a character at least.
scan_integer-Leaves : (c : ℕ) (s : Text) → Leaves (length s) (scan_integer (c ∷ s))
unfolding scan_integer
scan_integer-Leaves c s = elim (Bool-cases (c == b'0')) [
  | inl e ↦ rw e (omega arith)
  | inr e ↦
      rw e
        (elim (Bool-cases (is_digit c)) [ inl q ↦ rw q (length-span is_digit s) | inr q ↦ rw q tt ])
]

scan_unsigned-Leaves : (s : Text) (n : ℕ) → Leaves n (scan_integer s) → Leaves n (scan_unsigned s)
unfolding scan_number
scan_unsigned-Leaves s n leaves = elim (Option-cases (scan_integer s)) [
  | inl e ↦ rw e tt
  | inr ((whole, after), e) ↦
      let left = subst (Leaves n) e leaves in
      rw e (
        omega
          (arith, length-scan_fraction after, length-scan_exponent (scan_fraction after).1, left))
]

pub scan_number-Leaves : (c : ℕ) (s : Text) → Leaves (length s) (scan_number (c ∷ s))
unfolding scan_number
scan_number-Leaves c s = elim (Bool-cases (c == b'-')) [
  | inl e ↦ rw e (signed s)
  | inr e ↦ rw e (scan_unsigned-Leaves (c ∷ s) (length s) (scan_integer-Leaves c s))
]
  where
    signed : (s : Text) → Leaves (length s) (scanned c (scan_unsigned s))
    signed [] = tt
    signed (d ∷ s) =
        Leaves-scanned c (length s) (length (d ∷ s)) (scan_unsigned (d ∷ s)) (omega arith)
          (scan_unsigned-Leaves (d ∷ s) (length s) (scan_integer-Leaves d s))
