-- ===== src/Language/Scans.antt =====
-- What the words of formula-language.ts scan when more text follows.
use byok_grid.Common.{
  ℕ, Text, Bool, true, false, ◌||◌, ◌≡◌, ◌==◌, refl, subst, arith, Option, none, some, [], ◌∷◌,
  ◌++◌, Bool-cases, Option-cases, inl, inr, ◌⊎◌,
}
use byok_grid.Language.Lexer.{
  is_digit, scan_exponent, scan_fraction, scan_integer, scan_name, scan_number, scan_sign,
  scan_string, scan_unsigned, scanned, span, with_digits,
}
use byok_grid.Language.Parser.{whole}
use byok_grid.Language.Printer.{escape_name}

-- The text does not go on with a character that passes the test.
abbrev pub Ends : (ℕ → Bool) → Text → Type 0
Ends test [] = Unit
Ends test (c ∷ s) = test c ≡ false

pub span-append :
    (test : ℕ → Bool) (s rest : Text)
    → Ends test rest
    → span test (s ++ rest) ≡ ((span test s).0, (span test s).1 ++ rest)
unfolding span
span-append test [] [] h = refl
span-append test [] (c ∷ rest) h = rw h refl
span-append test (c ∷ s) rest h =
    let hypothesis = span-append test s rest h in ground (arith, hypothesis)

-- With more text, a scan that succeeds finds the same word and leaves what it left and the rest.
abbrev pub Extends : Option (Text × Text) → Text → Option (Text × Text) → Type 0
Extends none more longer = Unit
Extends (some (word, after)) more longer = longer ≡ some (word, after ++ more)

scanned-Extends :
    (c : ℕ) (o : Option (Text × Text)) (more : Text) (longer : Option (Text × Text))
    → Extends o more longer
    → Extends (scanned c o) more (scanned c longer)
scanned-Extends c none more longer h = tt
scanned-Extends c (some (word, after)) more longer h = rw h refl

pub scan_string-Extends :
    (escaped : Bool) (s rest : Text)
    → Extends (scan_string escaped s) rest (scan_string escaped (s ++ rest))
unfolding scan_string
scan_string-Extends escaped [] rest = tt
scan_string-Extends true (c ∷ s) rest =
    scanned-Extends c (scan_string false s) rest _ (scan_string-Extends false s rest)
scan_string-Extends false (c ∷ s) rest =
    let escape = scan_string-Extends true s rest in
    let plain = scan_string-Extends false s rest in
    elim (Bool-cases (c == b'"')) [
      | inl e ↦ rw e refl
      | inr e ↦ rw e (elim (Bool-cases (c == b'\\')) [
        | inl q ↦ rw q (scanned-Extends c (scan_string true s) rest _ escape)
        | inr q ↦ rw q (scanned-Extends c (scan_string false s) rest _ plain)
      ])
    ]

-- An escaped name is scanned back up to its `]`.
pub scan_name-escape_name :
    (name rest : Text)
    → Ends (λ c. c == b']') rest
    → scan_name false (escape_name name ++ b']' ∷ rest) ≡ some (name, rest)
unfolding scan_name escape_name
scan_name-escape_name [] [] h = refl
scan_name-escape_name [] (c ∷ rest) h = rw h refl
scan_name-escape_name (c ∷ name) rest h =
    let hypothesis = scan_name-escape_name name rest h in ground (arith, hypothesis)

-- Numbers. What may follow one in a printed formula: nothing, a comma or a parenthesis.
abbrev pub Stops : Text → Type 0
Stops [] = Unit
Stops (c ∷ s) = (c ≡ b',') ⊎ (c ≡ b')')

pub Stops-Ends :
    (test : ℕ → Bool) (rest : Text)
    → test b',' ≡ false
    → test b')' ≡ false
    → Stops rest
    → Ends test rest
Stops-Ends test [] comma close stops = tt
Stops-Ends test (c ∷ s) comma close (inl e) = rw e comma
Stops-Ends test (c ∷ s) comma close (inr e) = rw e close

scan_integer-Extends :
    (s rest : Text) → Ends is_digit rest → Extends (scan_integer s) rest (scan_integer (s ++ rest))
unfolding scan_integer
scan_integer-Extends [] rest ends = tt
scan_integer-Extends (c ∷ s) rest ends = elim (Bool-cases (c == b'0')) [
  | inl e ↦ rw e refl
  | inr e ↦ rw e (elim (Bool-cases (is_digit c)) [
    | inl q ↦ rw q (rw (span-append is_digit s rest ends) refl)
    | inr q ↦ rw q tt
  ])
]

-- A part that may be left out, in two texts.
abbrev Continues : Text × Text → Text → Text × Text → Type 0
Continues shorter more longer = longer ≡ (shorter.0, shorter.1 ++ more)

with_digits-Continues :
    (lead : Text) (found : Text × Text) (s more : Text)
    → Continues
        (with_digits lead found s)
        more
        (with_digits lead (found.0, found.1 ++ more) (s ++ more))
with_digits-Continues lead ([], after) s more = refl
with_digits-Continues lead (d ∷ digits, after) s more = refl

scan_fraction-Continues :
    (s rest : Text) → Stops rest → Continues (scan_fraction s) rest (scan_fraction (s ++ rest))
unfolding scan_fraction
scan_fraction-Continues [] [] stops = refl
scan_fraction-Continues [] (c ∷ rest) stops =
    rw (Stops-Ends (λ c. c == b'.') (c ∷ rest) refl refl stops) refl
scan_fraction-Continues (c ∷ s) rest stops = elim (Bool-cases (c == b'.')) [
  | inl e ↦ rw e (
      rw (span-append is_digit s rest (Stops-Ends is_digit rest refl refl stops))
        (with_digits-Continues (c ∷ []) (span is_digit s) (c ∷ s) rest))
  | inr e ↦ rw e refl
]

scan_sign-Continues :
    (s rest : Text) → Stops rest → Continues (scan_sign s) rest (scan_sign (s ++ rest))
scan_sign-Continues [] [] stops = refl
scan_sign-Continues [] (c ∷ rest) stops =
    rw (Stops-Ends (λ c. c == b'+' || c == b'-') (c ∷ rest) refl refl stops) refl
scan_sign-Continues (c ∷ s) rest stops = elim (Bool-cases (c == b'+' || c == b'-')) [
  | inl e ↦ rw e refl
  | inr e ↦ rw e refl
]

scan_exponent-Continues :
    (s rest : Text) → Stops rest → Continues (scan_exponent s) rest (scan_exponent (s ++ rest))
unfolding scan_exponent
scan_exponent-Continues [] [] stops = refl
scan_exponent-Continues [] (c ∷ rest) stops =
    rw (Stops-Ends (λ c. c == b'e' || c == b'E') (c ∷ rest) refl refl stops) refl
scan_exponent-Continues (c ∷ s) rest stops = elim (Bool-cases (c == b'e' || c == b'E')) [
  | inl e ↦ rw e (
      rw (scan_sign-Continues s rest stops) (
        rw (span-append is_digit (scan_sign s).1 rest (Stops-Ends is_digit rest refl refl stops)) (
          with_digits-Continues (c ∷ (scan_sign s).0) (span is_digit (scan_sign s).1) (c ∷ s)
            rest)))
  | inr e ↦ rw e refl
]

scan_unsigned-Extends :
    (s rest : Text) → Stops rest → Extends (scan_unsigned s) rest (scan_unsigned (s ++ rest))
unfolding scan_number
scan_unsigned-Extends s rest stops = elim (Option-cases (scan_integer s)) [
  | inl e ↦ rw e tt
  | inr ((whole, after), e) ↦
      let longer =
        subst (λ o. Extends o rest (scan_integer (s ++ rest))) e
          (scan_integer-Extends s rest (Stops-Ends is_digit rest refl refl stops)) in
      rw e (
        rw longer (
          rw (scan_fraction-Continues after rest stops)
            (rw (scan_exponent-Continues (scan_fraction after).1 rest stops) refl)))
]

pub scan_number-Extends :
    (s rest : Text) → Stops rest → Extends (scan_number s) rest (scan_number (s ++ rest))
unfolding scan_number
scan_number-Extends [] rest stops = tt
scan_number-Extends (c ∷ s) rest stops = elim (Bool-cases (c == b'-')) [
  | inl e ↦ rw e (scanned-Extends c (scan_unsigned s) rest _ (scan_unsigned-Extends s rest stops))
  | inr e ↦ rw e (scan_unsigned-Extends (c ∷ s) rest stops)
]

-- A number starts with its sign or a digit.
pub scan_number-starts :
    (c : ℕ) (s word after : Text)
    → scan_number (c ∷ s) ≡ some (word, after)
    → (c == b'-' || is_digit c) ≡ true
unfolding scan_number scan_integer
scan_number-starts c s word after h = ground arith
