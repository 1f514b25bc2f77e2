-- ===== src/Language/Lexer.antt =====
-- The words of a formula's source (packages/domain/src/formula-language.ts): each function takes
-- the text that is left.
use byok_grid.Common.{
  ℕ, Text, Bool, true, false, ◌&&◌, ◌||◌, ◌==◌, leb, Option, none, some, [], ◌∷◌, ◌++◌, is_space,
  Result, ok, err, if◌then◌else◌,
}
use byok_grid.Language.Errors.{LanguageError, expected}

-- `[0-9]`, `[A-Za-z_]` and `[A-Za-z0-9_]`
abbrev pub is_digit : ℕ → Bool
is_digit c = leb b'0' c && leb c b'9'

abbrev pub is_letter : ℕ → Bool
is_letter c = (leb b'A' c && leb c b'Z') || ((leb b'a' c && leb c b'z') || c == b'_')

abbrev pub is_word : ℕ → Bool
is_word c = is_letter c || is_digit c

-- The longest start whose characters pass the test, and the rest.
unfoldable pub span : (ℕ → Bool) → Text → Text × Text
span test [] = ([], [])
span test (c ∷ s) =
    let (word, rest) = span test s in if test c then (c ∷ word, rest) else ([], c ∷ s)

unfoldable pub skip_space : Text → Text
unfolding is_space
skip_space [] = []
skip_space (c ∷ s) = let rest = skip_space s in if is_space c then rest else c ∷ s

unfoldable pub expect : ℕ → Text → Result LanguageError Text
expect c [] = err (expected c)
expect c (d ∷ s) = if d == c then ok s else err (expected c)

-- A character put in front of what was scanned.
abbrev pub scanned : ℕ → Option (Text × Text) → Option (Text × Text)
scanned c none = none
scanned c (some (word, rest)) = some (c ∷ word, rest)

-- The name of a column reference after its `[`; `closing` says that a `]` has just been read.
unfoldable pub scan_name : (closing : Bool) → Text → Option (Text × Text)
scan_name false [] = none
scan_name false (c ∷ s) =
    let closed = scan_name true s in
    let inner = scan_name false s in if c == b']' then closed else scanned c inner
scan_name true [] = some ([], [])
scan_name true (c ∷ s) =
    let inner = scan_name false s in if c == b']' then scanned c inner else some ([], c ∷ s)

-- A string after its opening quote, with its closing quote; `escaped` says that a backslash has
-- just been read.
unfoldable pub scan_string : (escaped : Bool) → Text → Option (Text × Text)
scan_string escaped [] = none
scan_string true (c ∷ s) = scanned c (scan_string false s)
scan_string false (c ∷ s) =
    let escape = scan_string true s in
    let plain = scan_string false s in
    if c == b'"' then some (c ∷ [], s) else scanned c (if c == b'\\' then escape else plain)

-- `0|[1-9]\d*`
unfoldable pub scan_integer : Text → Option (Text × Text)
unfolding span
scan_integer [] = none
scan_integer (c ∷ s) =
    let (digits, rest) = span is_digit s in
    if c == b'0' then some (c ∷ [], s) else if is_digit c then some (c ∷ digits, rest) else none

-- The characters of a part that is left out when it has no digit.
abbrev pub with_digits : Text → Text × Text → Text → Text × Text
with_digits lead ([], after) s = ([], s)
with_digits lead (d ∷ digits, after) s = (lead ++ d ∷ digits, after)

-- `(?:\.\d+)?`
unfoldable pub scan_fraction : Text → Text × Text
unfolding span
scan_fraction [] = ([], [])
scan_fraction (c ∷ s) =
    if c == b'.' then with_digits (c ∷ []) (span is_digit s) (c ∷ s) else ([], c ∷ s)

-- `[+-]?`
abbrev pub scan_sign : Text → Text × Text
scan_sign [] = ([], [])
scan_sign (c ∷ s) = if c == b'+' || c == b'-' then (c ∷ [], s) else ([], c ∷ s)

-- `(?:[eE][+-]?\d+)?`
unfoldable pub scan_exponent : Text → Text × Text
unfolding span
scan_exponent [] = ([], [])
scan_exponent (c ∷ s) =
    let (sign, digits) = scan_sign s in
    if c == b'e' || c == b'E'
    then with_digits (c ∷ sign) (span is_digit digits) (c ∷ s)
    else ([], c ∷ s)

abbrev pub scan_unsigned : Text → Option (Text × Text)
scan_unsigned s = after_integer (scan_integer s)
  where
    after_integer : Option (Text × Text) → Option (Text × Text)
    after_integer none = none
    after_integer (some (whole, s)) =
        let (fraction, s) = scan_fraction s in
        let (exponent, s) = scan_exponent s in some (whole ++ fraction ++ exponent, s)

-- `/^-?(?:0|[1-9]\d*)(?:\.\d+)?(?:[eE][+-]?\d+)?/u`: the match and what follows it.
unfoldable pub scan_number : Text → Option (Text × Text)
unfolding scan_integer scan_fraction scan_exponent
scan_number [] = none
scan_number (c ∷ s) = if c == b'-' then scanned c (scan_unsigned s) else scan_unsigned (c ∷ s)
