-- ===== src/Language/Words.antt =====
-- The words of formula-language.ts and what its helpers make of them
-- (packages/domain/src/formula-language.ts).
use byok_grid.Common.{
  ℕ, ◌-◌, leb, Text, codes, text_eq, Bool, true, false, ◌||◌, ◌&&◌, ◌==◌, List, [], ◌∷◌, Result, ok,
  err, if◌then◌else◌,
}
use byok_grid.Formula.Syntax.{
  Function, add, coalesce, concat, divide, equals, choose, lower, multiply, subtract, trim, upper,
}
use byok_grid.Language.Errors.{LanguageError, SourceColumn, ambiguous_column}
use byok_grid.Language.Lexer.{is_digit}

-- `toUpperCase` on a character of an identifier
abbrev pub upper_letter : ℕ → ℕ
upper_letter c = if leb b'a' c && leb c b'z' then c - 32 else c

unfoldable pub upper_word : Text → Text
upper_word [] = []
upper_word (c ∷ s) = upper_letter c ∷ upper_word s

-- What an identifier stands for.
pub data Word : Type 0 where
  truth : Bool → Word
  nothing : Word
  timestamp_literal json_literal unknown : Word
  function : Function → Word

-- The first name of the table that is the identifier.
unfoldable pub look_up : List (Text × Word) → Text → Word
unfolding text_eq
look_up [] word = unknown
look_up ((name, meaning) ∷ others) word =
    let rest = look_up others word in if text_eq name word then meaning else rest

abbrev pub words : List (Text × Word)
words =
    (codes "TRUE", truth true)
    ∷ (codes "FALSE", truth false)
    ∷ (codes "EMPTY", nothing)
    ∷ (codes "NULL", nothing)
    ∷ (codes "TIMESTAMP", timestamp_literal)
    ∷ (codes "JSON", json_literal)
    ∷ (codes "ADD", function add)
    ∷ (codes "COALESCE", function coalesce)
    ∷ (codes "CONCAT", function concat)
    ∷ (codes "DIVIDE", function divide)
    ∷ (codes "EQUALS", function equals)
    ∷ (codes "IF", function choose)
    ∷ (codes "LOWER", function lower)
    ∷ (codes "MULTIPLY", function multiply)
    ∷ (codes "SUBTRACT", function subtract)
    ∷ (codes "TRIM", function trim)
    ∷ (codes "UPPER", function upper)
    ∷ []

-- The only column of a list of matches.
abbrev pub only : LanguageError → List SourceColumn → Result LanguageError SourceColumn
only missing [] = err missing
only missing (c ∷ []) = ok c
only missing (c ∷ d ∷ _) = err ambiguous_column

-- `/(?:[zZ]|[+-]\d{2}:\d{2})$/u`
unfoldable pub has_zone : Text → Bool
has_zone [] = false
has_zone (c ∷ s) = let rest = has_zone s in is_zone (c ∷ s) || rest
  where
    is_zone : Text → Bool
    is_zone (z ∷ []) = z == b'z' || z == b'Z'
    is_zone (sign ∷ a ∷ b ∷ colon ∷ d ∷ e ∷ []) =
        (sign == b'+' || sign == b'-')
        && (is_digit a && is_digit b)
        && colon == b':'
        && (is_digit d && is_digit e)
    is_zone _ = false
