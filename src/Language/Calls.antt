-- ===== src/Language/Calls.antt =====
-- Calls in the text form of formulas: the parts of the parser on a printed call
-- (packages/domain/src/formula-language.ts).
use byok_grid.Common.{
  ℕ, suc, ◌+◌, ◌≤◌, Text, false, ◌≡◌, ◌==◌, refl, ap, subst, arith, Option, List, [], ◌∷◌, ◌++◌,
  length, length-append, is_space, ok, >>=-eq-ok, append_assoc, append-nil, ◌∙◌,
}
use byok_grid.Formula.Values.{Runtime}
use byok_grid.Formula.Syntax.{Arguments, call, no_arguments, argument, Function}
use byok_grid.Formula.Limits.{size_arguments}
use byok_grid.Language.Errors.{Formula, Parse, Reader, SourceColumn}
use byok_grid.Language.Lexer.{is_word, skip_space, span}
use byok_grid.Language.Words.{function, look_up, upper_word, words}
use byok_grid.Language.Parser.{
  arguments_loop, dispatch, first_argument, parse_arguments, parse_expression,
  parse_identifier_expression, parse_word,
}
use byok_grid.Language.Printer.{
  call_text, column_reference, format_arguments, format_expression, function_name, join_commas,
  join_more,
}
use byok_grid.Language.Printed.{Laws, Starts, count_node-adds, skip_space-Starts, starts}
use byok_grid.Language.Literals.{parse_identifier_expression-word}

-- A function's name is an identifier, and it is read as the function.
function_name-look_up :
    (f : Function)
    → Starts (function_name f)
      × (span is_word (function_name f) ≡ (function_name f, []))
      × (look_up words (upper_word (function_name f)) ≡ function f)
unfolding span look_up upper_word
function_name-look_up Function.add = (refl, refl, refl)
function_name-look_up Function.coalesce = (refl, refl, refl)
function_name-look_up Function.concat = (refl, refl, refl)
function_name-look_up Function.divide = (refl, refl, refl)
function_name-look_up Function.equals = (refl, refl, refl)
function_name-look_up Function.choose = (refl, refl, refl)
function_name-look_up Function.lower = (refl, refl, refl)
function_name-look_up Function.multiply = (refl, refl, refl)
function_name-look_up Function.subtract = (refl, refl, refl)
function_name-look_up Function.trim = (refl, refl, refl)
function_name-look_up Function.upper = (refl, refl, refl)

Starts-append : (t more : Text) → Starts t → Starts (t ++ more)
Starts-append [] more h = absurd h
Starts-append (c ∷ t) more h = h

pub named-Starts :
    (f : Function) (text : Text) (texts : List Text) → call_text f texts ≡ text → Starts text
named-Starts f text texts written = subst Starts written (
    Starts-append (function_name f) (b'(' ∷ join_commas texts ++ b')' ∷ [])
      (function_name-look_up f).0)

pub skips : (s : Text) → Starts s → skip_space s ≡ s
skips s h = subst (λ u. skip_space u ≡ u) (append-nil s) (skip_space-Starts s [] h)

pub join_commas-Starts :
    (t : Text) (ts : List Text) (rest : Text)
    → Starts t
    → Starts (join_commas (t ∷ ts) ++ b')' ∷ rest)
join_commas-Starts t ts rest h =
    Starts-append (t ++ join_more ts) (b')' ∷ rest) (Starts-append t (join_more ts) h)

pub column_reference-Starts : (name : Text) → Starts (column_reference name)
unfolding column_reference
column_reference-Starts name = refl

length-join_more : (ts : List Text) → length ts ≤ length (join_more ts)
unfolding join_more
length-join_more [] = omega arith
length-join_more (t ∷ ts) = omega (arith, length-append t (join_more ts), length-join_more ts)

-- The loop on a call's arguments has fuel for all of them.
pub length-join_commas :
    (texts : List Text) (rest : Text) → length texts ≤ length (join_commas texts ++ b')' ∷ rest)
length-join_commas [] rest = omega arith
length-join_commas (t ∷ ts) rest = omega (
  arith,
  length-append (t ++ join_more ts) (b')' ∷ rest),
  length-append t (join_more ts),
  length-join_more ts,
)

module _ (js : Runtime) (reader : Reader js) (columns : List SourceColumn) where
  dispatch-function_name :
      (read : Parse (Formula js)) (f : Function) (more : Text) (count : ℕ)
      → dispatch js reader columns read (function_name f ++ more) count
        ≡ parse_identifier_expression js reader columns read (function_name f ++ more) count
  unfolding dispatch
  dispatch-function_name read Function.add more count = refl
  dispatch-function_name read Function.coalesce more count = refl
  dispatch-function_name read Function.concat more count = refl
  dispatch-function_name read Function.divide more count = refl
  dispatch-function_name read Function.equals more count = refl
  dispatch-function_name read Function.choose more count = refl
  dispatch-function_name read Function.lower more count = refl
  dispatch-function_name read Function.multiply more count = refl
  dispatch-function_name read Function.subtract more count = refl
  dispatch-function_name read Function.trim more count = refl
  dispatch-function_name read Function.upper more count = refl

  pub first_argument-Starts :
      (read : Parse (Formula js)) (s : Text) (count : ℕ)
      → Starts s
      → first_argument js reader columns read s count
        ≡ arguments_loop js reader columns read (suc (length s)) s count
  unfolding first_argument
  first_argument-Starts read [] count h = absurd h
  first_argument-Starts read (c ∷ s) count h =
      let closes : (c == b')') ≡ false = ground arith in
      rw closes (
        ap (λ fuel. arguments_loop js reader columns read fuel (c ∷ s) count)
          {y = suc (length (c ∷ s))} (omega arith))

  -- The loop on the last argument, and on one with more after it.
  pub loop_last :
      (e : Formula js) (read : Parse (Formula js)) (fuel count n : ℕ) (t rest : Text)
      → read (t ++ b')' ∷ rest) count ≡ ok (e, b')' ∷ rest, n)
      → arguments_loop js reader columns read (suc fuel) (join_commas (t ∷ []) ++ b')' ∷ rest) count
        ≡ ok (argument e no_arguments, rest, n)
  unfolding arguments_loop join_more is_space
  loop_last e read fuel count n t rest reads = rw (append-nil t) (rw reads refl)

  pub loop_next :
      (e : Formula js) (args : Arguments js.Number js.Json) (read : Parse (Formula js))
      (fuel count n m : ℕ) (t next : Text) (ts : List Text) (rest : Text)
      → read (t ++ b',' ∷ b' ' ∷ (join_commas (next ∷ ts) ++ b')' ∷ rest)) count
        ≡ ok (e, b',' ∷ b' ' ∷ (join_commas (next ∷ ts) ++ b')' ∷ rest), n)
      → Starts next
      → arguments_loop js reader columns read fuel (join_commas (next ∷ ts) ++ b')' ∷ rest) n
        ≡ ok (args, rest, m)
      → arguments_loop js reader columns read
          (suc fuel)
          (join_commas (t ∷ next ∷ ts) ++ b')' ∷ rest)
          count
        ≡ ok (argument e args, rest, m)
  unfolding arguments_loop join_more is_space
  loop_next e args read fuel count n m t next ts rest reads starts others =
      rw (append_assoc t (b',' ∷ b' ' ∷ (next ++ join_more ts)) (b')' ∷ rest)) (
        rw reads (
          rw
            (skip_space-Starts (join_commas (next ∷ ts)) (b')' ∷ rest)
              (Starts-append next (join_more ts) starts))
            (rw others refl)))

  module _ (laws : Laws js reader) where
    -- A call is read from its name when its arguments are read after it.
    pub call_reads :
        (f : Function) (args : Arguments js.Number js.Json) (levels count : ℕ) (texts : List Text)
        (rest : Text)
        → parse_arguments js reader columns
            (parse_expression js reader columns levels)
            (b'(' ∷ join_commas texts ++ b')' ∷ rest)
            count
          ≡ ok (args, rest, count + size_arguments args)
        → count + (1 + size_arguments args) ≤ 128
        → dispatch js reader columns
            (parse_expression js reader columns levels)
            (function_name f ++ (b'(' ∷ join_commas texts ++ b')' ∷ rest))
            count
          ≡ ok (call f args, rest, count + (1 + size_arguments args))
    unfolding parse_word
    call_reads f args levels count texts rest reads small =
        let more : Text = b'(' ∷ join_commas texts ++ b')' ∷ rest in
        let read : Parse (Formula js) = parse_expression js reader columns levels in
        dispatch-function_name read f more count
        ∙ parse_identifier_expression-word js reader columns laws read (function_name f) more count
            (function_name-look_up f).1 refl
        ∙ rw (function_name-look_up f).2 (
            rw reads (
              rw (count_node-adds (count + size_arguments args) (omega arith))
                (ap (λ n. ok (call f args, rest, n)) (omega arith))))

module _ (js : Runtime) (names : ℕ → Option Text) where
  -- The parts of a printed call.
  pub format_call-eq-ok :
      (f : Function) (args : Arguments js.Number js.Json) (text : Text)
      → format_expression js names (call f args) ≡ ok text
      → (texts : List Text) × (format_arguments js names args ≡ ok texts)
        × (call_text f texts ≡ text)
  unfolding format_expression
  format_call-eq-ok f args text h =
      let (texts, formatted, shown) = >>=-eq-ok (format_arguments js names args) _ h in
      (texts, formatted, cc)

  pub format_argument-eq-ok :
      (e : Formula js) (rest : Arguments js.Number js.Json) (texts : List Text)
      → format_arguments js names (argument e rest) ≡ ok texts
      → (t : Text) × (ts : List Text) × (format_expression js names e ≡ ok t)
        × (format_arguments js names rest ≡ ok ts)
        × (t ∷ ts ≡ texts)
  unfolding format_expression
  format_argument-eq-ok e rest texts h =
      let (t, first, more) = >>=-eq-ok (format_expression js names e) _ h in
      let (ts, others, all) = >>=-eq-ok (format_arguments js names rest) _ more in
      (t, ts, first, others, cc)
