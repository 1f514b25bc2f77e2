-- ===== src/Language/RoundTrip.antt =====
-- Reading back what formula-language.ts prints: packages/domain/src/formula-language.ts.
use byok_grid.Common.{
  ℕ, zero, suc, ◌+◌, ◌≤◌, Text, false, ◌≡◌, ◌==◌, ltb, refl, ap, sym, subst, arith, Option, none,
  some, List, [], ◌∷◌, ◌++◌, length, is_space, ok, append_assoc, append-nil, ◌∙◌, inl, inr,
}
use byok_grid.Formula.Values.{Runtime}
use byok_grid.Formula.Syntax.{Arguments, column, literal, call, no_arguments, argument}
use byok_grid.Formula.Limits.{size, size_arguments, height, height_arguments}
use byok_grid.Language.Errors.{Formula, Reader, SourceColumn}
use byok_grid.Language.Parser.{
  arguments_loop, parse, parse_arguments, parse_entered, parse_expression, parse_source,
  skip_equals,
}
use byok_grid.Language.Printer.{
  column_reference, format_arguments, format_column, format_expression, format_literal,
  function_name, join_commas,
}
use byok_grid.Language.Scans.{Stops}
use byok_grid.Language.Printed.{
  Laws, Printable, PrintableArguments, Starts, literal-Starts, skip_space-Starts,
}
use byok_grid.Language.Literals.{dispatch-column_reference, dispatch-format_literal}
use byok_grid.Language.Calls.{
  column_reference-Starts, call_reads, first_argument-Starts, format_argument-eq-ok,
  format_call-eq-ok, join_commas-Starts, length-join_commas, loop_last, loop_next, named-Starts,
  skips,
}

fits_limit : (n : ℕ) → n ≤ 16384 → ltb 16384 n ≡ false
fits_limit n h = ground arith

module _ (js : Runtime) (reader : Reader js) (columns : List SourceColumn) (names : ℕ → Option Text)
    (laws : Laws js reader) where
  format_expression-Starts :
      (e : Formula js) (text : Text)
      → Printable js reader columns names e
      → format_expression js names e ≡ ok text
      → Starts text
  unfolding format_expression
  format_expression-Starts (column c) text h shown = column_starts (names c) text shown
    where
      column_starts :
          (name : Option Text) (text : Text) → format_column c name ≡ ok text → Starts text
      column_starts none text h = cc
      column_starts (some []) text h = cc
      column_starts (some (d ∷ name)) text h =
          let written : column_reference (d ∷ name) ≡ text = cc in
          subst Starts written (column_reference-Starts (d ∷ name))
  format_expression-Starts (literal v) text h shown =
      let written : format_literal js v ≡ text = cc in
      subst Starts written (literal-Starts js reader columns laws v h)
  format_expression-Starts (call f args) text h shown =
      let (texts, formatted, written) = format_call-eq-ok js names f args text shown in
      named-Starts f text texts written

  mutual
    unfolding format_expression parse_expression arguments_loop is_space

    parse_expression-format_expression :
        (e : Formula js) (levels count : ℕ) (text rest : Text)
        → Printable js reader columns names e
        → format_expression js names e ≡ ok text
        → height e ≤ levels
        → count + size e ≤ 128
        → Stops rest
        → parse_expression js reader columns levels (text ++ rest) count
          ≡ ok (e, rest, count + size e)
    parse_expression-format_expression (column c) zero count text rest printable shown low small
          stops =
        absurd (omega arith)
    parse_expression-format_expression (literal v) zero count text rest printable shown low small
          stops =
        absurd (omega arith)
    parse_expression-format_expression (call f args) zero count text rest printable shown low small
          stops =
        absurd (omega arith)
    parse_expression-format_expression (column c) (suc levels) count text rest printable shown low
          small stops =
        rw (skip_space-Starts text rest (format_expression-Starts (column c) text printable shown))
          (dispatch-column_reference js reader columns laws
            (parse_expression js reader columns levels) names c text rest count printable shown
            stops small)
    parse_expression-format_expression (literal v) (suc levels) count text rest printable shown low
          small stops =
        let written : format_literal js v ≡ text = cc in
        rw (skip_space-Starts text rest (format_expression-Starts (literal v) text printable shown))
          (rw (sym written) (
            dispatch-format_literal js reader columns laws
              (parse_expression js reader columns levels) v rest count printable stops small))
    parse_expression-format_expression (call f args) (suc levels) count text rest printable shown
          low small stops =
        let (texts, formatted, written) = format_call-eq-ok js names f args text shown in
        rw
          (skip_space-Starts text rest
            (format_expression-Starts (call f args) text printable shown))
          (rw (sym written) (
            rw (append_assoc (function_name f) (b'(' ∷ join_commas texts ++ b')' ∷ []) rest) (
              rw (append_assoc (join_commas texts) (b')' ∷ []) rest) (
                call_reads js reader columns laws f args levels count texts rest
                  (parse_arguments-join_commas args levels count texts rest printable formatted
                    (omega arith) (omega arith))
                  (omega arith)))))

    parse_arguments-join_commas :
        (args : Arguments js.Number js.Json) (levels count : ℕ) (texts : List Text) (rest : Text)
        → PrintableArguments js reader columns names args
        → format_arguments js names args ≡ ok texts
        → height_arguments args ≤ levels
        → count + size_arguments args ≤ 128
        → parse_arguments js reader columns
            (parse_expression js reader columns levels)
            (b'(' ∷ join_commas texts ++ b')' ∷ rest)
            count
          ≡ ok (args, rest, count + size_arguments args)
    parse_arguments-join_commas no_arguments levels count [] rest printable shown low small =
        ap (λ n. ok (no_arguments, rest, n)) (omega arith)
    parse_arguments-join_commas no_arguments levels count (t ∷ ts) rest printable shown low small =
        cc
    parse_arguments-join_commas (argument e args) levels count [] rest printable shown low small =
        let (t, ts, first, others, all) = format_argument-eq-ok js names e args [] shown in cc
    parse_arguments-join_commas (argument e args) levels count (t ∷ ts) rest printable shown low
          small =
        let (t1, ts1, first, others, all) = format_argument-eq-ok js names e args (t ∷ ts) shown in
        let first : format_expression js names e ≡ ok t = cc in
        let others : format_arguments js names args ≡ ok ts = cc in
        let opened : Starts (join_commas (t ∷ ts) ++ b')' ∷ rest) =
          join_commas-Starts t ts rest (format_expression-Starts e t printable.0 first) in
        rw (skips (join_commas (t ∷ ts) ++ b')' ∷ rest) opened) (
          first_argument-Starts js reader columns (parse_expression js reader columns levels)
            (join_commas (t ∷ ts) ++ b')' ∷ rest) count opened
          ∙ arguments_loop-join_commas args e levels (length (join_commas (t ∷ ts) ++ b')' ∷ rest))
              count (count + size e) t ts rest
              (λ tail stops.
                parse_expression-format_expression e levels count t tail printable.0 first
                  (omega arith) (omega arith) stops)
              printable.1 others (omega arith) (omega arith)
              (omega (arith, length-join_commas (t ∷ ts) rest))
          ∙ ap (λ m. ok (argument e args, rest, m)) (omega arith))

    -- The loop, when its first argument is read.
    arguments_loop-join_commas :
        (args : Arguments js.Number js.Json) (e : Formula js) (levels fuel count n : ℕ) (t : Text)
        (ts : List Text) (rest : Text)
        → ((tail : Text)
            → Stops tail
            → parse_expression js reader columns levels (t ++ tail) count ≡ ok (e, tail, n))
        → PrintableArguments js reader columns names args
        → format_arguments js names args ≡ ok ts
        → height_arguments args ≤ levels
        → n + size_arguments args ≤ 128
        → length ts ≤ fuel
        → arguments_loop js reader columns
            (parse_expression js reader columns levels)
            (suc fuel)
            (join_commas (t ∷ ts) ++ b')' ∷ rest)
            count
          ≡ ok (argument e args, rest, n + size_arguments args)
    arguments_loop-join_commas no_arguments e levels fuel count n t [] rest reads printable shown
          low small enough =
        loop_last js reader columns e (parse_expression js reader columns levels) fuel count (n + 0)
          t rest (reads (b')' ∷ rest) (inr refl) ∙ ap (λ m. ok (e, b')' ∷ rest, m)) (omega arith))
    arguments_loop-join_commas no_arguments e levels fuel count n t (u ∷ us) rest reads printable
          shown low small enough =
        cc
    arguments_loop-join_commas (argument next args) e levels fuel count n t [] rest reads printable
          shown low small enough =
        let (t1, ts1, first, others, all) = format_argument-eq-ok js names next args [] shown in cc
    arguments_loop-join_commas (argument next args) e levels zero count n t (u ∷ us) rest reads
          printable shown low small enough =
        absurd (omega arith)
    arguments_loop-join_commas (argument next args) e levels (suc fuel) count n t (u ∷ us) rest
          reads printable shown low small enough =
        let (t1, ts1, first, others, all) =
          format_argument-eq-ok js names next args (u ∷ us) shown in
        let first : format_expression js names next ≡ ok u = cc in
        let others : format_arguments js names args ≡ ok us = cc in
        loop_next js reader columns e (argument next args)
          (parse_expression js reader columns levels) (suc fuel) count n
          (n + (size next + size_arguments args)) t u us rest
          (reads (b',' ∷ b' ' ∷ (join_commas (u ∷ us) ++ b')' ∷ rest)) (inl refl))
          (format_expression-Starts next u printable.0 first)
          (arguments_loop-join_commas args next levels fuel n (n + size next) u us rest
              (λ tail stops.
                parse_expression-format_expression next levels n u tail printable.0 first
                  (omega arith) (omega arith) stops)
              printable.1 others (omega arith) (omega arith) (omega arith)
            ∙ ap (λ m. ok (argument next args, rest, m)) (omega arith))

  skip_equals-Starts : (s : Text) → Starts s → skip_equals js reader columns s ≡ s
  skip_equals-Starts [] h = absurd h
  skip_equals-Starts (c ∷ s) h = let plain : (c == b'=') ≡ false = ground arith in rw plain refl

  parse_entered-reads :
      (s : Text) (e : Formula js) (n : ℕ)
      → Starts s
      → parse_expression js reader columns 12 s 0 ≡ ok (e, [], n)
      → parse_entered js reader columns s ≡ ok e
  unfolding parse_entered
  parse_entered-reads [] e n h reads = absurd h
  parse_entered-reads (c ∷ s) e n h reads = rw reads refl

  -- The text that formatFormulaExpression writes for an expression is parsed back to that
  -- expression, when the text has at most 16384 characters, the expression at most 12 levels and
  -- 128 nodes, each column's name belongs to one column, and the runtime reads back each number,
  -- timestamp and JSON value.
  pub parse_source-format_expression :
      (e : Formula js) (text : Text)
      → Printable js reader columns names e
      → format_expression js names e ≡ ok text
      → height e ≤ 12
      → size e ≤ 128
      → length text ≤ 16384
      → parse_source js reader columns text ≡ ok e
  unfolding parse_source parse
  parse_source-format_expression e text printable shown low small short =
      let starts : Starts text = format_expression-Starts e text printable shown in
      let reads =
        parse_expression-format_expression e 12 0 text [] printable shown low (omega arith) tt in
      let fits : ltb 16384 (length text) ≡ false = fits_limit (length text) short in
      rw fits (
        rw (skips text starts) (
          rw (skip_equals-Starts text starts) (
            parse_entered-reads text e (0 + size e) starts (
              subst (λ u. parse_expression js reader columns 12 u 0 ≡ ok (e, [], 0 + size e))
                (append-nil text) reads))))
