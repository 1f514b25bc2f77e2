-- ===== src/Lib.antt =====
-- Verification of the core logic of BYOK Grid, a self-hosted data grid whose cells are filled by
-- formulas, connectors and workflows.
--
-- Parts and how they interact:
--   * Formula (packages/domain/src/formulas.ts, cell-values.ts). Formula.Values has the cell values
--     and the runtime parameter, Formula.Syntax the expressions and the walk over them
--     (walkFormula, collectFormulaColumnIds), Formula.Infer the definition check
--     (validateFormulaDefinition, inferType, assertArity, assertTypes), Formula.Evaluate the
--     evaluation (evaluateFormula, evaluateCall). Sound, Preserved, Finite, Frame and Limits are proofs.
--   * Language (packages/domain/src/formula-language.ts), the text form of formulas. Language.Errors
--     has its errors and its parameters, Language.Lexer the scans of a text (parseString,
--     parseColumn, parseNumber, parseIdentifier, skipWhitespace), Language.Words the identifiers,
--     Language.Parser FormulaParser and parseFormulaSource, Language.Printer
--     formatFormulaExpression. Scans, Printed, Literals, Calls, RoundTrip,
--     Shrinks, Consumes and Terminates are proofs.
--   * Recompute (packages/db/src/sqlite/formulas.ts), formula columns. Recompute.Create has
--     createSqliteFormulaColumn on the state of a table, with the permissions of
--     packages/domain/src/workspace-policy.ts in Recompute.Access and the schema of the
--     configuration (formulaExpressionSchema) in Recompute.Schema; the rest is
--     recomputeDependentSqliteFormulasForRow. Recompute.Storage has how a cell keeps its value
--     (packages/db/src/sqlite/cell-values.ts: serializeSqliteCellValue, deserializeSqliteCellValue),
--     Recompute.Graph the columns that a change reaches and their order, by the loop of Toposort,
--     Recompute.Row the values and cells of the row while the formulas are evaluated, by
--     Formula.Evaluate. Reached, Ordered, Cells, Evaluated, Consistent, Returns,
--     Refuses, Extended and Created are proofs.
--   * Sources (packages/domain/src/source-policy.ts). Sources.Schedule has scheduleIntervalMinutes,
--     nextScheduledSourceRun and decideSourcePageRequest; Aligned is proofs.
--   * Toposort: the loop that takes ready ids and lowers the counts of their targets (Toposort.Loop),
--     shared by the cycle check and the compiler of workflow graphs and by the recomputation, and proofs about it (Counts,
--     Edges, Invariant, Order).
--   * Workflow (packages/domain/src/workflow-policy.ts, workflow-compiler.ts). Workflow.Graph has the
--     nodes, edges and ports, Workflow.Validate the structure check
--     (validateWorkflowGraphStructure), Workflow.Publish the check of graphs to be published
--     (validatePublishableWorkflowGraph), Workflow.Plan the compiled plan, Workflow.Compile the
--     compiler with its parse (compileWorkflowGraph, deterministicTopologicalOrder, compileRoutes).
--     Proofs: Workflow.WellFormed, Publishable, Visited and Published on the checks,
--     Workflow.Compiled on the compiler.
--   * Runs (packages/db/src/sqlite/workflow-runs.ts, schema.ts). Runs.Ledger has the two tables and
--     the shared queries, Runs.Create createSqliteWorkflowRun, Runs.Claim claimSqliteWorkflowSteps,
--     Runs.Execution getClaimedSqliteWorkflowStepExecution, Runs.Skip collectSkippedDescendants,
--     Runs.Settle completeSqliteWorkflowStep, retrySqliteWorkflowStep and failSqliteWorkflowStep.
--     Created, Executed, Outcomes, Lifecycle, Trace, Fencing, Ends, Leases, Closure and Skipped are
--     proofs. A run refers to a compiled plan by its workflow, version and workspace; its creation
--     leaves an event in the outbox.
--   * Outbox (packages/db/src/sqlite/outbox.ts). Outbox.Events has the table and
--     claimSqliteOutboxEvents, completeSqliteOutboxEvent and retrySqliteOutboxEvent; Outcomes and
--     Trace are proofs.
--   * Examples: tests on small inputs.
--
-- Ids (UUIDs in the program) and times (milliseconds) are natural numbers; a text is the list of
-- its character codes. A transaction is a function from the tables to a result: an error that is
-- thrown rolls back, so it leaves no new state. Numbers of the runtime (IEEE doubles), JSON values, dates,
-- the conversions between them and text are parameters, Formula.Values.Runtime,
-- Language.Errors.Reader and Runs.Settle.Json; so are localeCompare in the compiler, z.iso.datetime()
-- in the schema of a formula, and the ids that the database gives to new cells. A column of the
-- database gives back the number, text, truth value, date or JSON value that was written to it.
--
-- Fuel: the cycle check gets a round for each node and each edge, the order of the compiler a round
-- for each id, and collectSkippedDescendants a round for each initial id and each route of the
-- plan; the search of the recomputation gets one for each changed column and each dependency, and
-- that of the nodes that a trigger reaches one for each trigger and each edge. A
-- node, step or column is taken at most once, so that is enough. A formula's parser goes down one of
-- its 12 levels at a time, and reads a call's arguments with a round for each character that is left.
--
-- Not modelled: the web application, the workers,
-- the connectors, the Postgres backend, the other SQLite modules (the mutations that
-- row-mutations.ts records are a list), and the parsing of requests,
-- whose schemas appear as the types of the models (of a workflow graph's schema, the bounds on its
-- arrays and its two refinements are modelled).
pub mod Common
pub mod Formula
pub mod Language
pub mod Recompute
pub mod Sources
pub mod Toposort
pub mod Workflow
pub mod Runs
pub mod Examples
pub mod Outbox
