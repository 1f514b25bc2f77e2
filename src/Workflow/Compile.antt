-- ===== src/Workflow/Compile.antt =====
-- `compileWorkflowGraph` (packages/domain/src/workflow-compiler.ts).
use Prim.Native.Nat.{Ordering, lt, eq, gt}
use byok_grid.Common.{
  ℕ, Bool, true, false, Option, none, some, List, [], ◌∷◌, ◌++◌, ◌==◌, keep, length, if◌then◌else◌,
  Text, Result, ok, err, ◌>>=◌, ◌>>◌, ◌&&◌, require, leb, ltb,
}
use byok_grid.Toposort.Loop.{ℤ, pos, is_zero, put, drain}
use byok_grid.Workflow.Graph.{Node, Edge, Graph, node_ids, node_by_id}
use byok_grid.Workflow.Plan.{Route, CompiledStep, CompiledPlan}
use byok_grid.Workflow.Validate.{Issue, member, validate_structure}
use byok_grid.Workflow.Publish.{PublishIssue, validate_publishable}

-- The two arrays' bounds, and the issues of the two refinements.
-- `missing_node` is the `TypeError` of a step without a node; `out_of_fuel` has no counterpart.
pub data CompileError : Type 0 where
  too_large : CompileError
  invalid_graph : List Issue → List PublishIssue → CompileError
  not_ordered : CompileError
  missing_node : CompileError
  out_of_fuel : CompileError

-- `a || b` of two results of a comparison.
abbrev pub or_else : Ordering → Ordering → Ordering
or_else eq b = b
or_else lt b = lt
or_else gt b = gt

abbrev pub is_after : Ordering → Bool
is_after gt = true
is_after _ = false

-- `[...new Set(ids)]`, up to its order: whatever takes it sorts or counts it.
unfoldable pub set_of : List ℕ → List ℕ
set_of [] = []
set_of (x ∷ xs) = let rest = set_of xs in if member x rest then rest else x ∷ rest

-- `insertSorted`
unfoldable pub insert_sorted : List ℕ → ℕ → List ℕ
insert_sorted [] value = value ∷ []
insert_sorted (c ∷ cs) value =
    let rest = insert_sorted cs value in if ltb value c then value ∷ c ∷ cs else c ∷ rest

-- `ids.sort()`
unfoldable pub sort_ids : List ℕ → List ℕ
unfolding insert_sorted
sort_ids [] = []
sort_ids (x ∷ xs) = insert_sorted (sort_ids xs) x

abbrev pub route_of : Edge → Route
route_of e = record {
  edge_id = e.id;
  source_handle = e.source_handle;
  source_step_id = e.source_node_id;
  target_handle = e.target_handle;
  target_step_id = e.target_node_id;
}

-- `groupRoutes`: the loop, on a map that is a function.
unfoldable pub group_routes : (Route → ℕ) → List Route → (ℕ → List Route) → ℕ → List Route
group_routes field [] grouped = grouped
group_routes field (r ∷ rs) grouped =
    group_routes field rs (put grouped (field r) (grouped (field r) ++ r ∷ []))

abbrev pub no_routes : ℕ → List Route
no_routes _ = []

-- `localeCompare`, of two ids and of two texts, is a parameter.
module _ (locale_ids : ℕ → ℕ → Ordering) (locale_texts : Text → Text → Ordering) where
  unfoldable pub compare_routes : Route → Route → Ordering
  compare_routes l r = or_else (locale_ids l.source_step_id r.source_step_id) (
      or_else (locale_texts l.source_handle r.source_handle) (
        or_else (locale_ids l.target_step_id r.target_step_id) (
          or_else (locale_texts l.target_handle r.target_handle) (locale_ids l.edge_id r.edge_id))))

  unfoldable pub insert_route : Route → List Route → List Route
  unfolding compare_routes
  insert_route r [] = r ∷ []
  insert_route r (q ∷ qs) =
      let rest = insert_route r qs in if is_after (compare_routes r q) then q ∷ rest else r ∷ q ∷ qs

  unfoldable pub compile_routes : List Edge → List Route
  unfolding insert_route
  compile_routes [] = []
  compile_routes (e ∷ es) = insert_route (route_of e) (compile_routes es)

abbrev pub source_ids : List Route → List ℕ
source_ids [] = []
source_ids (r ∷ rs) = r.source_step_id ∷ source_ids rs

abbrev pub target_ids : List Route → List ℕ
target_ids [] = []
target_ids (r ∷ rs) = r.target_step_id ∷ target_ids rs

abbrev pub required_order : ℕ → Option (List ℕ) → Result CompileError (List ℕ)
required_order size none = err out_of_fuel
required_order size (some order) = if length order == size then ok order else err not_ordered

-- The targets of a parsed graph are nodes, so each has a count.
abbrev pub remaining : (ℕ → List Route) → ℕ → ℤ
remaining inbound id = pos (length (set_of (source_ids (inbound id))))

abbrev pub released : (ℕ → List Route) → ℕ → List ℕ
released outbound id = sort_ids (set_of (target_ids (outbound id)))

-- `deterministicTopologicalOrder`, with a round of fuel for each id.
unfoldable pub topological_order :
    List ℕ → (ℕ → List Route) → (ℕ → List Route) → Result CompileError (List ℕ)
unfolding set_of sort_ids insert_sorted drain
topological_order ids inbound outbound =
    let ready = sort_ids (keep (λ id. is_zero (remaining inbound id)) ids) in
    required_order (length ids) (
      drain insert_sorted (λ rest. rest) (released outbound) (length ids) ready (remaining inbound))

abbrev pub maximum_workflow_nodes : ℕ
maximum_workflow_nodes = 100

abbrev pub maximum_workflow_edges : ℕ
maximum_workflow_edges = 200

abbrev pub without_issues {ℓ} :
    {A : Type ℓ} → A → List Issue → List PublishIssue → Result CompileError A
without_issues g [] [] = ok g
without_issues g (issue ∷ issues) others = err (invalid_graph (issue ∷ issues) others)
without_issues g [] (issue ∷ issues) = err (invalid_graph [] (issue ∷ issues))

module _ {C : Type 0} where
  abbrev pub step_of : ℕ → List Route → List Route → Node C → CompiledStep C
  step_of id inbound outbound node = record {
    configuration = node.configuration;
    dependency_step_ids = sort_ids (set_of (source_ids inbound));
    inbound_routes = inbound;
    kind = node.kind;
    name = node.name;
    outbound_routes = outbound;
    step_id = id;
  }

  abbrev pub compile_step :
      ℕ → List Route → List Route → Option (Node C) → Result CompileError (CompiledStep C)
  compile_step id inbound outbound none = err missing_node
  compile_step id inbound outbound (some node) = ok (step_of id inbound outbound node)

  unfoldable pub compile_steps :
      List (Node C)
      → (ℕ → List Route)
      → (ℕ → List Route)
      → List ℕ
      → Result CompileError (List (CompiledStep C))
  unfolding node_by_id
  compile_steps nodes inbound outbound [] = ok []
  compile_steps nodes inbound outbound (id ∷ ids) = do
    step ← compile_step id (inbound id) (outbound id) (node_by_id nodes id)
    steps ← compile_steps nodes inbound outbound ids
    ok (step ∷ steps)

  abbrev pub step_ids : List (CompiledStep C) → List ℕ
  step_ids [] = []
  step_ids (s ∷ ss) = s.step_id ∷ step_ids ss

  abbrev pub no_inbound : CompiledStep C → Bool
  no_inbound s = length s.inbound_routes == 0

  abbrev pub no_outbound : CompiledStep C → Bool
  no_outbound s = length s.outbound_routes == 0

  abbrev pub plan_of : List (CompiledStep C) → CompiledPlan C
  plan_of steps = record {
    entry_step_ids = step_ids (keep no_inbound steps);
    steps = steps;
    terminal_step_ids = step_ids (keep no_outbound steps);
  }

  -- `workflowGraphSchema.parse`, of a graph whose nodes and edges have the shapes that the schema
  -- gives them.
  unfoldable pub parse_graph : Graph C → Result CompileError (Graph C)
  unfolding validate_structure validate_publishable
  parse_graph g =
      require
        (leb (length g.edges) maximum_workflow_edges && leb (length g.nodes) maximum_workflow_nodes)
        too_large
      >> without_issues g (validate_structure g) (validate_publishable g)

  -- The plan of a graph that has been parsed.
  unfoldable pub compile_plan :
      (ℕ → ℕ → Ordering) → (Text → Text → Ordering) → Graph C → Result CompileError (CompiledPlan C)
  unfolding set_of
  compile_plan locale_ids locale_texts g = do
    let routes = compile_routes locale_ids locale_texts g.edges
    let inbound = group_routes (λ r. r.target_step_id) routes no_routes
    let outbound = group_routes (λ r. r.source_step_id) routes no_routes
    order ← topological_order (set_of (node_ids g.nodes)) inbound outbound
    steps ← compile_steps g.nodes inbound outbound order
    ok (plan_of steps)

  unfoldable pub compile_graph :
      (ℕ → ℕ → Ordering) → (Text → Text → Ordering) → Graph C → Result CompileError (CompiledPlan C)
  unfolding parse_graph compile_plan
  compile_graph locale_ids locale_texts g = parse_graph g >>= compile_plan locale_ids locale_texts
