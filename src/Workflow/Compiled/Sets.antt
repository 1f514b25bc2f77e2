-- ===== src/Workflow/Compiled/Sets.antt =====
-- Sorting, sets and groups of routes, by what they hold.
use byok_grid.Common.{
  ℕ, ◌+◌, ◌≡◌, ◌↔◌, refl, ap, ◌∙◌, sym, Bool, true, false, ◌&&◌, ◌||◌, List, [], ◌∷◌, ◌++◌, ◌==◌,
  keep, length, if◌then◌else◌, arith, Bool-cases, inl, inr, append_assoc, append-nil, ==_iff, Text,
}
use Prim.Native.Nat.{Ordering}
use byok_grid.Toposort.Loop.{put}
use byok_grid.Toposort.Counts.{one_if, count}
use byok_grid.Toposort.Edges.{Edges, HasEdge, targets, waiting}
use byok_grid.Workflow.Graph.{Edge}
use byok_grid.Workflow.Plan.{Route}
use byok_grid.Workflow.Validate.{member}
use byok_grid.Workflow.WellFormed.Scans.{ends}
use byok_grid.Workflow.Compile.{
  set_of, insert_sorted, sort_ids, route_of, group_routes, no_routes, insert_route, compile_routes,
  source_ids, target_ids,
}

pub count-insert_sorted :
    (ready : List ℕ) (u t : ℕ) → count t (insert_sorted ready u) ≡ one_if (u == t) + count t ready
unfolding insert_sorted
count-insert_sorted [] u t = omega arith
count-insert_sorted (c ∷ cs) u t = ground (arith, count-insert_sorted cs u t)

pub count-sort_ids : (xs : List ℕ) (t : ℕ) → count t (sort_ids xs) ≡ count t xs
unfolding sort_ids
count-sort_ids [] t = refl
count-sort_ids (x ∷ xs) t =
    omega (arith, count-insert_sorted (sort_ids xs) x t, count-sort_ids xs t)

pub member-set_of : (x : ℕ) (xs : List ℕ) → member x (set_of xs) ≡ member x xs
unfolding set_of
member-set_of x [] = refl
member-set_of x (y ∷ ys) = ground (arith, member-set_of x ys, member-set_of y ys)

pub count_absent : (x : ℕ) (xs : List ℕ) → count x xs ≡ 0 ↔ (member x xs ≡ false)
count_absent x [] = ((λ _. refl), λ _. refl)
count_absent x (y ∷ ys) = ground (arith, count_absent x ys)

pub count-set_of : (t : ℕ) (xs : List ℕ) → count t (set_of xs) ≡ one_if (member t xs)
unfolding set_of
count-set_of t [] = refl
count-set_of t (y ∷ ys) = ground (arith, count-set_of t ys, member-set_of y ys)

abbrev pub has : ℕ → ℕ → Edges → Bool
has s t [] = false
has s t ((a, b) ∷ es) = (a == s && b == t) || has s t es

-- The edges, each once.
abbrev pub pairs : Edges → Edges
pairs [] = []
pairs ((a, b) ∷ es) = let rest = pairs es in if has a b rest then rest else (a, b) ∷ rest

pub HasEdge-has : (s t : ℕ) (es : Edges) → HasEdge s t es ↔ (has s t es ≡ true)
HasEdge-has s t [] = ((λ h. absurd h), λ h. cc)
HasEdge-has s t ((a, b) ∷ es) = ground (arith, HasEdge-has s t es)

pub has-pairs : (s t : ℕ) (es : Edges) → has s t (pairs es) ≡ has s t es
has-pairs s t [] = refl
has-pairs s t ((a, b) ∷ es) = ground (arith, has-pairs s t es, has-pairs a b es)

pub count-targets-pairs :
    (s t : ℕ) (es : Edges) → count t (targets s (pairs es)) ≡ one_if (has s t es)
count-targets-pairs s t [] = refl
count-targets-pairs s t ((a, b) ∷ es) = ground (arith, count-targets-pairs s t es, has-pairs a b es)

abbrev pub route_ends : List Route → Edges
route_ends [] = []
route_ends (r ∷ rs) = (r.source_step_id, r.target_step_id) ∷ route_ends rs

abbrev pub routes_into : ℕ → List Route → List Route
routes_into t rs = keep (λ r. r.target_step_id == t) rs

abbrev pub routes_from : ℕ → List Route → List Route
routes_from s rs = keep (λ r. r.source_step_id == s) rs

member-source_ids :
    (s t : ℕ) (rs : List Route) → member s (source_ids (routes_into t rs)) ≡ has s t (route_ends rs)
member-source_ids s t [] = refl
member-source_ids s t (r ∷ rs) = ground (arith, member-source_ids s t rs)

pub member-target_ids :
    (s t : ℕ) (rs : List Route) → member t (target_ids (routes_from s rs)) ≡ has s t (route_ends rs)
member-target_ids s t [] = refl
member-target_ids s t (r ∷ rs) = ground (arith, member-target_ids s t rs)

pub waiting-pairs :
    (t : ℕ) (rs : List Route)
    → waiting t (pairs (route_ends rs)) [] ≡ length (set_of (source_ids (routes_into t rs)))
unfolding set_of
waiting-pairs t [] = refl
waiting-pairs t (r ∷ rs) = ground (
  arith,
  waiting-pairs t rs,
  has-pairs r.source_step_id r.target_step_id (route_ends rs),
  member-source_ids r.source_step_id t rs,
  member-set_of r.source_step_id (source_ids (routes_into t rs)),
)

group_routes-keep :
    (field : Route → ℕ) (rs : List Route) (grouped : ℕ → List Route) (id : ℕ)
    → group_routes field rs grouped id ≡ grouped id ++ keep (λ r. field r == id) rs
unfolding group_routes
group_routes-keep field [] grouped id = sym (append-nil (grouped id))
group_routes-keep field (r ∷ rs) grouped id =
    group_routes-keep field rs (put grouped (field r) (grouped (field r) ++ r ∷ [])) id
    ∙ elim (Bool-cases (field r == id)) [
      | inl same ↦
          let e : grouped (field r) ≡ grouped id = ap grouped ((==_iff (field r) id).0 same) in
          rw (same, e) (append_assoc (grouped id) (r ∷ []) (keep (λ q. field q == id) rs))
      | inr other ↦ rw other refl
    ]

pub group_routes_lem :
    (field : Route → ℕ) (rs : List Route) (id : ℕ)
    → group_routes field rs no_routes id ≡ keep (λ r. field r == id) rs
group_routes_lem field rs id = group_routes-keep field rs no_routes id

module _ (locale_ids : ℕ → ℕ → Ordering) (locale_texts : Text → Text → Ordering) where
  has-insert_route :
      (s t : ℕ) (r : Route) (rs : List Route)
      → has s t (route_ends (insert_route locale_ids locale_texts r rs))
        ≡ has s t (route_ends (r ∷ rs))
  unfolding insert_route
  has-insert_route s t r [] = refl
  has-insert_route s t r (q ∷ qs) = ground (arith, has-insert_route s t r qs)

  pub has-compile_routes :
      (s t : ℕ) (es : List Edge)
      → has s t (route_ends (compile_routes locale_ids locale_texts es)) ≡ has s t (ends es)
  unfolding compile_routes
  has-compile_routes s t [] = refl
  has-compile_routes s t (e ∷ es) = ground (
    arith,
    has-insert_route s t (route_of e) (compile_routes locale_ids locale_texts es),
    has-compile_routes s t es,
  )
