-- ===== src/Planning/Graph.antt =====
-- planning/validator.py: `_has_cycle`, the topological order of the slices by their edges.
use code_migrator.Base.{
  nat_eq, list_eq, ℕ, zero, suc, ◌-◌, Bool, not, ◌&&◌, List, [], ◌∷◌, ◌++◌, if◌then◌else◌, keep,
  length, Text, contains, add, get, put, get_or, nat_beq,
}
use code_migrator.Base.Loops.{unique, sorted}
use code_migrator.Planning.Proposal.{PlanEdgeProposal, PlanProposal, refs_of}

abbrev pub children : List (Text × List Text) → Text → List Text
children adjacency r = get_or [] (get r adjacency)

abbrev pub degree : List (Text × ℕ) → Text → ℕ
degree indegree r = get_or 0 (get r indegree)

-- `{ref: set() for ref in refs}` and `{ref: 0 for ref in refs}`.
abbrev pub constant {ℓ} : {V : Type ℓ} → V → List Text → List (Text × V)
constant v [] = []
constant v (r ∷ rs) = (r, v) ∷ constant v rs

abbrev pub Graph : Type 0
Graph = List (Text × List Text) × List (Text × ℕ)

-- One edge, counted once for a pair of slices.
unfoldable pub add_edge : List Text → Graph → PlanEdgeProposal → Graph
add_edge refs (adjacency, indegree) edge =
    if contains edge.from_ refs
      && contains edge.to refs
      && not (contains edge.to (children adjacency edge.from_))
    then (
      put edge.from_ (add edge.to (children adjacency edge.from_)) adjacency,
      put edge.to (suc (degree indegree edge.to)) indegree,
    )
    else (adjacency, indegree)

unfoldable pub add_edges : List Text → Graph → List PlanEdgeProposal → Graph
unfolding add_edge
add_edges refs g [] = g
add_edges refs g (edge ∷ edges) = add_edges refs (add_edge refs g edge) edges

-- The children of a visited slice, and those that it was the last to hold back.
unfoldable pub relax : List Text → List (Text × ℕ) → List (Text × ℕ) × List Text
relax [] indegree = (indegree, [])
relax (child ∷ rest) indegree =
    let d = degree indegree child in
    let next = relax rest (put child (d - 1) indegree) in
    if nat_beq d 1 then (next.0, child ∷ next.1) else next

-- The number of slices that the queue visits. An in-degree stays at 0 where the source would make
-- it negative; neither count is ever 1 again.
unfoldable pub visit : List (Text × List Text) → ℕ → List Text → List (Text × ℕ) → ℕ
unfolding relax
visit adjacency zero queue indegree = 0
visit adjacency (suc fuel) [] indegree = 0
visit adjacency (suc fuel) (r ∷ queue) indegree =
    let (counts, freed) = relax (sorted (children adjacency r)) indegree in
    suc (visit adjacency fuel (queue ++ freed) counts)

unfoldable pub has_cycle : PlanProposal → Bool
unfolding add_edges visit
has_cycle proposal =
    let refs : List Text = unique (refs_of proposal.slices) in
    let g : Graph = add_edges refs (constant [] refs, constant 0 refs) proposal.edges in
    let start : List Text = sorted (keep (λ r. nat_beq (degree g.1 r) 0) refs) in
    not (nat_beq (visit g.0 (length refs) start g.1) (length refs))
