-- ===== src/Planning/Edges.antt =====
-- planning/validator.py: `_validate_edges`, `_validate_test_edges`, `_has_cycle` and
-- `_validate_ranks`.
use code_migrator.Base.{
  nat_eq, list_eq, ℕ, suc, Bool, true, false, not, ◌&&◌, ◌||◌, Option, none, some, List, [], ◌∷◌,
  ◌++◌, ◌==◌, if◌then◌else◌, any, Text, contains, subset, get, ltb,
}
use code_migrator.Base.Loops.{collect}
use code_migrator.Planning.Proposal.{
  SliceKind, test_generation, test_translation, implementation, slice_kind_beq, requires,
  edge_kind_beq, import_unknown, write_scope_conflict, plan_edge_invalid, plan_scope_conflict,
  plan_proposal_invalid, plan_rank_inconsistent, ℤ, pos, negsuc, PlanSliceProposal,
  PlanEdgeProposal, PlanProposal, Segment, name, index, ref, rank, PlanViolation, ModuleFact,
  CoverageEntry, AnalysisResult, refs_of, violation, report,
}

-- `(edge.from_, edge.to, edge.kind.value) in seen`
abbrev pub same_edge : PlanEdgeProposal → PlanEdgeProposal → Bool
same_edge a b = a.from_ == b.from_ && a.to == b.to && edge_kind_beq a.kind b.kind

abbrev pub is_unknown_requires : PlanEdgeProposal → Bool
is_unknown_requires edge = elim edge.provenance [
  | import_unknown ↦ edge_kind_beq edge.kind requires
  | _ ↦ false
]

abbrev pub is_write_conflict : PlanEdgeProposal → Bool
is_write_conflict edge = elim edge.provenance [ write_scope_conflict ↦ true | _ ↦ false ]

-- What one edge is reported for, after the edges seen.
unfoldable pub check_edge :
    List Text → List PlanEdgeProposal → ℕ → PlanEdgeProposal → List PlanViolation
check_edge refs seen i edge =
    let pointer : List Segment = name "edges" ∷ index i ∷ [] in
    report (not (contains edge.from_ refs) || not (contains edge.to refs))
      (violation plan_edge_invalid pointer "edge endpoint is not a slice in this proposal" [])
    ++ report (edge.from_ == edge.to && not (contains edge.from_ refs))
        (violation plan_edge_invalid pointer "self edges are not allowed" [])
    ++ report (any (same_edge edge) seen) (violation plan_edge_invalid pointer "duplicate edge" [])
    ++ report (is_unknown_requires edge) (
        violation plan_edge_invalid pointer
          "Unknown import facts may only produce OrderedBefore edges" [])
    ++ report (is_write_conflict edge) (
        violation plan_scope_conflict pointer "write conflicts cannot be hidden by a planning edge"
          [])

unfoldable pub check_edges :
    List Text → List PlanEdgeProposal → ℕ → List PlanEdgeProposal → List PlanViolation
unfolding check_edge
check_edges refs seen i [] = []
check_edges refs seen i (edge ∷ edges) =
    check_edge refs seen i edge ++ check_edges refs (edge ∷ seen) (suc i) edges

unfoldable pub validate_edges : PlanProposal → List PlanViolation
unfolding check_edges
validate_edges proposal = check_edges (refs_of proposal.slices) [] 0 proposal.edges

-- `tested_by_test_module.get(module_id, set())`: what the coverage entries of the test module's
-- files name.
unfoldable pub tested_by : List ModuleFact → List CoverageEntry → Text → List Text
tested_by modules [] module_id = []
tested_by modules (entry ∷ entries) module_id =
    let rest = tested_by modules entries module_id in
    if any (λ fact. fact.module_id == module_id && contains entry.test_file fact.file_paths) modules
    then entry.tested_modules ++ rest
    else rest

-- The slice with a reference.
unfoldable pub slice_at : Text → List PlanSliceProposal → Option PlanSliceProposal
slice_at r [] = none
slice_at r (s ∷ rest) = if s.local_ref == r then some s else slice_at r rest

abbrev pub is_test_kind : SliceKind → Bool
is_test_kind kind = slice_kind_beq kind test_translation || slice_kind_beq kind test_generation

-- The first test slice, in the order of the slices, at an end of the edge.
unfoldable pub test_end : List PlanSliceProposal → PlanEdgeProposal → Option PlanSliceProposal
test_end [] edge = none
test_end (s ∷ rest) edge =
    if is_test_kind s.kind && (s.local_ref == edge.from_ || s.local_ref == edge.to)
    then some s
    else test_end rest edge

-- The modules that a test slice tests.
unfoldable pub tested_modules_of : AnalysisResult → PlanSliceProposal → List Text
unfolding tested_by
tested_modules_of analysis s = elim s.kind [
  | test_generation ↦ s.source_modules
  | _ ↦ each s.source_modules
]
  where
    each : List Text → List Text
    each [] = []
    each (m ∷ ms) =
        let rest = each ms in
        if any (λ fact. fact.module_id == m) analysis.modules
        then tested_by analysis.modules analysis.coverage m ++ rest
        else rest

-- An edge between a test slice and the implementation slice that it tests.
unfoldable pub links_tested : PlanProposal → AnalysisResult → PlanEdgeProposal → Bool
unfolding tested_modules_of test_end slice_at
links_tested proposal analysis edge = elim (test_end proposal.slices edge) [
  | none ↦ false
  | some s ↦
      elim (slice_at (if s.local_ref == edge.from_ then edge.to else edge.from_) proposal.slices) [
        | none ↦ false
        | some impl ↦
            slice_kind_beq impl.kind implementation
            && any (λ m. contains m impl.source_modules) (tested_modules_of analysis s)
      ]
]

unfoldable pub validate_test_edges : PlanProposal → AnalysisResult → List PlanViolation
unfolding links_tested
validate_test_edges proposal analysis =
    collect
      (λ i edge. report (links_tested proposal analysis edge) (
        violation plan_edge_invalid (name "edges" ∷ index i ∷ [])
          "test slices must not edge to their tested implementation slice" []))
      0 proposal.edges

abbrev pub ltz : ℤ → ℤ → Bool
ltz (pos a) (pos b) = ltb a b
ltz (pos a) (negsuc b) = false
ltz (negsuc a) (pos b) = true
ltz (negsuc a) (negsuc b) = ltb b a

-- The keys of a dictionary.
abbrev pub keys : List (Text × ℤ) → List Text
keys [] = []
keys ((k, v) ∷ d) = k ∷ keys d

-- An edge between slices whose ranks do not rise.
unfoldable pub check_rank : PlanProposal → ℕ → PlanEdgeProposal → List PlanViolation
check_rank proposal i edge =
    if contains edge.from_ (refs_of proposal.slices) && contains edge.to (refs_of proposal.slices)
    then elim (get edge.from_ proposal.integration_ranks) [
      | none ↦ []
      | some from_rank ↦ elim (get edge.to proposal.integration_ranks) [
        | none ↦ []
        | some to_rank ↦ report (not (ltz from_rank to_rank)) (
            violation plan_rank_inconsistent (name "edges" ∷ index i ∷ [])
              "every edge must point from a lower integration rank to a higher rank"
              (("from_rank", rank from_rank) ∷ ("to_rank", rank to_rank) ∷ []))
      ]
    ]
    else []

unfoldable pub validate_ranks : PlanProposal → List PlanViolation
unfolding check_rank
validate_ranks proposal =
    let refs : List Text = refs_of proposal.slices in
    report
      (not (
        subset (keys proposal.integration_ranks) refs
        && subset refs (keys proposal.integration_ranks)))
      (violation plan_proposal_invalid (name "integration_ranks" ∷ [])
        "integration_ranks must contain exactly one non-negative rank per slice" [])
    ++ collect
        (λ i entry. report (contains entry.0 refs && ltz entry.1 (pos 0)) (
          violation plan_proposal_invalid (name "integration_ranks" ∷ ref entry.0 ∷ [])
            "integration rank must be a non-negative integer" []))
        0 proposal.integration_ranks
    ++ collect (check_rank proposal) 0 proposal.edges
