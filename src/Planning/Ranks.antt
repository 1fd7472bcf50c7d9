-- ===== src/Planning/Ranks.antt =====
-- planning/validator.py: the edges of an accepted plan rise in rank, so they form no cycle.
use code_migrator.Base.{
  nat_eq, list_eq, ℕ, suc, ◌<◌, String, ◌≡◌, refl, subst, true, false, not, ◌&&◌, ◌||◌, Option,
  some, List, [], ◌∷◌, arith, ◌==◌, inl, inr, Bool-cases, Text, contains, subset, contains-subset,
  get, In, here, there,
}
use code_migrator.Base.Texts.{list_beq_iff}
use code_migrator.Base.Loops.{append-empty, collect, collect-empty}
use code_migrator.Planning.Proposal.{
  ℤ, pos, negsuc, PlanEdgeProposal, PlanProposal, PlanningLimits, PlanningInputs, refs_of,
}
use code_migrator.Planning.Edges.{
  check_edge, check_edges, validate_edges, ltz, keys, check_rank, validate_ranks,
}
use code_migrator.Planning.Validator.{validate}
use code_migrator.Planning.Accepted.{accepted-IsClean, report-empty}

-- A checked edge joins two slices.
edge-inside :
    (refs : List Text) {edge : PlanEdgeProposal} {edges : List PlanEdgeProposal}
    (seen : List PlanEdgeProposal) (i : ℕ)
    → In edge edges
    → check_edges refs seen i edges ≡ []
    → (contains edge.from_ refs ≡ true) × (contains edge.to refs ≡ true)
unfolding check_edges check_edge
edge-inside refs {edges = []} seen i m h = elim m [ ]
edge-inside refs {edges = e ∷ edges} seen i here h =
    let (front, rest) = append-empty _ _ h in
    let (front, r4) = append-empty _ _ front in
    let (front, r3) = append-empty _ _ front in
    let (front, r2) = append-empty _ _ front in
    let (front, r1) = append-empty _ _ front in
    let clean = report-empty (not (contains e.from_ refs) || not (contains e.to refs)) _ front in
    (ground arith, ground arith)
edge-inside refs {edges = e ∷ edges} seen i (there m) h =
    edge-inside refs (e ∷ seen) (suc i) m (append-empty _ _ h).1

-- The entry that a key is looked up in.
get-In :
    (k : Text) (d : List (Text × ℤ))
    → contains k (keys d) ≡ true
    → (v : ℤ) × (get k d ≡ some v) × In (k, v) d
unfolding contains get
get-In k [] h = absurd (ground arith)
get-In k ((j, v) ∷ d) h = elim (Bool-cases (j == k)) [
  | inl e ↦ (v, rw e refl, subst (λ x. In (x, v) ((j, v) ∷ d)) ((list_beq_iff j k).0 e) here)
  | inr e ↦ let (w, g, m) = get-In k d (ground arith) in (w, rw e g, there m)
]

-- A rank that passed the sign check.
not_negative : (v : ℤ) → ltz v (pos 0) ≡ false → (n : ℕ) × (v ≡ pos n)
not_negative (pos n) h = (n, refl)
not_negative (negsuc n) h = absurd (ground arith)

module _ (proposal : PlanProposal) (clean : validate_ranks proposal ≡ []) where
  -- Every slice has a rank, a natural number.
  rank_of :
      (r : Text)
      → contains r (refs_of proposal.slices) ≡ true
      → (n : ℕ) × (get r proposal.integration_ranks ≡ some (pos n))
  unfolding validate_ranks
  rank_of r h =
      let refs = refs_of proposal.slices in
      let ranks = proposal.integration_ranks in
      let (front, rising) = append-empty _ _ clean in
      let (exact, signs) = append-empty _ _ front in
      let same =
        report-empty (not (subset (keys ranks) refs && subset refs (keys ranks))) _ exact in
      let covers : subset refs (keys ranks) ≡ true = ground arith in
      let (v, g, m) = get-In r ranks (contains-subset refs (keys ranks) r covers h) in
      let (j, e) = collect-empty _ 0 m signs in
      let sign = report-empty (contains r refs && ltz v (pos 0)) _ e in
      let (n, s) = not_negative v (ground arith) in (n, subst (λ x. get r ranks ≡ some x) s g)

  ranks-rising : collect (check_rank proposal) 0 proposal.edges ≡ []
  unfolding validate_ranks
  ranks-rising = (append-empty _ _ clean).1

  -- An edge between slices rises.
  rank_rises :
      (edge : PlanEdgeProposal) (a b : ℕ)
      → In edge proposal.edges
      → contains edge.from_ (refs_of proposal.slices) ≡ true
      → contains edge.to (refs_of proposal.slices) ≡ true
      → get edge.from_ proposal.integration_ranks ≡ some (pos a)
      → get edge.to proposal.integration_ranks ≡ some (pos b)
      → a < b
  unfolding check_rank
  rank_rises edge a b m hf ht ga gb =
      let (j, e) = collect-empty (check_rank proposal) 0 m ranks-rising in
      let r = report-empty (not (ltz (pos a) (pos b))) _ (rw (hf, ht, ga, gb, check_rank) at e) in
      ground arith

-- Every edge of an accepted plan joins two of its slices, and both have natural numbers as ranks,
-- that of the edge's end greater.
pub accepted-rising :
    (re_search : String → Text → Option Text) (own : Option PlanningLimits)
    (proposal : PlanProposal) (inputs : PlanningInputs) (edge : PlanEdgeProposal)
    → (validate re_search own proposal inputs).accepted ≡ true
    → In edge proposal.edges
    → (contains edge.from_ (refs_of proposal.slices) ≡ true)
      × (contains edge.to (refs_of proposal.slices) ≡ true)
      × (a : ℕ) × (b : ℕ) × (get edge.from_ proposal.integration_ranks ≡ some (pos a))
      × (get edge.to proposal.integration_ranks ≡ some (pos b))
      × (a < b)
unfolding validate_edges
accepted-rising re_search own proposal inputs edge h m =
    let clean = accepted-IsClean re_search own proposal inputs h in
    let (hf, ht) = edge-inside (refs_of proposal.slices) [] 0 m clean.edges in
    let (a, ga) = rank_of proposal clean.ranks edge.from_ hf in
    let (b, gb) = rank_of proposal clean.ranks edge.to ht in
    (hf, ht, a, b, ga, gb, rank_rises proposal clean.ranks edge a b m hf ht ga gb)

-- A path of one edge or more.
pub data Leads (edges : List PlanEdgeProposal) : Text → Text → Type 0 where
  one : (edge : PlanEdgeProposal) → In edge edges → Leads edges edge.from_ edge.to
  step :
      (edge : PlanEdgeProposal) {c : Text}
      → In edge edges
      → Leads edges edge.to c
      → Leads edges edge.from_ c

leads-rising :
    (re_search : String → Text → Option Text) (own : Option PlanningLimits)
    (proposal : PlanProposal) (inputs : PlanningInputs) {r s : Text}
    → (validate re_search own proposal inputs).accepted ≡ true
    → Leads proposal.edges r s
    → (a : ℕ) × (b : ℕ) × (get r proposal.integration_ranks ≡ some (pos a))
      × (get s proposal.integration_ranks ≡ some (pos b))
      × (a < b)
leads-rising re_search own proposal inputs h (one edge m) =
    let (hf, ht, a, b, ga, gb, lt) = accepted-rising re_search own proposal inputs edge h m in
    (a, b, ga, gb, lt)
leads-rising re_search own proposal inputs h (step edge m path) =
    let (hf, ht, a, b, ga, gb, lt) = accepted-rising re_search own proposal inputs edge h m in
    let (b', c, gb', gc, lt') = leads-rising re_search own proposal inputs h path in
    let same : b ≡ b' = ground arith in (a, c, ga, gc, omega arith)

-- The edges of an accepted plan lead from no slice back to itself.
pub accepted-acyclic :
    (re_search : String → Text → Option Text) (own : Option PlanningLimits)
    (proposal : PlanProposal) (inputs : PlanningInputs) (r : Text)
    → (validate re_search own proposal inputs).accepted ≡ true
    → ¬ Leads proposal.edges r r
accepted-acyclic re_search own proposal inputs r h path =
    let (a, b, ga, gb, lt) = leads-rising re_search own proposal inputs h path in
    let same : a ≡ b = ground arith in absurd (omega arith)
