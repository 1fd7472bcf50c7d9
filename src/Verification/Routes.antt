-- ===== src/Verification/Routes.antt =====
-- verification/routing.py: when a failure is routed to a direct regeneration.
use code_migrator.Base.{
  string_eq, ℕ, ◌<◌, String, ◌≡◌, Bool, true, false, some, List, [], ◌∷◌, arith, contains, get, put,
  get-put, leb, ok, ◌∙◌,
}
use code_migrator.Verification.Routing.{
  CheckStatus, CheckAction, AttributionReliability, failed, test, reliable, layers, direct_eligible,
  reduce_failure, direct_regeneration, Signal, flag, count, build_repair_evidence,
  choose_failure_route, only_candidate,
}

-- Whatever is reduced to the direct route is a failed check other than a test, in a known layer,
-- with no unknown error.
pub record IsStaticFailure (status : CheckStatus) (action : CheckAction) (layer : String)
    (unknown : ℕ) : Type 0 where
  pub is_failed : status ≡ failed
  pub no_test : ¬ (action ≡ test)
  pub known_layer : contains layer layers ≡ true
  pub none_unknown_errors : unknown ≡ 0

reduce_failure-direct :
    (status : CheckStatus) (action : CheckAction) (layer : String) (unknown : ℕ)
    → (reduce_failure status action layer unknown).route ≡ direct_eligible
    → IsStaticFailure status action layer unknown
unfolding reduce_failure
reduce_failure-direct status action layer unknown h = record {
  is_failed = ground arith;
  no_test = λ e. ground arith;
  known_layer = ground arith;
  none_unknown_errors = ground arith;
}

-- What evidence a direct regeneration rests on.
pub record IsDirect (slice : String) (generation : ℕ) (candidates : List String)
    (reliability : AttributionReliability) (coupling recurrence : Bool) (unknown : ℕ)
    (complete : Bool) : Type 0 where
  pub first_generations : generation < 2
  pub single : candidates ≡ slice ∷ []
  pub is_reliable_domain : reliability ≡ reliable
  pub no_coupling : coupling ≡ false
  pub no_recurrence : recurrence ≡ false
  pub no_unknown : unknown ≡ 0
  pub is_complete : complete ≡ true

only_candidate-direct :
    (candidates : List String) (generation : ℕ) (slice : String) (g : ℕ)
    → only_candidate candidates generation ≡ direct_regeneration slice g
    → leb generation 2 ≡ true
    → (candidates ≡ slice ∷ []) × (g ≡ generation) × (generation < 2)
only_candidate-direct [] generation slice g h le = absurd (ground arith)
only_candidate-direct (s ∷ []) generation slice g h le = (ground arith, ground arith, ground arith)
only_candidate-direct (s ∷ t ∷ rest) generation slice g h le = absurd (ground arith)

-- What the summary of built evidence says.
summary_unknown :
    (summary : List (String × Signal)) (complete : Bool) (unknown : ℕ)
    → get "error_unknown_count" (
        put "coupling_evidence_complete"
          (flag complete)
          (put "error_unknown_count" (count unknown) summary))
      ≡ some (count unknown)
summary_unknown summary complete unknown =
    get-put "coupling_evidence_complete" "error_unknown_count" (flag complete)
      (put "error_unknown_count" (count unknown) summary)
    ∙ get-put "error_unknown_count" "error_unknown_count" (count unknown) summary

summary_complete :
    (d : List (String × Signal)) (complete : Bool)
    → get "coupling_evidence_complete" (put "coupling_evidence_complete" (flag complete) d)
      ≡ some (flag complete)
summary_complete d complete =
    get-put "coupling_evidence_complete" "coupling_evidence_complete" (flag complete) d

-- A failed check is routed to the direct regeneration of a slice only for a failure other than a
-- test's, in a known layer and with no unknown error, from evidence that is reliable, complete and
-- without unknown errors, coupling or recurrence, whose candidates are that slice alone, and in
-- generation 0 or 1, which the route carries; `sorted_set` stands for `sorted(set(...))`.
pub direct_regeneration-justified :
    (sorted_set : List String → List String) (candidates : List String)
    (reliability : AttributionReliability) (coupling recurrence : Bool)
    (summary : List (String × Signal)) (unknown : ℕ) (complete : Bool) (generation : ℕ)
    (status : CheckStatus) (action : CheckAction) (layer : String) (errors : ℕ) (slice : String)
    (g : ℕ)
    → choose_failure_route
        (build_repair_evidence sorted_set candidates reliability coupling recurrence summary unknown
          complete)
        generation
        (some (reduce_failure status action layer errors))
      ≡ ok (direct_regeneration slice g)
    → IsStaticFailure status action layer errors
      × IsDirect slice generation
          (sorted_set candidates)
          reliability
          coupling
          recurrence
          unknown
          complete
      × (g ≡ generation)
unfolding choose_failure_route build_repair_evidence
direct_regeneration-justified sorted_set candidates reliability coupling recurrence summary unknown
      complete generation status action layer errors slice g h =
    let d = put "error_unknown_count" (count unknown) summary in
    let h' = rw (summary_unknown summary complete unknown, summary_complete d complete) at h in
    let route : (reduce_failure status action layer errors).route ≡ direct_eligible =
      ground arith in
    let le : leb generation 2 ≡ true = ground arith in
    let found : only_candidate (sorted_set candidates) generation ≡ direct_regeneration slice g =
      ground arith in
    let (single, same, lt) =
      only_candidate-direct (sorted_set candidates) generation slice g found le in
    (
      reduce_failure-direct status action layer errors route,
      record {
        first_generations = lt;
        single = single;
        is_reliable_domain = ground arith;
        no_coupling = ground arith;
        no_recurrence = ground arith;
        no_unknown = ground arith;
        is_complete = ground arith;
      },
      same,
    )
