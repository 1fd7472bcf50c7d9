-- ===== src/Verification/Routing.antt =====
-- verification/routing.py: reduction of a failure, choice of its route, and the repair budget.
use code_migrator.Base.{
  string_eq, ℕ, suc, String, Bool, true, false, not, ◌&&◌, ◌||◌, Option, none, some, List, [], ◌∷◌,
  ◌==◌, if◌then◌else◌, contains, get, put, leb, nat_beq, Result, ok, err,
}

pub data CheckStatus : Type 0 where
  passed : CheckStatus
  failed : CheckStatus
  timed_out : CheckStatus
  output_limit_exceeded : CheckStatus
  infrastructure_error : CheckStatus

pub data CheckAction : Type 0 where
  scaffold : CheckAction
  compile : CheckAction
  test : CheckAction
  lint : CheckAction
  type_check : CheckAction

pub data AttributionReliability : Type 0 where
  reliable : AttributionReliability
  uncertain : AttributionReliability
  dynamic : AttributionReliability

-- `VerificationLayer`, by value.
abbrev pub layers : List String
layers = "LOCAL" ∷ "INTEGRATION" ∷ "FINAL" ∷ []

pub data FailureRoute : Type 0 where
  direct_eligible : FailureRoute
  supervisor : FailureRoute
  no_failure : FailureRoute

pub record FailureReduction : Type 0 where
  pub status : CheckStatus
  pub action : CheckAction
  pub layer : String
  pub route : FailureRoute
  pub reason : String

abbrev pub is_resource_failure : CheckStatus → Bool
is_resource_failure timed_out = true
is_resource_failure output_limit_exceeded = true
is_resource_failure infrastructure_error = true
is_resource_failure _ = false

abbrev pub is_passed : CheckStatus → Bool
is_passed passed = true
is_passed _ = false

abbrev pub is_test : CheckAction → Bool
is_test test = true
is_test _ = false

abbrev pub reduction : CheckStatus → CheckAction → String → FailureRoute → String → FailureReduction
reduction status action layer route reason = record {
  status = status;
  action = action;
  layer = layer;
  route = route;
  reason = reason;
}

-- The count of unknown errors is a natural number, so a negative one has no case.
unfoldable pub reduce_failure : CheckStatus → CheckAction → String → ℕ → FailureReduction
reduce_failure status action layer error_unknown_count =
    if not (nat_beq error_unknown_count 0)
    then reduction status action layer supervisor "error_unknown"
    else if is_passed status
    then reduction status action layer no_failure "passed"
    else if is_resource_failure status
    then reduction status action layer supervisor "resource_failure"
    else if is_test action
    then reduction status action layer supervisor "dynamic_test_failure"
    else if not (contains layer layers)
    then reduction status action layer supervisor "unknown_layer"
    else reduction status action layer direct_eligible "static_failure"

-- A value of the evidence's summary: an integer that is no Boolean, a Boolean, or something else.
pub data Signal : Type 0 where
  count : ℕ → Signal
  flag : Bool → Signal
  other : Signal

pub record RepairEvidence : Type 0 where
  pub candidate_slice_set : List String
  pub reliability : AttributionReliability
  pub strong_coupling : Bool
  pub cross_generation_recurrence : Bool
  pub conservation_signal_summary : List (String × Signal)

-- `sorted(set(candidates))` is a parameter: the order of identifiers is that of their texts.
unfoldable pub build_repair_evidence :
    (List String → List String)
    → List String
    → AttributionReliability
    → Bool
    → Bool
    → List (String × Signal)
    → ℕ
    → Bool
    → RepairEvidence
build_repair_evidence sorted_set candidates reliability coupling recurrence summary unknown
      complete =
    record {
      candidate_slice_set = sorted_set candidates;
      reliability = reliability;
      strong_coupling = coupling;
      cross_generation_recurrence = recurrence;
      conservation_signal_summary =
          put "coupling_evidence_complete" (flag complete)
            (put "error_unknown_count" (count unknown) summary);
    }

pub data RouteDecision : Type 0 where
  direct_regeneration : String → ℕ → RouteDecision
  supervisor_route : RouteDecision
  slice_regeneration_exhausted : String → ℕ → RouteDecision

-- `type(unknown_count) is int and unknown_count == 0`, with 0 as the default.
abbrev pub none_unknown : Option Signal → Bool
none_unknown none = true
none_unknown (some (count n)) = nat_beq n 0
none_unknown (some _) = false

-- `summary.get("coupling_evidence_complete") is True`
abbrev pub is_true : Option Signal → Bool
is_true (some (flag b)) = b
is_true _ = false

abbrev pub is_reliable : AttributionReliability → Bool
is_reliable reliable = true
is_reliable _ = false

abbrev pub is_eligible : Option FailureReduction → Bool
is_eligible none = false
is_eligible (some failure) = elim failure.route [ direct_eligible ↦ true | _ ↦ false ]

abbrev pub generation_error : String
generation_error = "candidate generation must be between 0 and 2"

-- The route of a single candidate.
abbrev pub regenerate : String → ℕ → RouteDecision
regenerate slice generation =
    if nat_beq generation 2
    then slice_regeneration_exhausted slice generation
    else direct_regeneration slice generation

abbrev pub only_candidate : List String → ℕ → RouteDecision
only_candidate (slice ∷ []) generation = regenerate slice generation
only_candidate _ generation = supervisor_route

unfoldable pub choose_failure_route :
    RepairEvidence → ℕ → Option FailureReduction → Result String RouteDecision
choose_failure_route evidence generation failure =
    let summary = evidence.conservation_signal_summary in
    if not (leb generation 2)
    then err generation_error
    else if not (is_eligible failure)
    then ok supervisor_route
    else if not (none_unknown (get "error_unknown_count" summary))
    then ok supervisor_route
    else if not (is_true (get "coupling_evidence_complete" summary))
    then ok supervisor_route
    else if is_reliable evidence.reliability
        && not evidence.strong_coupling
        && not evidence.cross_generation_recurrence
    then ok (only_candidate evidence.candidate_slice_set generation)
    else ok supervisor_route

pub record GlobalRepairBudget : Type 0 where
  pub max_attempts : ℕ
  pub attempts : ℕ
  pub evidence : List String

unfoldable pub new_budget : ℕ → Result String GlobalRepairBudget
new_budget limit =
    if nat_beq limit 0
    then err "max_attempts must be a positive integer"
    else ok (record { max_attempts = limit; attempts = 0; evidence = [] })

unfoldable pub exhausted : GlobalRepairBudget → Bool
exhausted b = leb b.max_attempts b.attempts

unfoldable pub record_evidence :
    GlobalRepairBudget → String → GlobalRepairBudget × Result String (Option ℕ)
unfolding exhausted
record_evidence b key =
    if key == ""
    then (b, err "evidence_key must be non-empty")
    else if exhausted b || contains key b.evidence
    then (b, ok none)
    else (
      record b { evidence = key ∷ b.evidence; attempts = suc b.attempts },
      ok (some (suc b.attempts)),
    )

pub data TerminalClassification : Type 0 where
  partially_completed : TerminalClassification
  failed_terminal : TerminalClassification
  non_terminal : TerminalClassification

unfoldable pub classify_terminal_failure : Bool → Option GlobalRepairBudget → TerminalClassification
unfolding exhausted
classify_terminal_failure independent none = non_terminal
classify_terminal_failure independent (some b) =
    if not (exhausted b)
    then non_terminal
    else if independent
    then partially_completed
    else failed_terminal

pub data PrimaryEvidence : Type 0 where
  translated_tests : PrimaryEvidence
  generated_tests : PrimaryEvidence

pub record ConfidenceAssessment : Type 0 where
  pub primary_evidence : PrimaryEvidence
  pub downgraded : Bool
  pub disclosure : Option String
  pub usable_as_primary : Bool
  pub source_smoke_passed : Option Bool

abbrev pub smoke_failed : Option Bool → Bool
smoke_failed (some b) = not b
smoke_failed none = false

-- An assessment of generated tests, where there is one, stands in for the two flags; it may lack
-- either.
abbrev pub flag_or : Bool → Option (Option Bool) → Bool
flag_or b none = b
flag_or b (some none) = b
flag_or b (some (some c)) = c

unfoldable pub assess_confidence :
    Bool → Option Bool → Bool → Bool → Option (Option Bool × Option Bool) → ConfidenceAssessment
assess_confidence source_has_tests smoke generated low_quality assessment =
    let given : Bool = elim assessment [
      | none ↦ generated
      | some a ↦ flag_or generated (some a.0)
    ] in
    let low : Bool = elim assessment [
      | none ↦ low_quality
      | some a ↦ flag_or low_quality (some a.1)
    ] in
    if source_has_tests
    then record {
      primary_evidence = translated_tests;
      downgraded = smoke_failed smoke;
      disclosure =
          if smoke_failed smoke then some "source baseline smoke verification failed" else none;
      usable_as_primary = true;
      source_smoke_passed = smoke;
    }
    else record {
      primary_evidence = generated_tests;
      downgraded = true;
      disclosure = some (
          if low
          then "generated tests are below the LOW_QUALITY gate and cannot be primary evidence"
          else "generated tests establish self-consistency with the Agent's source understanding");
      usable_as_primary = if given then given && not low else not low;
      source_smoke_passed = smoke;
    }
