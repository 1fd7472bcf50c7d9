-- ===== src/Actor/Advice.antt =====
-- runtime/advice.py: the mechanical validation of advice. The payload's entries are given as the code reads
-- them: the assignments where they are a dictionary, each with its target where that is a text or an
-- identifier, and the repair set where each of its items is an identifier. The digest is a parameter.
use code_migrator.Base.{
  string_eq, nat_eq, ℕ, suc, String, Bool, true, false, not, ◌&&◌, Option, none, some, List, [],
  ◌∷◌, ◌==◌, get, put, get_or, subset, ltb, any, map, if◌then◌else◌,
}

pub data AdviceKind : Type 0 where
  explore_reassignment : AdviceKind
  repair_decision : AdviceKind
  route_suggestion : AdviceKind
  plan_revision : AdviceKind
  ask_user : AdviceKind

pub record Advice : Type 0 where
  pub advice_id : String
  pub kind : AdviceKind
  pub run_id : String
  pub assignments : Option (List (String × Option String))
  pub repair_set : Option (List String)
  pub proposal_hash : String

pub data AdviceDisposition : Type 0 where
  auto_adopted : AdviceDisposition
  confirmation_required : AdviceDisposition
  discarded : AdviceDisposition

pub record AdviceValidationContext : Type 0 where
  pub expected_subjects : List String
  pub attribution_candidates : List String
  pub joint_domain_members : List String
  pub max_fanout : ℕ

pub record AdviceValidationResult : Type 0 where
  pub disposition : AdviceDisposition
  pub reason : String
  pub proposal_hash : String

abbrev pub is_nil {ℓ} : {A : Type ℓ} → List A → Bool
is_nil [] = true
is_nil (x ∷ xs) = false

abbrev is_target : String × Option String → Bool
is_target (subject, none) = false
is_target (subject, some target) = not (target == "")

-- The loop that counts the assignments of each target.
unfoldable pub fanout : List (String × Option String) → List (String × ℕ) → List (String × ℕ)
fanout [] counts = counts
fanout ((subject, target) ∷ assignments) counts =
    let key = get_or "" target in
    fanout assignments (put key (suc (get_or 0 (get key counts))) counts)

unfoldable pub check_assignments :
    AdviceValidationContext → List (String × Option String) → Option String
unfolding fanout
check_assignments context assignments =
    let subjects = map (λ (item : String × Option String). item.0) assignments in
    if is_nil context.expected_subjects
    then some "EXPECTED_SUBJECTS_REQUIRED"
    else if not
        (subset subjects context.expected_subjects && subset context.expected_subjects subjects)
    then some "ASSIGNMENT_COVERAGE_MISMATCH"
    else if any (λ item. not (is_target item)) assignments
    then some "ASSIGNMENT_TARGET_REQUIRED"
    else if any (λ (item : String × ℕ). ltb context.max_fanout item.1) (fanout assignments [])
    then some "ASSIGNMENT_FANOUT_EXCEEDED"
    else none

unfoldable pub validate_explore : Advice → AdviceValidationContext → Option String
unfolding check_assignments
validate_explore advice context = elim advice.assignments [
  | none ↦ some "ASSIGNMENTS_REQUIRED"
  | some assignments ↦ check_assignments context assignments
]

unfoldable pub check_repair_set : AdviceValidationContext → List String → Option String
check_repair_set context repair_set =
    if is_nil repair_set
    then some "REPAIR_SET_REQUIRED"
    else if is_nil context.attribution_candidates
    then some "ATTRIBUTION_CANDIDATES_REQUIRED"
    else if not (subset repair_set context.attribution_candidates)
    then some "REPAIR_SET_NOT_IN_CANDIDATES"
    else if not (is_nil context.joint_domain_members)
        && not (
            subset repair_set context.joint_domain_members
            && subset context.joint_domain_members repair_set)
    then some "JOINT_DOMAIN_MISMATCH"
    else none

unfoldable pub validate_repair : Advice → AdviceValidationContext → Option String
unfolding check_repair_set
validate_repair advice context = elim advice.repair_set [
  | none ↦ some "REPAIR_SET_REQUIRED"
  | some repair_set ↦ check_repair_set context repair_set
]

-- What is checked by the kind: `none` where a user decides.
abbrev validate_kind : AdviceKind → Advice → AdviceValidationContext → Option (Option String)
validate_kind explore_reassignment advice context = some (validate_explore advice context)
validate_kind repair_decision advice context = some (validate_repair advice context)
validate_kind _ advice context = none

abbrev disposition_of : Option (Option String) → AdviceDisposition × String
disposition_of none = (confirmation_required, "BOUNDARY_ADVICE")
disposition_of (some none) = (auto_adopted, "MECHANICALLY_VALID")
disposition_of (some (some reason)) = (discarded, reason)

unfoldable pub evaluate_advice :
    (Advice → String) → Advice → AdviceValidationContext → AdviceValidationResult
unfolding validate_explore validate_repair
evaluate_advice advice_proposal_hash advice context =
    let expected = advice_proposal_hash advice in
    let (disposition, reason) = disposition_of (validate_kind advice.kind advice context) in
    if not (advice.proposal_hash == expected)
    then record {
      disposition = discarded;
      reason = "PROPOSAL_HASH_MISMATCH";
      proposal_hash = expected;
    }
    else record { disposition = disposition; reason = reason; proposal_hash = expected }
