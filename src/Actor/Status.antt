-- ===== src/Actor/Status.antt =====
-- core/enums.py: the statuses of a run and the reasons of a failure, by their values, and the set
-- `_TERMINAL_STATUSES` of runtime/actor.py.
use code_migrator.Base.{
  PyEq, ℕ, String, Bool, true, false, ◌≡◌, refl, sym, ap, ◌∙◌, ◌↔◌, nat_beq, nat_beq_iff,
  if◌then◌else◌,
}

pub data RunStatus : Type 0 where
  created : RunStatus
  planning : RunStatus
  executing : RunStatus
  verifying : RunStatus
  reporting : RunStatus
  completed : RunStatus
  partially_completed : RunStatus
  failed : RunStatus
  cancelled : RunStatus

abbrev pub status_value : RunStatus → String
status_value created = "CREATED"
status_value planning = "PLANNING"
status_value executing = "EXECUTING"
status_value verifying = "VERIFYING"
status_value reporting = "REPORTING"
status_value completed = "COMPLETED"
status_value partially_completed = "PARTIALLY_COMPLETED"
status_value failed = "FAILED"
status_value cancelled = "CANCELLED"

abbrev pub position : RunStatus → ℕ
position created = 0
position planning = 1
position executing = 2
position verifying = 3
position reporting = 4
position completed = 5
position partially_completed = 6
position failed = 7
position cancelled = 8

abbrev at_position : ℕ → RunStatus
at_position n =
    if nat_beq n 0
    then created
    else if nat_beq n 1
    then planning
    else if nat_beq n 2
    then executing
    else if nat_beq n 3
    then verifying
    else if nat_beq n 4
    then reporting
    else if nat_beq n 5
    then completed
    else if nat_beq n 6
    then partially_completed
    else if nat_beq n 7
    then failed
    else cancelled

at_position-position : (s : RunStatus) → at_position (position s) ≡ s
at_position-position created = refl
at_position-position planning = refl
at_position-position executing = refl
at_position-position verifying = refl
at_position-position reporting = refl
at_position-position completed = refl
at_position-position partially_completed = refl
at_position-position failed = refl
at_position-position cancelled = refl

pub status_beq_iff : (s t : RunStatus) → (nat_beq (position s) (position t) ≡ true) ↔ (s ≡ t)
status_beq_iff s t = (
  λ h.
      sym (at_position-position s)
      ∙ ap at_position ((nat_beq_iff (position s) (position t)).0 h)
      ∙ at_position-position t,
  λ h. (nat_beq_iff (position s) (position t)).1 (ap position h),
)

-- `is`, between two statuses.
instance abbrev pub status_eq : PyEq RunStatus
status_eq = record {
  equals = λ s t. nat_beq (position s) (position t);
  equals_iff = status_beq_iff;
}

-- `status in _TERMINAL_STATUSES`
abbrev pub is_terminal : RunStatus → Bool
is_terminal completed = true
is_terminal partially_completed = true
is_terminal failed = true
is_terminal cancelled = true
is_terminal _ = false

pub data FailureReason : Type 0 where
  analysis_failed : FailureReason
  dossier_inconsistent : FailureReason
  plan_failed : FailureReason
  execution_failed : FailureReason
  verification_terminal : FailureReason
  report_generation_failed : FailureReason
  budget_exhausted : FailureReason
  resource_exhausted : FailureReason
  output_limit_exceeded : FailureReason
  slice_regeneration_exhausted : FailureReason
  nondeterministic_verification : FailureReason

abbrev pub reason_value : FailureReason → String
reason_value analysis_failed = "ANALYSIS_FAILED"
reason_value dossier_inconsistent = "DOSSIER_INCONSISTENT"
reason_value plan_failed = "PLAN_FAILED"
reason_value execution_failed = "EXECUTION_FAILED"
reason_value verification_terminal = "VERIFICATION_TERMINAL"
reason_value report_generation_failed = "REPORT_GENERATION_FAILED"
reason_value budget_exhausted = "BUDGET_EXHAUSTED"
reason_value resource_exhausted = "RESOURCE_EXHAUSTED"
reason_value output_limit_exceeded = "OUTPUT_LIMIT_EXCEEDED"
reason_value slice_regeneration_exhausted = "SLICE_REGENERATION_EXHAUSTED"
reason_value nondeterministic_verification = "NONDETERMINISTIC_VERIFICATION"
