-- ===== src/Planning/Retry.antt =====
-- planning/retry.py: the loop that asks a planner again with the violations of its last proposal.
-- The proposer, which may keep a state, answers by the number of the call; the validator of the loop
-- and that of the ledger are parameters, and may raise. Of planning/validator.py, `PlanLedger.freeze`
-- is modelled up to the plan that it stores, which the parameter `publish` builds, or raises.
use code_migrator.Base.{
  ℕ, zero, suc, ◌≤◌, ◌+◌, String, ◌≡◌, subst, true, false, Option, none, some, List, [], ◌∷◌, arith,
  string_eq, ◌==◌, if◌then◌else◌, inl, inr, Bool-cases, Option-cases, if_cases, refl, ◌≢◌,
}
use code_migrator.Planning.Proposal.{
  PlanProposal, PlanViolation, PlanValidation, plan_proposal_invalid, name, violation,
}

-- What a call of the proposer gives: a proposal, a schema, type or value error, or a failure of the
-- provider, which is not caught.
pub data Answer : Type 0 where
  proposed : PlanProposal → Answer
  malformed : String → Answer
  physical_failure : Answer

-- What a call of a validator gives: a validation, a type or value error, or another exception.
pub data Checked : Type 0 where
  judged : PlanValidation → Checked
  refused : String → Checked
  crashed : Checked

unfoldable pub schema_failure : String → PlanValidation
schema_failure message = record {
  accepted = false;
  violations =
      violation plan_proposal_invalid (name "" ∷ [])
        (if message == "" then "proposal schema is invalid" else message) []
      ∷ [];
  source_coverage = [];
  checked_scope_pairs = 0;
  cycle_check = "NOT_RUN";
  blueprint_check = "NOT_RUN";
  rank_check = "NOT_RUN";
  size_check = "NOT_RUN";
}

pub data Outcome {ℓ} (Frozen : Type ℓ) : Type ℓ where
  returned : Frozen → Outcome Frozen
  plan_failed : PlanValidation → ℕ → Outcome Frozen
  plan_rejected : PlanValidation → Outcome Frozen
  raised : Outcome Frozen

-- `PlanLedger.freeze`: the ledger validates once more, and raises where that does not accept.
module _ {ℓ} {Frozen : Type ℓ} (recheck : PlanProposal → Checked)
    (publish : PlanProposal → PlanValidation → Option Frozen) where
  unfoldable pub published : Option Frozen → Outcome Frozen
  published none = raised
  published (some plan) = returned plan

  unfoldable pub freeze : PlanProposal → Outcome Frozen
  unfolding published
  freeze proposal = elim (recheck proposal) [
    | crashed ↦ raised
    | refused message ↦ raised
    | judged validation ↦
        if validation.accepted
        then published (publish proposal validation)
        else plan_rejected validation
  ]

  -- How a freeze ends: with a plan, built with the validation of the ledger that accepted; with a
  -- rejection by the ledger; or with an exception of its validator or of the building.
  pub data IsFrozen (proposal : PlanProposal) : Outcome Frozen → Type ℓ where
    frozen :
        (validation : PlanValidation) (plan : Frozen)
        → recheck proposal ≡ judged validation
        → validation.accepted ≡ true
        → publish proposal validation ≡ some plan
        → IsFrozen proposal (returned plan)
    refrozen :
        (validation : PlanValidation)
        → recheck proposal ≡ judged validation
        → validation.accepted ≡ false
        → IsFrozen proposal (plan_rejected validation)
    unbuilt :
        (validation : PlanValidation)
        → recheck proposal ≡ judged validation
        → validation.accepted ≡ true
        → publish proposal validation ≡ none
        → IsFrozen proposal raised
    unchecked :
        ((validation : PlanValidation) → recheck proposal ≢ judged validation)
        → IsFrozen proposal raised

  published-IsFrozen :
      (proposal : PlanProposal) (validation : PlanValidation) (o : Option Frozen)
      → recheck proposal ≡ judged validation
      → validation.accepted ≡ true
      → publish proposal validation ≡ o
      → IsFrozen proposal (published o)
  unfolding published
  published-IsFrozen proposal validation none e f k = unbuilt validation e f k
  published-IsFrozen proposal validation (some plan) e f k = frozen validation plan e f k

  judged-IsFrozen :
      (proposal : PlanProposal) (validation : PlanValidation)
      → recheck proposal ≡ judged validation
      → IsFrozen proposal (
          if validation.accepted
          then published (publish proposal validation)
          else plan_rejected validation)
  judged-IsFrozen proposal validation e =
      if_cases (IsFrozen proposal) validation.accepted
        (λ f. published-IsFrozen proposal validation _ e f refl) (λ f. refrozen validation e f)

  pub freeze-IsFrozen : (proposal : PlanProposal) → IsFrozen proposal (freeze proposal)
  unfolding freeze
  freeze-IsFrozen proposal = ended (recheck proposal) refl
    where
      ended :
          (c : Checked)
          → recheck proposal ≡ c
          → IsFrozen proposal (elim c [
            | crashed ↦ raised
            | refused message ↦ raised
            | judged validation ↦
                if validation.accepted
                then published (publish proposal validation)
                else plan_rejected validation
          ])
      ended crashed e = unchecked (λ v k. absurd (ground arith))
      ended (refused message) e = unchecked (λ v k. absurd (ground arith))
      ended (judged validation) e = judged-IsFrozen proposal validation e

module _ {ℓ} {Frozen : Type ℓ} (proposer : ℕ → List PlanViolation → Answer)
    (check : PlanProposal → Checked) (recheck : PlanProposal → Checked)
    (publish : PlanProposal → PlanValidation → Option Frozen) where
  -- One turn up to the validation, which a caught error replaces.
  unfoldable pub turn : ℕ → List PlanViolation → Option (Option PlanProposal × PlanValidation)
  unfolding schema_failure
  turn call feedback = elim (proposer call feedback) [
    | physical_failure ↦ none
    | malformed message ↦ some (none, schema_failure message)
    | proposed proposal ↦ elim (check proposal) [
      | crashed ↦ none
      | refused message ↦ some (none, schema_failure message)
      | judged validation ↦ some (some proposal, validation)
    ]
  ]

  -- `remaining` is the number of retries left: `max_retries - retries`. A caught error is never
  -- accepted.
  unfoldable pub run_from : ℕ → ℕ → List PlanViolation → Outcome Frozen
  unfolding turn
  run_from zero retries feedback = elim (turn retries feedback) [
    | none ↦ raised
    | some (some proposal, validation) ↦
        if validation.accepted
        then freeze recheck publish proposal
        else plan_failed validation (suc retries)
    | some (none, validation) ↦ plan_failed validation (suc retries)
  ]
  run_from (suc remaining) retries feedback = elim (turn retries feedback) [
    | none ↦ raised
    | some (some proposal, validation) ↦
        let rest = run_from remaining (suc retries) validation.violations in
        if validation.accepted then freeze recheck publish proposal else rest
    | some (none, validation) ↦ run_from remaining (suc retries) validation.violations
  ]

  unfoldable pub run : ℕ → Outcome Frozen
  unfolding run_from
  run max_retries = run_from max_retries 0 []

  -- The feedback of a call: nothing at first, then the violations of the call before it, whose
  -- validation did not accept.
  pub data Feedback : ℕ → List PlanViolation → Type ℓ where
    first : Feedback 0 []
    again :
        {k : ℕ} {feedback : List PlanViolation} (proposal : Option PlanProposal)
        (validation : PlanValidation)
        → Feedback k feedback
        → turn k feedback ≡ some (proposal, validation)
        → validation.accepted ≡ false
        → Feedback (suc k) validation.violations

  -- A call that raises past the loop: the provider fails, or the check of its proposal does.
  pub data Fails (k : ℕ) (feedback : List PlanViolation) : Type 0 where
    provider : proposer k feedback ≡ physical_failure → Fails k feedback
    validator :
        (proposal : PlanProposal)
        → proposer k feedback ≡ proposed proposal
        → check proposal ≡ crashed
        → Fails k feedback

  -- What the loop ends with: what the freeze of an accepted proposal of one of its calls ends with;
  -- the last rejection; or an exception of the provider or the check.
  pub data IsEnd (max_retries : ℕ) : Outcome Frozen → Type ℓ where
    accepted :
        (k : ℕ) (feedback : List PlanViolation) (proposal : PlanProposal)
        (validation : PlanValidation) (outcome : Outcome Frozen)
        → k ≤ max_retries
        → Feedback k feedback
        → proposer k feedback ≡ proposed proposal
        → check proposal ≡ judged validation
        → validation.accepted ≡ true
        → IsFrozen recheck publish proposal outcome
        → IsEnd max_retries outcome
    rejected :
        (feedback : List PlanViolation) (proposal : Option PlanProposal)
        (validation : PlanValidation)
        → Feedback max_retries feedback
        → turn max_retries feedback ≡ some (proposal, validation)
        → validation.accepted ≡ false
        → IsEnd max_retries (plan_failed validation (suc max_retries))
    failed :
        (k : ℕ) (feedback : List PlanViolation)
        → k ≤ max_retries
        → Feedback k feedback
        → Fails k feedback
        → IsEnd max_retries raised

  turn-none : (k : ℕ) (feedback : List PlanViolation) → turn k feedback ≡ none → Fails k feedback
  unfolding turn
  turn-none k feedback h = called (proposer k feedback) refl
    where
      called : (a : Answer) → proposer k feedback ≡ a → Fails k feedback
      called physical_failure e = provider e
      called (malformed message) e = absurd (ground arith)
      called (proposed proposal) e = validator proposal e (ground arith)

  turn-some :
      (k : ℕ) (feedback : List PlanViolation) (proposal : PlanProposal) (v : PlanValidation)
      → turn k feedback ≡ some (some proposal, v)
      → (proposer k feedback ≡ proposed proposal) × (check proposal ≡ judged v)
  unfolding turn
  turn-some k feedback proposal v h = (ground arith, ground arith)

  turn-malformed :
      (k : ℕ) (feedback : List PlanViolation) (v : PlanValidation)
      → turn k feedback ≡ some (none, v)
      → v.accepted ≡ false
  unfolding turn schema_failure
  turn-malformed k feedback v h = ground arith

  last_call-IsEnd :
      (retries : ℕ) (feedback : List PlanViolation)
      → Feedback retries feedback
      → IsEnd retries (run_from zero retries feedback)
  unfolding run_from
  last_call-IsEnd retries feedback asked = elim (Option-cases (turn retries feedback)) [
    | inl e ↦
        rw (e, run_from)
          (failed retries feedback (omega arith) asked (turn-none retries feedback e))
    | inr ((none, v), e) ↦
        rw (e, run_from) (rejected feedback none v asked e (turn-malformed retries feedback v e))
    | inr ((some p, v), e) ↦
        let (answer, checked) = turn-some retries feedback p v e in
        rw (e, run_from)
          (elim (Bool-cases v.accepted) [
            | inl f ↦ simp f (
                accepted retries feedback p v _ (omega arith) asked answer checked f
                  (freeze-IsFrozen recheck publish p))
            | inr f ↦ simp f (rejected feedback (some p) v asked e f)
          ])
  ]

  run_from-IsEnd :
      (remaining retries : ℕ) (feedback : List PlanViolation)
      → Feedback retries feedback
      → IsEnd (remaining + retries) (run_from remaining retries feedback)
  unfolding run_from
  run_from-IsEnd zero retries feedback asked =
      subst (λ n. IsEnd n (run_from zero retries feedback)) (omega arith)
        (last_call-IsEnd retries feedback asked)
  run_from-IsEnd (suc remaining) retries feedback asked =
      elim (Option-cases (turn retries feedback)) [
        | inl e ↦
            rw (e, run_from)
              (failed retries feedback (omega arith) asked (turn-none retries feedback e))
        | inr ((none, v), e) ↦
            rw (e, run_from)
              (subst (λ n. IsEnd n (run_from remaining (suc retries) v.violations)) (omega arith)
                (run_from-IsEnd remaining (suc retries) v.violations
                  (again none v asked e (turn-malformed retries feedback v e))))
        | inr ((some p, v), e) ↦
            let (answer, checked) = turn-some retries feedback p v e in
            rw (e, run_from)
              (elim (Bool-cases v.accepted) [
                | inl f ↦ simp f (
                    accepted retries feedback p v _ (omega arith) asked answer checked f
                      (freeze-IsFrozen recheck publish p))
                | inr f ↦ simp f (
                    subst (λ n. IsEnd n (run_from remaining (suc retries) v.violations))
                      (omega arith)
                      (run_from-IsEnd remaining (suc retries) v.violations
                        (again (some p) v asked e f)))
              ])
      ]

  -- The loop ends within one call more than the retries, in one of three ways. It freezes a proposal
  -- that a call made and the check accepted, and ends as the freeze does: with the plan built on the
  -- ledger's own validation, which accepted too; with the ledger's rejection; or with an exception of
  -- the ledger's validator or of the building. Or it fails after exactly all its calls with the
  -- rejection of the last. Or an exception of the provider or the check leaves it. Each call has as
  -- feedback the violations of the call before, all of which were rejected, and the first has none.
  pub run-IsEnd : (max_retries : ℕ) → IsEnd max_retries (run max_retries)
  unfolding run
  run-IsEnd max_retries =
      subst (λ n. IsEnd n (run_from max_retries 0 [])) (omega arith)
        (run_from-IsEnd max_retries 0 [] first)
