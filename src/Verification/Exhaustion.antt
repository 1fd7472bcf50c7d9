-- ===== src/Verification/Exhaustion.antt =====
-- verification/routing.py: enough new evidence exhausts the budget and makes a failure terminal.
use code_migrator.Base.{
  string_eq, ℕ, suc, ◌+◌, ◌≤◌, String, ◌≡◌, refl, subst, sym, Bool, true, false, some, List, [],
  ◌∷◌, arith, ◌==◌, if◌then◌else◌, length, contains, inl, inr, Bool-cases, eq_iff,
}
use code_migrator.Verification.Routing.{
  GlobalRepairBudget, exhausted, record_evidence, classify_terminal_failure, partially_completed,
  failed_terminal,
}
use code_migrator.Verification.Attempts.{record_all, IsDistinct}

-- Keys that are new to the budget, each given once, and none empty.
abbrev pub AreNew : GlobalRepairBudget → List String → Type 0
AreNew b [] = Unit
AreNew b (key ∷ keys) = ((key == "") ≡ false) × (contains key b.evidence ≡ false) × AreNew b keys

-- They stay new when another one is stored.
AreNew-stored :
    (b : GlobalRepairBudget) (key : String) (n : ℕ) (keys : List String)
    → contains key keys ≡ false
    → AreNew b keys
    → AreNew (record b { evidence = key ∷ b.evidence; attempts = n }) keys
unfolding contains
AreNew-stored b key n [] out h = tt
AreNew-stored b key n (k ∷ keys) out (full, new, rest) = (
  full,
  ground (arith, eq_iff key k, eq_iff k key),
  AreNew-stored b key n keys (ground arith) rest,
)

exhausted_step :
    (b : GlobalRepairBudget) (key : String) → exhausted b ≡ true → (record_evidence b key).0 ≡ b
unfolding record_evidence
exhausted_step b key h = elim (Bool-cases (key == "")) [
  | inl e ↦ rw (e, record_evidence) refl
  | inr e ↦ rw (e, h, record_evidence) refl
]

new_step :
    (b : GlobalRepairBudget) (key : String)
    → (key == "") ≡ false
    → contains key b.evidence ≡ false
    → exhausted b ≡ false
    → (record_evidence b key).0
      ≡ record b { evidence = key ∷ b.evidence; attempts = suc b.attempts }
unfolding record_evidence
new_step b key full new h = rw (full, h, new, record_evidence) refl

exhausted-stays :
    (b : GlobalRepairBudget) (keys : List String)
    → exhausted b ≡ true
    → exhausted (record_all b keys) ≡ true
unfolding record_all
exhausted-stays b [] h = h
exhausted-stays b (key ∷ keys) h =
    subst (λ c. exhausted (record_all c keys) ≡ true) (sym (exhausted_step b key h))
      (exhausted-stays b keys h)

new_keys-exhaust :
    (b : GlobalRepairBudget) (keys : List String)
    → AreNew b keys
    → IsDistinct keys
    → b.max_attempts ≤ b.attempts + length keys
    → exhausted (record_all b keys) ≡ true
unfolding record_all exhausted
new_keys-exhaust b [] new distinct enough = ground arith
new_keys-exhaust b (key ∷ keys) (full, new, rest) distinct enough =
    elim (Bool-cases (exhausted b)) [
      | inl e ↦ exhausted-stays b (key ∷ keys) e
      | inr e ↦
          let c : GlobalRepairBudget = record b {
            evidence = key ∷ b.evidence;
            attempts = suc b.attempts;
          } in
          subst (λ x. exhausted (record_all x keys) ≡ true) (sym (new_step b key full new e))
            (new_keys-exhaust c keys (AreNew-stored b key (suc b.attempts) keys distinct.0 rest)
              distinct.1 (omega arith))
    ]

-- Where a budget is given at least as many keys as it has attempts left, all of them new to it,
-- different and not empty, it is exhausted afterwards: a failure is then terminal, partially
-- completed for an independent slice and failed for any other.
pub new_evidence-terminal :
    (b : GlobalRepairBudget) (keys : List String) (independent : Bool)
    → AreNew b keys
    → IsDistinct keys
    → b.max_attempts ≤ b.attempts + length keys
    → classify_terminal_failure independent (some (record_all b keys))
      ≡ (if independent then partially_completed else failed_terminal)
unfolding classify_terminal_failure
new_evidence-terminal b keys independent new distinct enough =
    let e = new_keys-exhaust b keys new distinct enough in rw (e, classify_terminal_failure) refl
