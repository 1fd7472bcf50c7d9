-- ===== src/Verification/Attempts.antt =====
-- verification/routing.py: the budget of repair attempts after any evidence.
use code_migrator.Base.{
  sym, string_eq, ℕ, ◌≤◌, String, ◌≡◌, refl, false, ◌||◌, List, [], ◌∷◌, arith, ◌==◌, length,
  contains, leb, nat_beq, inl, inr, Bool-cases, ok,
}
use code_migrator.Verification.Routing.{GlobalRepairBudget, new_budget, exhausted, record_evidence}

-- Keys in their order.
unfoldable pub record_all : GlobalRepairBudget → List String → GlobalRepairBudget
unfolding record_evidence
record_all b [] = b
record_all b (key ∷ keys) = record_all (record_evidence b key).0 keys

-- No key twice.
abbrev pub IsDistinct : List String → Type 0
IsDistinct [] = Unit
IsDistinct (key ∷ keys) = (contains key keys ≡ false) × IsDistinct keys

-- Each attempt has a key of its own, and they are no more than the limit.
pub record IsBounded (limit : ℕ) (b : GlobalRepairBudget) : Type 0 where
  pub same_limit : b.max_attempts ≡ limit
  pub one_each : b.attempts ≡ length b.evidence
  pub bounded : b.attempts ≤ limit
  pub distinct : IsDistinct b.evidence

record_evidence-IsBounded :
    (limit : ℕ) (b : GlobalRepairBudget) (key : String)
    → IsBounded limit b
    → IsBounded limit (record_evidence b key).0
unfolding record_evidence exhausted
record_evidence-IsBounded limit b key h = elim (Bool-cases (key == "")) [
  | inl e ↦ rw e h
  | inr e ↦ rw e (elim (Bool-cases (leb b.max_attempts b.attempts || contains key b.evidence)) [
    | inl f ↦ rw f h
    | inr f ↦ rw f (record {
      same_limit = h.same_limit;
      one_each = omega (arith, h.one_each);
      bounded = (let l = h.same_limit in let m = h.bounded in ground arith);
      distinct = (ground arith, h.distinct);
    })
  ])
]

stays-IsBounded :
    (limit : ℕ) (b : GlobalRepairBudget) (keys : List String)
    → IsBounded limit b
    → IsBounded limit (record_all b keys)
unfolding record_all
stays-IsBounded limit b [] h = h
stays-IsBounded limit b (key ∷ keys) h =
    stays-IsBounded limit (record_evidence b key).0 keys (record_evidence-IsBounded limit b key h)

-- Whatever evidence a new budget is given, the attempts stay within its limit, and each has an
-- evidence key of its own: no key is counted twice.
pub record_all-IsBounded :
    (limit : ℕ) (b : GlobalRepairBudget) (keys : List String)
    → new_budget limit ≡ ok b
    → IsBounded limit (record_all b keys)
unfolding new_budget
record_all-IsBounded limit b keys h = elim (Bool-cases (nat_beq limit 0)) [
  | inl e ↦ absurd (ground (arith, rw e at h))
  | inr e ↦
      let made : record { max_attempts = limit; attempts = 0; evidence = [] } ≡ b =
        ground (arith, rw e at h) in
      stays-IsBounded limit b keys (
        rw (sym made)
          (record { same_limit = refl; one_each = refl; bounded = omega arith; distinct = tt }))
]
