-- ===== src/Verification/Examples.antt =====
-- A compile failure and its route, and the theorems on routes, attempts and signals.
use code_migrator.Base.{
  arith, string_eq, ℕ, suc, ◌*◌, String, ◌≡◌, refl, Bool, true, false, Option, none, some, List, [],
  ◌∷◌, leb, contains, get, put,
}
use code_migrator.Verification.Routing.{
  failed, compile, reliable, reduce_failure, build_repair_evidence, choose_failure_route,
  new_budget, classify_terminal_failure, failed_terminal, GlobalRepairBudget,
}
use code_migrator.Verification.Conservation.{
  ratio, is_outlier, structural_conservation, assist_ambiguous_failure, test_translation,
}
use code_migrator.Verification.Routes.{IsStaticFailure, IsDirect, direct_regeneration-justified}
use code_migrator.Verification.Attempts.{record_all, IsBounded, record_all-IsBounded}
use code_migrator.Verification.Exhaustion.{new_evidence-terminal}
use code_migrator.Verification.Signals.{conservation-decides}

abbrev as_given : List String → List String
as_given xs = xs

direct_regeneration-justified_example :
    IsStaticFailure failed compile "LOCAL" 0
    × IsDirect "s1" 1 (as_given ("s1" ∷ [])) reliable false false 0 true
    × (suc 0 ≡ suc 0)
unfolding choose_failure_route build_repair_evidence reduce_failure contains get put
direct_regeneration-justified_example =
    direct_regeneration-justified as_given ("s1" ∷ []) reliable false false [] 0 true 1 failed
      compile "LOCAL" 0 "s1" 1 refl

abbrev two_attempts : GlobalRepairBudget
two_attempts = record { max_attempts = 2; attempts = 0; evidence = [] }

record_all-IsBounded_example : IsBounded 2 (record_all two_attempts ("a" ∷ "b" ∷ "a" ∷ "c" ∷ []))
unfolding new_budget
record_all-IsBounded_example = record_all-IsBounded 2 two_attempts ("a" ∷ "b" ∷ "a" ∷ "c" ∷ []) refl

new_evidence-terminal_example :
    classify_terminal_failure false (some (record_all two_attempts ("a" ∷ "b" ∷ [])))
    ≡ failed_terminal
unfolding contains
new_evidence-terminal_example =
    new_evidence-terminal two_attempts ("a" ∷ "b" ∷ []) false ((refl, refl, (refl, refl, tt)))
      (refl, (refl, tt)) (omega arith)

abbrev Ratio : Type 0
Ratio = ℕ × ℕ

abbrev over : ℕ → ℕ → Ratio
over a b = (a, b)

abbrev at_most : Ratio → Ratio → Bool
at_most (a, b) (c, d) = leb (a * d) (c * b)

abbrev source_counts : List (String × (Option ℕ × Option ℕ × Option ℕ))
source_counts = ("m", (some 10, some 20, none)) ∷ []

abbrev target_counts : List (String × (ℕ × ℕ × ℕ))
target_counts = ("m", (2, 20, 80)) ∷ []

conservation-decides_example :
    assist_ambiguous_failure Ratio over at_most
      (some (
        structural_conservation Ratio over at_most as_given source_counts target_counts
          ((1, 2), (2, 1))))
      "tests"
      "code"
    ≡ test_translation "tests"
unfolding ratio is_outlier get
conservation-decides_example =
    conservation-decides Ratio over at_most as_given source_counts target_counts (1, 2) (2, 1)
      "tests" "code"
