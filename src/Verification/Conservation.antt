-- ===== src/Verification/Conservation.antt =====
-- verification/routing.py: structural conservation, its use as a third signal, the completeness of
-- the collected tests, and parity. `sorted(set(keys), key=...)` is a parameter `sorted_set`, and so
-- are the quotients of counts and their order, which are floating-point in the source.
use code_migrator.Base.{
  string_eq, ℕ, zero, suc, String, Bool, true, false, not, ◌&&◌, ◌||◌, Option, none, some, List, [],
  ◌∷◌, ◌++◌, ◌==◌, if◌then◌else◌, any, map, get, get_or, ltb,
}

-- The keys of a mapping.
abbrev pub names {ℓ} : {V : Type ℓ} → List (String × V) → List String
names [] = []
names ((k, v) ∷ d) = k ∷ names d

pub record CollectionCompleteness : Type 0 where
  pub module_name : String
  pub source_tests : ℕ
  pub target_tests : ℕ
  pub suspicious : Bool

unfoldable pub check_collection_completeness :
    (List String → List String)
    → List (String × ℕ)
    → List (String × ℕ)
    → List CollectionCompleteness
check_collection_completeness sorted_set source target =
    map
      (λ m. record {
        module_name = m;
        source_tests = get_or 0 (get m source);
        target_tests = get_or 0 (get m target);
        suspicious = ltb (get_or 0 (get m target)) (get_or 0 (get m source));
      })
      (sorted_set (names source ++ names target))

abbrev pub is_some {ℓ} : {A : Type ℓ} → Option A → Bool
is_some none = false
is_some (some a) = true

-- `bool(flag)` of an optional flag.
abbrev pub is_set : Option Bool → Bool
is_set none = false
is_set (some b) = b

-- `count in (None, 0)`
abbrev pub is_absent : Option ℕ → Bool
is_absent none = true
is_absent (some zero) = true
is_absent (some (suc n)) = false

module _ (Float : Type 0) (divide : ℕ → ℕ → Float) (at_most : Float → Float → Bool) where
  pub record ModuleConservation : Type 0 where
    pub module_name : String
    pub test_ratio : Option Float
    pub assertion_ratio : Option Float
    pub loc_ratio : Option Float
    pub outlier : Bool
    pub source_test_count : Option ℕ
    pub source_assertion_count : Option ℕ
    pub source_loc_count : Option ℕ
    pub target_test_count : ℕ
    pub target_assertion_count : ℕ
    pub target_loc_count : ℕ
    pub test_outlier : Option Bool
    pub assertion_outlier : Option Bool
    pub loc_outlier : Option Bool

  unfoldable pub ratio : ℕ → Option ℕ → Option Float
  ratio target none = none
  ratio target (some zero) = none
  ratio target (some (suc n)) = some (divide target (suc n))

  -- `ratio is not None and not low <= ratio <= high`
  unfoldable pub is_outlier : Float → Float → Option Float → Bool
  is_outlier low high none = false
  is_outlier low high (some r) = not (at_most low r && at_most r high)

  unfoldable pub module_conservation :
      Float → Float → String → Option ℕ × Option ℕ × Option ℕ → ℕ × ℕ × ℕ → ModuleConservation
  module_conservation low high m (s, t, u) (x, y, z) =
      let a = ratio x s in
      let b = ratio y t in
      let c = ratio z u in
      record {
        module_name = m;
        test_ratio = a;
        assertion_ratio = b;
        loc_ratio = c;
        outlier = is_outlier low high a || is_outlier low high b || is_outlier low high c;
        source_test_count = s;
        source_assertion_count = t;
        source_loc_count = u;
        target_test_count = x;
        target_assertion_count = y;
        target_loc_count = z;
        test_outlier = some (is_outlier low high a);
        assertion_outlier = some (is_outlier low high b);
        loc_outlier = some (is_outlier low high c);
      }

  unfoldable pub structural_conservation :
      (List String → List String)
      → List (String × (Option ℕ × Option ℕ × Option ℕ))
      → List (String × (ℕ × ℕ × ℕ))
      → Float × Float
      → List ModuleConservation
  structural_conservation sorted_set source target (low, high) =
      map
        (λ m.
          module_conservation low high m (get_or (some 0, some 0, some 0) (get m source))
            (get_or (0, 0, 0) (get m target)))
        (sorted_set (names source ++ names target))

  unfoldable pub has_outlier : List ModuleConservation → Bool
  has_outlier facts = any (λ item. item.outlier) facts

  unfoldable pub has_comparable_baseline : List ModuleConservation → Bool
  has_comparable_baseline facts =
      any
        (λ item. is_some item.test_ratio || is_some item.assertion_ratio || is_some item.loc_ratio)
        facts

  unfoldable pub has_test_or_assertion_outlier : List ModuleConservation → Bool
  has_test_or_assertion_outlier facts =
      any
        (λ item.
          if is_some item.test_outlier || is_some item.assertion_outlier
          then is_set item.test_outlier || is_set item.assertion_outlier
          else item.outlier && (is_some item.test_ratio || is_some item.assertion_ratio))
        facts

  unfoldable pub zero_baseline_modules : List ModuleConservation → List String
  zero_baseline_modules [] = []
  zero_baseline_modules (item ∷ rest) =
      let others = zero_baseline_modules rest in
      if is_absent item.source_test_count
        || is_absent item.source_assertion_count
        || is_absent item.source_loc_count
      then item.module_name ∷ others
      else others

  pub data ConservationDecision : Type 0 where
    test_translation : String → ConservationDecision
    implementation : String → ConservationDecision
    to_supervisor : ConservationDecision

  abbrev pub is_empty : List ModuleConservation → Bool
  is_empty [] = true
  is_empty (item ∷ rest) = false

  unfoldable pub assist_ambiguous_failure :
      Option (List ModuleConservation) → String → String → ConservationDecision
  assist_ambiguous_failure none test_slice implementation_slice = to_supervisor
  assist_ambiguous_failure (some facts) test_slice implementation_slice =
      if is_empty facts || not (has_comparable_baseline facts)
      then to_supervisor
      else if has_test_or_assertion_outlier facts
      then test_translation test_slice
      else implementation implementation_slice

pub record ParityResult : Type 0 where
  pub scenario_id : String
  pub passed : Bool
  pub diff_summary : String

pub record ParityEvidence : Type 0 where
  pub available : Bool
  pub results : List ParityResult
  pub disclosure : Option String

-- Both summaries are there and equal.
unfoldable pub same_summary : List (String × String) → List (String × String) → String → Bool
same_summary source target id = elim (get id source) [
  | none ↦ false
  | some a ↦ elim (get id target) [ none ↦ false | some b ↦ a == b ]
]

abbrev pub parity_result : List (String × String) → List (String × String) → String → ParityResult
parity_result source target id = record {
  scenario_id = id;
  passed = same_summary source target id;
  diff_summary =
      if same_summary source target id then "equal" else "source and target summaries differ";
}

abbrev pub unavailable : ParityEvidence
unavailable = record { available = false; results = []; disclosure = some "parity_unavailable" }

unfoldable pub parity_compare :
    (List String → List String)
    → List String
    → Option (List (String × String))
    → Option (List (String × String))
    → Option String
    → ParityEvidence
parity_compare sorted_set [] source target image = unavailable
parity_compare sorted_set ids none target image = unavailable
parity_compare sorted_set ids (some source) none image = unavailable
parity_compare sorted_set ids (some source) (some target) none = unavailable
parity_compare sorted_set (id ∷ ids) (some source) (some target) (some image) = record {
  available = true;
  results = map (parity_result source target) (sorted_set (id ∷ ids));
  disclosure = none;
}
