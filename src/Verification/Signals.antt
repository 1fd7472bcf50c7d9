-- ===== src/Verification/Signals.antt =====
-- verification/routing.py: what a structural outlier says.
use code_migrator.Base.{
  string_eq, ℕ, zero, suc, String, ◌≡◌, refl, ◌∙◌, Bool, true, false, not, ◌||◌, ◌&&◌,
  if◌then◌else◌, Option, none, some, List, [], ◌∷◌, ◌++◌, any, map, Bool-cases, inl, inr, get,
  get_or,
}
use code_migrator.Verification.Conservation.{
  names, is_absent, is_set, ModuleConservation, is_some, ratio, is_outlier, module_conservation,
  structural_conservation, has_comparable_baseline, has_test_or_assertion_outlier,
  ConservationDecision, test_translation, implementation, to_supervisor, assist_ambiguous_failure,
}

module _ (Float : Type 0) (divide : ℕ → ℕ → Float) (at_most : Float → Float → Bool) where
  -- What the source counts say of a module: whether one of them is there and positive, and whether
  -- its tests or its assertions are outside the bounds.
  abbrev pub is_counted : Option ℕ × Option ℕ × Option ℕ → Bool
  is_counted (s, t, u) = not (is_absent s) || not (is_absent t) || not (is_absent u)

  abbrev pub is_lost : Float → Float → Option ℕ × Option ℕ × Option ℕ → ℕ × ℕ × ℕ → Bool
  is_lost low high (s, t, u) (x, y, z) =
      is_outlier Float divide at_most low high (ratio Float divide at_most x s)
      || is_outlier Float divide at_most low high (ratio Float divide at_most y t)

  -- Who is given an ambiguous failure: nobody where no module can be compared.
  abbrev pub given_to : Bool → Bool → String → String → ConservationDecision Float divide at_most
  given_to false lost t i = to_supervisor
  given_to true true t i = test_translation t
  given_to true false t i = implementation i

  given_to-cong :
      (a b c d : Bool) (t i : String) → a ≡ b → c ≡ d → given_to a c t i ≡ given_to b d t i
  given_to-cong a b c d t i e f = cc

  ratio-is_some :
      (target : ℕ) (source : Option ℕ)
      → is_some (ratio Float divide at_most target source) ≡ not (is_absent source)
  unfolding ratio
  ratio-is_some target none = refl
  ratio-is_some target (some zero) = refl
  ratio-is_some target (some (suc n)) = refl

  abbrev is_comparable : ModuleConservation Float divide at_most → Bool
  is_comparable item =
      is_some item.test_ratio || is_some item.assertion_ratio || is_some item.loc_ratio

  abbrev loses : ModuleConservation Float divide at_most → Bool
  loses item =
      if is_some item.test_outlier || is_some item.assertion_outlier
      then is_set item.test_outlier || is_set item.assertion_outlier
      else item.outlier && (is_some item.test_ratio || is_some item.assertion_ratio)

  module-is_comparable :
      (low high : Float) (m : String) (source : Option ℕ × Option ℕ × Option ℕ) (target : ℕ × ℕ × ℕ)
      → is_comparable (module_conservation Float divide at_most low high m source target)
        ≡ is_counted source
  unfolding module_conservation
  module-is_comparable low high m (s, t, u) (x, y, z) =
      rw (ratio-is_some x s, ratio-is_some y t, ratio-is_some z u) refl

  module-loses :
      (low high : Float) (m : String) (source : Option ℕ × Option ℕ × Option ℕ) (target : ℕ × ℕ × ℕ)
      → loses (module_conservation Float divide at_most low high m source target)
        ≡ is_lost low high source target
  unfolding module_conservation
  module-loses low high m (s, t, u) (x, y, z) = refl

  any-map {ℓ} :
      {A : Type ℓ} (f : String → A) (p : A → Bool) (q : String → Bool) (ms : List String)
      → ((m : String) → p (f m) ≡ q m)
      → any p (map f ms) ≡ any q ms
  any-map f p q [] h = refl
  any-map f p q (m ∷ ms) h = rw (h m, any-map f p q ms h) refl

  facts-decide :
      (facts : List (ModuleConservation Float divide at_most)) (t i : String)
      → assist_ambiguous_failure Float divide at_most (some facts) t i
        ≡ given_to (any is_comparable facts) (any loses facts) t i
  unfolding assist_ambiguous_failure has_comparable_baseline has_test_or_assertion_outlier
  facts-decide [] t i = refl
  facts-decide (item ∷ rest) t i = elim (Bool-cases (any is_comparable (item ∷ rest))) [
    | inr e ↦ rw e refl
    | inl e ↦ elim (Bool-cases (any loses (item ∷ rest))) [
      | inl k ↦ rw (e, k) refl
      | inr k ↦ rw (e, k) refl
    ]
  ]

  -- The facts computed from source and target counts decide an ambiguous failure by the counts
  -- alone: it goes to the supervisor where no module has a positive source count; else to the test
  -- slice where the ratio of the tests or of the assertions of some module is outside the bounds;
  -- and else to the implementation slice. This holds for every division and order of the ratios and
  -- every order of the modules.
  pub conservation-decides :
      (sorted_set : List String → List String)
      (source : List (String × (Option ℕ × Option ℕ × Option ℕ)))
      (target : List (String × (ℕ × ℕ × ℕ))) (low high : Float) (t i : String)
      → assist_ambiguous_failure Float divide at_most
          (some (structural_conservation Float divide at_most sorted_set source target (low, high)))
          t
          i
        ≡ given_to
            (any
              (λ m. is_counted (get_or (some 0, some 0, some 0) (get m source)))
              (sorted_set (names source ++ names target)))
            (any
              (λ m.
                is_lost low high
                  (get_or (some 0, some 0, some 0) (get m source))
                  (get_or (0, 0, 0) (get m target)))
              (sorted_set (names source ++ names target)))
            t
            i
  unfolding structural_conservation
  conservation-decides sorted_set source target low high t i =
      let ms = sorted_set (names source ++ names target) in
      let counts : String → Option ℕ × Option ℕ × Option ℕ =
        λ m. get_or (some 0, some 0, some 0) (get m source) in
      let collected : String → ℕ × ℕ × ℕ = λ m. get_or (0, 0, 0) (get m target) in
      let fact : String → ModuleConservation Float divide at_most =
        λ m. module_conservation Float divide at_most low high m (counts m) (collected m) in
      let compared : any is_comparable (map fact ms) ≡ any (λ m. is_counted (counts m)) ms =
        any-map fact is_comparable (λ m. is_counted (counts m)) ms
          (λ m. module-is_comparable low high m (counts m) (collected m)) in
      let lost : any loses (map fact ms) ≡ any (λ m. is_lost low high (counts m) (collected m)) ms =
        any-map fact loses (λ m. is_lost low high (counts m) (collected m)) ms
          (λ m. module-loses low high m (counts m) (collected m)) in
      facts-decide (map fact ms) t i ∙ given_to-cong _ _ _ _ t i compared lost
