-- ===== src/Planning/Targets.antt =====
-- planning/validator.py: the targets and the sources of the slices of an accepted plan.
use code_migrator.Base.{
  nat_eq, list_eq, ℕ, String, ◌≡◌, refl, ap, sym, ◌⊎◌, inl, inr, Bool, true, not, Option, none,
  some, List, [], ◌∷◌, ◌++◌, arith, ◌==◌, any, keep, Bool-cases, Option-cases, Text, In, here,
  there,
}
use code_migrator.Base.Texts.{list_beq_iff}
use code_migrator.Base.Loops.{append-empty, collect, collect-empty}
use code_migrator.Planning.Proposal.{
  SliceKind, ModuleRole, source, test, role_beq, PlanSliceProposal, PlanProposal, ModuleFact,
  PlanningLimits, PlanningInputs, Segment, contract, implementation, test_translation,
  test_generation, TargetProjectBlueprint,
}
use code_migrator.Planning.Paths.{scope_includes_path}
use code_migrator.Planning.Scopes.{
  path_is_in_root, allowed_prefixes, check_blueprint, validate_blueprint,
}
use code_migrator.Planning.Coverage.{
  module_at, expected_role, check_role, out_of_scope, check_module, validate_slice_modules,
}
use code_migrator.Planning.Validator.{validate}
use code_migrator.Planning.Accepted.{accepted-IsClean, report-empty}

-- The targets of a slice, each in one of the prefixes.
checked-inside :
    (re_search : String → Text → Option Text) (prefixes : List Text) (i : ℕ) (s : PlanSliceProposal)
    (p : Text)
    → check_blueprint re_search prefixes i s ≡ []
    → In p (s.write_paths ++ s.create_roots)
    → any (λ prefix. path_is_in_root p prefix) prefixes ≡ true
unfolding check_blueprint
checked-inside re_search prefixes i s p h m =
    let (j, e) = collect-empty _ 0 m h in
    let r = report-empty (not (any (λ prefix. path_is_in_root p prefix) prefixes)) _ e in
    ground arith

blueprint-inside :
    (re_search : String → Text → Option Text) (proposal : PlanProposal)
    (blueprint : TargetProjectBlueprint) (prefixes : List Text) (s : PlanSliceProposal) (p : Text)
    → validate_blueprint re_search proposal blueprint ≡ []
    → allowed_prefixes re_search blueprint ≡ prefixes
    → In s proposal.slices
    → In p (s.write_paths ++ s.create_roots)
    → (prefixes ≡ []) ⊎ (any (λ prefix. path_is_in_root p prefix) prefixes ≡ true)
unfolding validate_blueprint
blueprint-inside re_search proposal blueprint [] s p h same ms mp = inl refl
blueprint-inside re_search proposal blueprint (q ∷ qs) s p h same ms mp =
    let clean = rw (same, validate_blueprint) at h in
    let (i, e) = collect-empty (check_blueprint re_search (q ∷ qs)) 0 ms clean in
    inr (checked-inside re_search (q ∷ qs) i s p e mp)

-- Each write path and create root of an accepted plan is one of the blueprint's target prefixes or
-- lies below one, where the blueprint gives any, for every search of the layout principles.
pub accepted-inside_blueprint :
    (re_search : String → Text → Option Text) (own : Option PlanningLimits)
    (proposal : PlanProposal) (inputs : PlanningInputs) (s : PlanSliceProposal) (p : Text)
    → (validate re_search own proposal inputs).accepted ≡ true
    → In s proposal.slices
    → In p (s.write_paths ++ s.create_roots)
    → (allowed_prefixes re_search inputs.target_project_blueprint ≡ [])
      ⊎ (any
            (λ prefix. path_is_in_root p prefix)
            (allowed_prefixes re_search inputs.target_project_blueprint)
          ≡ true)
accepted-inside_blueprint re_search own proposal inputs s p h ms mp =
    blueprint-inside re_search proposal inputs.target_project_blueprint _ s p
      (accepted-IsClean re_search own proposal inputs h).blueprint refl ms mp

-- A module that suits a slice: it has the role of the slice's kind, and all its files are in scope.
pub record Suits (inputs : PlanningInputs) (kind : SliceKind) (fact : ModuleFact) : Type 0 where
  pub has_role : (expected_role kind ≡ none) ⊎ (expected_role kind ≡ some fact.role)
  pub in_scope : (p : Text) → In p fact.file_paths → scope_includes_path inputs.scope p ≡ true

role_beq_sound : (a b : ModuleRole) → role_beq a b ≡ true → a ≡ b
role_beq_sound a b h = ground arith

role_suits :
    (pointer : List Segment) (kind : SliceKind) (fact : ModuleFact)
    → check_role pointer kind fact ≡ []
    → (expected_role kind ≡ none) ⊎ (expected_role kind ≡ some fact.role)
role_suits pointer contract fact h = inl refl
role_suits pointer implementation fact h = inr (
    ap some (
      sym (
        role_beq_sound fact.role source
          (ground (arith, report-empty (not (role_beq fact.role source)) _ h)))))
role_suits pointer test_translation fact h = inr (
    ap some (
      sym (
        role_beq_sound fact.role test
          (ground (arith, report-empty (not (role_beq fact.role test)) _ h)))))
role_suits pointer test_generation fact h = inr (
    ap some (
      sym (
        role_beq_sound fact.role source
          (ground (arith, report-empty (not (role_beq fact.role source)) _ h)))))

nothing_kept :
    (q : Text → Bool) (ps : List Text) (p : Text)
    → keep (λ x. not (q x)) ps ≡ []
    → In p ps
    → q p ≡ true
nothing_kept q [] p h m = elim m [ ]
nothing_kept q (x ∷ ps) p h here = ground (arith, Bool-cases (q x))
nothing_kept q (x ∷ ps) p h (there m) = elim (Bool-cases (q x)) [
  | inl e ↦ nothing_kept q ps p (ground (arith, rw e at h)) m
  | inr e ↦ absurd (ground (arith, rw e at h))
]

checked-Suits :
    (inputs : PlanningInputs) (i : ℕ) (kind : SliceKind) (j : ℕ) (m : Text)
    → check_module inputs i kind j m ≡ []
    → (fact : ModuleFact) × (module_at inputs.analysis.modules m ≡ some fact)
      × Suits inputs kind fact
unfolding check_module out_of_scope
checked-Suits inputs i kind j m h = elim (Option-cases (module_at inputs.analysis.modules m)) [
  | inl e ↦ absurd (ground (arith, rw (e, check_module) at h))
  | inr (fact, e) ↦
      let clean = rw (e, check_module) at h in
      let (front, last) = append-empty _ _ clean in
      let (role, scope) = append-empty _ _ front in
      let files = report-empty (not (out_of_scope inputs fact == [])) _ scope in
      (
        fact,
        e,
        record {
          has_role = role_suits _ kind fact role;
          in_scope = λ p k.
              nothing_kept (λ x. scope_includes_path inputs.scope x) fact.file_paths p
                (ground (arith, list_beq_iff (out_of_scope inputs fact) [])) k;
        },
      )
]

-- Each source module of each slice of an accepted plan is a module of the analysis, has the role
-- that the slice's kind asks for, if it asks for one, and has no file outside the migration scope.
pub accepted-Suits :
    (re_search : String → Text → Option Text) (own : Option PlanningLimits)
    (proposal : PlanProposal) (inputs : PlanningInputs) (s : PlanSliceProposal) (m : Text)
    → (validate re_search own proposal inputs).accepted ≡ true
    → In s proposal.slices
    → In m s.source_modules
    → (fact : ModuleFact) × (module_at inputs.analysis.modules m ≡ some fact)
      × Suits inputs s.kind fact
unfolding validate_slice_modules
accepted-Suits re_search own proposal inputs s m h ms mm =
    let clean = (accepted-IsClean re_search own proposal inputs h).slice_modules in
    let (i, e) =
      collect-empty (λ i s. collect (check_module inputs i s.kind) 0 s.source_modules) 0 ms clean in
    let (j, f) = collect-empty (check_module inputs i s.kind) 0 mm e in
    checked-Suits inputs i s.kind j m f
