-- ===== src/Planning/Covered.antt =====
-- planning/validator.py: each file in scope belongs to exactly one slice of an accepted plan.
use code_migrator.Base.{
  nat_eq, list_eq, String, ◌≡◌, refl, subst, ap, sym, ◌∙◌, true, Option, none, some, List, [], ◌∷◌,
  ◌++◌, arith, ◌==◌, if◌then◌else◌, inl, inr, Bool-cases, Option-cases, Text, contains, get, put,
  get-put, In,
}
use mathlib.Core.List.{append-nil, append_assoc}
use code_migrator.Base.Texts.{list_beq_iff}
use code_migrator.Base.Loops.{collect-empty, contains-In}
use code_migrator.Base.Search.{In-unique, In-sorted}
use code_migrator.Planning.Proposal.{
  PlanSliceProposal, PlanProposal, ModuleFact, PlanningLimits, PlanningInputs,
}
use code_migrator.Planning.Coverage.{
  module_at, in_scope_source_files, Owners, owners_of, cover_files, cover_modules, covers,
  cover_slices, actual_coverage, check_owners, validate_coverage,
}
use code_migrator.Planning.Validator.{validate}
use code_migrator.Planning.Accepted.{accepted-IsClean}

-- A reference for each time that a path is listed.
unfoldable pub times_listed : Text → Text → List Text → List Text
times_listed p r [] = []
times_listed p r (q ∷ qs) = let rest = times_listed p r qs in if q == p then r ∷ rest else rest

-- The references of the slices that cover a path, once for each module's file that is the path.
unfoldable pub coverers_in : Text → List ModuleFact → Text → List Text → List Text
unfolding times_listed
coverers_in p modules r [] = []
coverers_in p modules r (m ∷ ms) =
    elim (module_at modules m) [ none ↦ [] | some fact ↦ times_listed p r fact.file_paths ]
    ++ coverers_in p modules r ms

unfoldable pub coverers : Text → List ModuleFact → List PlanSliceProposal → List Text
unfolding coverers_in
coverers p modules [] = []
coverers p modules (s ∷ rest) =
    (if covers s.kind then coverers_in p modules s.local_ref s.source_modules else [])
    ++ coverers p modules rest

owners_of-put :
    (k p : Text) (v : List Text) (d : Owners)
    → owners_of (put k v d) p ≡ (if k == p then v else owners_of d p)
owners_of-put k p v d = ground (arith, get-put k p v d)

module _ (expected : List Text) (modules : List ModuleFact) (p : Text)
    (wanted : contains p expected ≡ true) where
  files-owners :
      (r : Text) (ps : List Text) (d : Owners)
      → owners_of (cover_files expected r ps d) p ≡ owners_of d p ++ times_listed p r ps
  unfolding cover_files times_listed
  files-owners r [] d = sym (append-nil (owners_of d p))
  files-owners r (q ∷ qs) d = elim (Bool-cases (q == p)) [
    | inl e ↦
        let same : q ≡ p = (list_beq_iff q p).0 e in
        let q_wanted : contains q expected ≡ true =
          subst (λ x. contains x expected ≡ true) (sym same) wanted in
        let d' = put q (owners_of d q ++ r ∷ []) d in
        let first : owners_of d' p ≡ owners_of d p ++ r ∷ [] =
          owners_of-put q p _ d ∙ rw e (ap (λ x. owners_of d x ++ r ∷ []) same) in
        rw (q_wanted, e)
          (files-owners r qs d'
            ∙ ap (λ o. o ++ times_listed p r qs) first
            ∙ append_assoc (owners_of d p) (r ∷ []) (times_listed p r qs))
    | inr e ↦ elim (Bool-cases (contains q expected)) [
      | inl w ↦
          let d' = put q (owners_of d q ++ r ∷ []) d in
          let first : owners_of d' p ≡ owners_of d p = owners_of-put q p _ d ∙ rw e refl in
          rw (w, e) (files-owners r qs d' ∙ ap (λ o. o ++ times_listed p r qs) first)
      | inr w ↦ rw (w, e) (files-owners r qs d)
    ]
  ]

  modules-owners :
      (r : Text) (ms : List Text) (d : Owners)
      → owners_of (cover_modules expected modules r ms d) p
        ≡ owners_of d p ++ coverers_in p modules r ms
  unfolding cover_modules coverers_in
  modules-owners r [] d = sym (append-nil (owners_of d p))
  modules-owners r (m ∷ ms) d = elim (Option-cases (module_at modules m)) [
    | inl e ↦ rw (e, cover_modules, coverers_in) (modules-owners r ms d)
    | inr (fact, e) ↦
        rw (e, cover_modules, coverers_in)
          (modules-owners r ms (cover_files expected r fact.file_paths d)
            ∙ ap (λ o. o ++ coverers_in p modules r ms) (files-owners r fact.file_paths d)
            ∙ append_assoc (owners_of d p) (times_listed p r fact.file_paths)
                (coverers_in p modules r ms))
  ]

  slices-owners :
      (slices : List PlanSliceProposal) (d : Owners)
      → owners_of (cover_slices expected modules slices d) p
        ≡ owners_of d p ++ coverers p modules slices
  unfolding cover_slices coverers
  slices-owners [] d = sym (append-nil (owners_of d p))
  slices-owners (s ∷ rest) d = elim (Bool-cases (covers s.kind)) [
    | inl e ↦ rw e (
        slices-owners rest (cover_modules expected modules s.local_ref s.source_modules d)
        ∙ ap (λ o. o ++ coverers p modules rest) (modules-owners s.local_ref s.source_modules d)
        ∙ append_assoc (owners_of d p) (coverers_in p modules s.local_ref s.source_modules)
            (coverers p modules rest))
    | inr e ↦ rw e (slices-owners rest d)
  ]

one_owner :
    (p : Text) (owners : List Text) → check_owners p owners ≡ [] → (r : Text) × (owners ≡ r ∷ [])
unfolding check_owners
one_owner p [] h = absurd (ground arith)
one_owner p (r ∷ []) h = (r, refl)
one_owner p (r ∷ s ∷ rest) h = absurd (ground arith)

-- Every file of a module that is in the migration scope and is no artifact is covered by exactly
-- one slice of an accepted plan: of the slices that implement or translate tests, one names, and
-- once, a module that has the file.
pub accepted-covered_once :
    (re_search : String → Text → Option Text) (own : Option PlanningLimits)
    (proposal : PlanProposal) (inputs : PlanningInputs) (p : Text)
    → (validate re_search own proposal inputs).accepted ≡ true
    → In p (in_scope_source_files inputs)
    → (r : Text) × (coverers p inputs.analysis.modules proposal.slices ≡ r ∷ [])
unfolding validate_coverage actual_coverage coverers get
accepted-covered_once re_search own proposal inputs p h m =
    let clean = accepted-IsClean re_search own proposal inputs h in
    let (j, e) = collect-empty _ 0 (In-sorted (In-unique m)) clean.coverage in
    let (r, single) = one_owner p _ e in
    (
      r,
      sym (
            slices-owners (in_scope_source_files inputs) inputs.analysis.modules p
              (contains-In p (in_scope_source_files inputs) m) proposal.slices [])
          ∙ single,
    )
