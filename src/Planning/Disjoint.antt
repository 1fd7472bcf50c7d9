-- ===== src/Planning/Disjoint.antt =====
-- planning/validator.py: what `_scopes_overlap` decides, and that no path belongs to two slices.
use code_migrator.Base.{
  nat_eq, list_eq, ℕ, zero, suc, ◌<◌, String, ◌≡◌, refl, subst, Bool, true, false, ◌||◌, Option,
  some, List, [], ◌∷◌, arith, any, inl, inr, Bool-cases, Text, starts_with, contains, get_elem?, In,
}
use code_migrator.Base.Loops.{append-empty, collect-empty}
use code_migrator.Base.Search.{any-false, any-true, In-contains, get_elem?-In}
use code_migrator.Planning.Proposal.{
  PlanSliceProposal, PlanProposal, PlanningLimits, PlanningInputs,
}
use code_migrator.Planning.Scopes.{
  path_is_in_root, scopes_overlap, slices_overlap, check_pairs, conflicts_from,
  validate_scope_conflicts,
}
use code_migrator.Planning.Validator.{validate}
use code_migrator.Planning.Accepted.{accepted-IsClean, report-empty}

-- A path that a scope of paths and roots lets a slice write.
unfoldable pub is_writable : List Text → List Text → Text → Bool
unfolding path_is_in_root
is_writable paths roots p = contains p paths || any (λ r. path_is_in_root p r) roots

-- Two roots of one path: one lies in the other.
roots_of_path :
    (p l r : Text)
    → path_is_in_root p l ≡ true
    → path_is_in_root p r ≡ true
    → (path_is_in_root l r || path_is_in_root r l) ≡ true
unfolding path_is_in_root starts_with
roots_of_path p [] [] hl hr = refl
roots_of_path [] (a ∷ l) r hl hr = absurd (ground arith)
roots_of_path [] [] (b ∷ r) hl hr = absurd (ground arith)
roots_of_path (c ∷ p) [] (b ∷ r) hl hr = ground arith
roots_of_path (c ∷ p) (a ∷ l) [] hl hr = ground arith
roots_of_path (c ∷ p) (a ∷ l) (b ∷ r) hl hr = ground (arith, roots_of_path p l r)

not_true : (b : Bool) → (b ≡ true → b ≡ false) → b ≡ false
not_true true f = f refl
not_true false f = refl

-- The four ways to overlap, each excluded.
record IsApart (lp lr rp rr : List Text) : Type 0 where
  paths : any (λ p. contains p rp) lp ≡ false
  left_in : any (λ p. any (λ r. path_is_in_root p r) rr) lp ≡ false
  right_in : any (λ p. any (λ r. path_is_in_root p r) lr) rp ≡ false
  roots : any (λ l. any (λ r. path_is_in_root l r || path_is_in_root r l) rr) lr ≡ false

overlap-IsApart :
    (lp lr rp rr : List Text) → scopes_overlap lp lr rp rr ≡ false → IsApart lp lr rp rr
unfolding scopes_overlap
overlap-IsApart lp lr rp rr h = record {
  paths = ground arith;
  left_in = ground arith;
  right_in = ground arith;
  roots = ground arith;
}

module _ (lp lr rp rr : List Text) (p : Text) (h : IsApart lp lr rp rr) where
  listed : In p lp → is_writable rp rr p ≡ false
  unfolding is_writable
  listed m =
      let one : contains p rp ≡ false = any-false (λ q. contains q rp) m h.paths in
      let two : any (λ r. path_is_in_root p r) rr ≡ false =
        any-false (λ q. any (λ r. path_is_in_root q r) rr) m h.left_in in
      ground arith

  below_listed : (l : Text) → In l lr → path_is_in_root p l ≡ true → contains p rp ≡ false
  below_listed l m t = not_true (contains p rp) (λ c.
      let k = any-false (λ q. any (λ r. path_is_in_root q r) lr) (In-contains p rp c) h.right_in in
      let k' = any-false (λ r. path_is_in_root p r) m k in ground arith)

  below_root :
      (l : Text) → In l lr → path_is_in_root p l ≡ true → any (λ r. path_is_in_root p r) rr ≡ false
  below_root l m t = not_true (any (λ r. path_is_in_root p r) rr) (λ c.
      let (r, n, u) = any-true (λ r. path_is_in_root p r) rr c in
      let k = any-false (λ l. any (λ r. path_is_in_root l r || path_is_in_root r l) rr) m h.roots in
      let k' = any-false (λ r. path_is_in_root l r || path_is_in_root r l) n k in
      ground (arith, roots_of_path p l r))

-- Scopes that do not overlap share no path that both may write: a listed path or one below a root.
pub scopes_overlap_sound :
    (left_paths left_roots right_paths right_roots : List Text) (p : Text)
    → scopes_overlap left_paths left_roots right_paths right_roots ≡ false
    → is_writable left_paths left_roots p ≡ true
    → is_writable right_paths right_roots p ≡ false
unfolding is_writable
scopes_overlap_sound lp lr rp rr p apart left =
    let h = overlap-IsApart lp lr rp rr apart in
    elim (Bool-cases (contains p lp)) [
      | inl e ↦ listed lp lr rp rr p h (In-contains p lp e)
      | inr e ↦
          let (l, m, t) = any-true (λ r. path_is_in_root p r) lr (ground arith) in
          let one = below_listed lp lr rp rr p h l m t in
          let two = below_root lp lr rp rr p h l m t in ground arith
    ]

-- Two slices at different places of a list without conflicts.
conflicts-apart :
    (k : ℕ) (slices : List PlanSliceProposal) (i j : ℕ) (a b : PlanSliceProposal)
    → conflicts_from k slices ≡ []
    → get_elem? slices i ≡ some a
    → get_elem? slices j ≡ some b
    → i < j
    → slices_overlap a b ≡ false
unfolding conflicts_from check_pairs
conflicts-apart k [] i j a b h gi gj lt = absurd (ground arith)
conflicts-apart k (s ∷ rest) i zero a b h gi gj lt = absurd (omega arith)
conflicts-apart k (s ∷ rest) (suc i) (suc j) a b h gi gj lt =
    conflicts-apart (suc k) rest i j a b (append-empty _ _ h).1 gi gj (omega arith)
conflicts-apart k (s ∷ rest) zero (suc j) a b h gi gj lt =
    let same : s ≡ a = ground arith in
    let (n, e) = collect-empty _ (suc k) (get_elem?-In rest j b gj) (append-empty _ _ h).0 in
    subst (λ x. slices_overlap x b ≡ false) same (report-empty (slices_overlap s b) _ e)

-- No path may be written by two slices of an accepted plan, whether it is one of a slice's write
-- paths or lies below one of its create roots, for every search of the layout principles and
-- any limits.
pub accepted-no_shared_path :
    (re_search : String → Text → Option Text) (own : Option PlanningLimits)
    (proposal : PlanProposal) (inputs : PlanningInputs) (i j : ℕ) (a b : PlanSliceProposal)
    (p : Text)
    → (validate re_search own proposal inputs).accepted ≡ true
    → get_elem? proposal.slices i ≡ some a
    → get_elem? proposal.slices j ≡ some b
    → i < j
    → is_writable a.write_paths a.create_roots p ≡ true
    → is_writable b.write_paths b.create_roots p ≡ false
unfolding validate_scope_conflicts
accepted-no_shared_path re_search own proposal inputs i j a b p h gi gj lt w =
    let clean = accepted-IsClean re_search own proposal inputs h in
    scopes_overlap_sound a.write_paths a.create_roots b.write_paths b.create_roots p
      (conflicts-apart 0 proposal.slices i j a b clean.scope_conflicts gi gj lt) w
