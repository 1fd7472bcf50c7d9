-- ===== src/Planning/Dependents.antt =====
-- planning/ripple.py: the closure against the imports and relations themselves.
use code_migrator.Base.{
  nat_eq, list_eq, string_eq, ◌+◌, ◌≤◌, ◌≡◌, refl, ap, sym, ◌∙◌, ◌⊎◌, Bool, true, false, ◌&&◌, ◌||◌,
  Option, none, some, List, [], ◌∷◌, arith, ◌==◌, any, inl, inr, Bool-cases, Option-cases, length,
  Text, contains, contains-add, add, get, get-put, get_or,
}
use code_migrator.Base.Texts.{list_beq_iff}
use code_migrator.Planning.Ripple.{
  ImportEdge, RelationEdge, Reverse, dependents, add_dependent, add_imports, add_relations,
  reverse_of, all_dependents, reverse_import_closure,
}
use code_migrator.Planning.Closure.{unseen, close-IsClosed, close-grows, close-least}

-- A module with an optional text in it.
abbrev pub is_text : Option Text → Text → Bool
is_text none t = false
is_text (some u) t = u == t

abbrev pub imports_it : Text → Text → ImportEdge → Bool
imports_it x m edge = is_text edge.target m && edge.from_module == x

abbrev pub relates_it : Text → Text → RelationEdge → Bool
relates_it x m relation =
    (relation.kind == "IMPORT" || relation.kind == "COVERAGE")
    && is_text relation.from_module x
    && relation.to_module == m

-- A module that imports or covers another.
abbrev pub depends_on : List ImportEdge → List RelationEdge → Text → Text → Bool
depends_on imports relations x m = any (imports_it x m) imports || any (relates_it x m) relations

added-dependent :
    (t f m x : Text) (reverse : Reverse)
    → contains x (dependents (add_dependent t f reverse) m)
      ≡ (t == m && f == x || contains x (dependents reverse m))
added-dependent t f m x reverse = elim (Bool-cases (t == m)) [
  | inl e ↦
      let same : t ≡ m = (list_beq_iff t m).0 e in
      ap (λ o. contains x (get_or [] o)) (get-put t m (add f (dependents reverse t)) reverse)
      ∙ rw e (
          contains-add f x (dependents reverse t)
          ∙ ap (λ k. f == x || contains x (dependents reverse k)) same)
  | inr e ↦
      ap (λ o. contains x (get_or [] o)) (get-put t m (add f (dependents reverse t)) reverse)
      ∙ rw e refl
]

imports-dependents :
    (m x : Text) (edges : List ImportEdge) (reverse : Reverse)
    → contains x (dependents (add_imports edges reverse) m)
      ≡ (any (imports_it x m) edges || contains x (dependents reverse m))
unfolding add_imports
imports-dependents m x [] reverse = refl
imports-dependents m x (edge ∷ edges) reverse = elim (Option-cases edge.target) [
  | inl e ↦ simp (e, add_imports) (imports-dependents m x edges reverse)
  | inr (t, e) ↦
      simp (e, add_imports)
        (imports-dependents m x edges (add_dependent t edge.from_module reverse)
          ∙ ground (arith, added-dependent t edge.from_module m x reverse))
]

relations-dependents :
    (m x : Text) (relations : List RelationEdge) (reverse : Reverse)
    → contains x (dependents (add_relations relations reverse) m)
      ≡ (any (relates_it x m) relations || contains x (dependents reverse m))
unfolding add_relations
relations-dependents m x [] reverse = refl
relations-dependents m x (r ∷ relations) reverse = elim (Option-cases r.from_module) [
  | inl e ↦ simp (e, add_relations) (relations-dependents m x relations reverse ∙ ground arith)
  | inr (f, e) ↦ elim (Bool-cases (r.kind == "IMPORT" || r.kind == "COVERAGE")) [
    | inl k ↦
        simp (e, k, add_relations)
          (relations-dependents m x relations (add_dependent r.to_module f reverse)
            ∙ ground (arith, added-dependent r.to_module f m x reverse))
    | inr k ↦ simp (e, k, add_relations) (relations-dependents m x relations reverse)
  ]
]

-- The reverse table lists exactly the modules that depend on a module.
reverse-depends :
    (imports : List ImportEdge) (relations : List RelationEdge) (m x : Text)
    → contains x (dependents (reverse_of imports relations) m) ≡ depends_on imports relations x m
unfolding reverse_of contains get
reverse-depends imports relations m x =
    relations-dependents m x relations (add_imports imports [])
    ∙ ground (arith, imports-dependents m x imports [])

unseen_le : (us seen : List Text) → unseen us seen ≤ length us
unseen_le [] seen = omega arith
unseen_le (u ∷ us) seen = ground (arith, unseen_le us seen)

-- The closure of modules holds each of them, and each module that depends on one that it holds, by
-- an import or by an import or coverage relation.
pub reverse_import_closure-holds :
    (imports : List ImportEdge) (relations : List RelationEdge) (seeds : List Text) (x : Text)
    → (contains x seeds ≡ true)
      ⊎ ((m : Text) × (contains m (reverse_import_closure imports relations seeds) ≡ true)
          × (depends_on imports relations x m ≡ true))
    → contains x (reverse_import_closure imports relations seeds) ≡ true
unfolding reverse_import_closure
reverse_import_closure-holds imports relations seeds x (inl seed) =
    let reverse = reverse_of imports relations in
    close-grows reverse (length seeds + length (all_dependents reverse)) seeds seeds x seed
reverse_import_closure-holds imports relations seeds x (inr (m, known, dep)) =
    let reverse = reverse_of imports relations in
    let us = all_dependents reverse in
    close-IsClosed reverse (length seeds + length us) seeds seeds
      (omega (arith, unseen_le us seeds)) (λ n y is out d. absurd (ground arith)) m x known
      (reverse-depends imports relations m x ∙ dep)

-- The closure of modules holds nothing but what is in every set that holds the modules and, with a
-- module, each that depends on it.
pub reverse_import_closure-least :
    (imports : List ImportEdge) (relations : List RelationEdge) (seeds set : List Text) (x : Text)
    → ((y : Text) → contains y seeds ≡ true → contains y set ≡ true)
    → ((m y : Text)
        → contains m set ≡ true
        → depends_on imports relations y m ≡ true
        → contains y set ≡ true)
    → contains x (reverse_import_closure imports relations seeds) ≡ true
    → contains x set ≡ true
unfolding reverse_import_closure
reverse_import_closure-least imports relations seeds set x start closed h =
    let reverse = reverse_of imports relations in
    close-least reverse (length seeds + length (all_dependents reverse)) seeds seeds set
      (λ n y known d. closed n y known (sym (reverse-depends imports relations n y) ∙ d)) start
      start x h
