-- ===== src/Planning/Ripple.antt =====
-- planning/ripple.py: `_reverse_import_closure`, the modules that depend on changed ones.
use code_migrator.Base.{
  nat_eq, list_eq, string_eq, ℕ, zero, suc, ◌+◌, String, ◌||◌, Option, none, some, List, [], ◌∷◌,
  ◌++◌, ◌==◌, if◌then◌else◌, length, Text, contains, add, get, put, get_or,
}

-- An import: the module that imports, and the imported module where it is one of the project.
pub record ImportEdge : Type 0 where
  pub from_module : Text
  pub target : Option Text

pub record RelationEdge : Type 0 where
  pub kind : String
  pub from_module : Option Text
  pub to_module : Text

-- `reverse`: a module's dependents.
abbrev pub Reverse : Type 0
Reverse = List (Text × List Text)

abbrev pub dependents : Reverse → Text → List Text
dependents reverse m = get_or [] (get m reverse)

abbrev pub add_dependent : Text → Text → Reverse → Reverse
add_dependent target from_module reverse =
    put target (add from_module (dependents reverse target)) reverse

unfoldable pub add_imports : List ImportEdge → Reverse → Reverse
add_imports [] reverse = reverse
add_imports (edge ∷ edges) reverse = add_imports edges (elim edge.target [
  | none ↦ reverse
  | some target ↦ add_dependent target edge.from_module reverse
])

unfoldable pub add_relations : List RelationEdge → Reverse → Reverse
add_relations [] reverse = reverse
add_relations (relation ∷ relations) reverse = add_relations relations (elim relation.from_module [
  | none ↦ reverse
  | some from_module ↦
      if relation.kind == "IMPORT" || relation.kind == "COVERAGE"
      then add_dependent relation.to_module from_module reverse
      else reverse
])

unfoldable pub reverse_of : List ImportEdge → List RelationEdge → Reverse
unfolding add_imports add_relations
reverse_of imports relations = add_relations relations (add_imports imports [])

-- The set of seen modules after a module's dependents, and those that it lacked, for the queue.
unfoldable pub see : List Text → List Text → List Text × List Text
see [] seen = (seen, [])
see (d ∷ ds) seen =
    let rest = see ds (add d seen) in (rest.0, if contains d seen then rest.1 else d ∷ rest.1)

unfoldable pub close : Reverse → ℕ → List Text → List Text → List Text
unfolding see
close reverse zero queue seen = seen
close reverse (suc fuel) [] seen = seen
close reverse (suc fuel) (current ∷ queue) seen =
    let next = see (dependents reverse current) seen in close reverse fuel (queue ++ next.1) next.0

-- All dependents, one after the other.
abbrev pub all_dependents : Reverse → List Text
all_dependents [] = []
all_dependents ((m, ds) ∷ rest) = ds ++ all_dependents rest

-- Each seed is visited once, and each dependent at most once more.
unfoldable pub reverse_import_closure : List ImportEdge → List RelationEdge → List Text → List Text
unfolding reverse_of close
reverse_import_closure imports relations seeds =
    let reverse = reverse_of imports relations in
    close reverse (length seeds + length (all_dependents reverse)) seeds seeds
