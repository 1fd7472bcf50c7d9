-- ===== src/Planning/Paths.antt =====
-- core/scope.py: which paths a scope includes. A pattern is a path, a directory that ends in a
-- slash, or a path whose last segment has one star.
use code_migrator.Base.{
  nat_eq, list_eq, ℕ, Bool, false, not, ◌&&◌, ◌||◌, [], ◌∷◌, ◌==◌, if◌then◌else◌, any, Text,
  code_points, slash, starts_with,
}
use code_migrator.Planning.Proposal.{SpecScope}

abbrev pub star : ℕ
star = b'*'

-- `$` also matches before a newline that ends the text.
abbrev pub at_end : Text → Bool
at_end t = t == [] || t == 10 ∷ []

-- `[^/]+` and what follows it.
unfoldable pub star_then : (Text → Bool) → Text → Bool
star_then k [] = false
star_then k (c ∷ t) = not (c == slash) && (k t || star_then k t)

-- The regular expression of a pattern's body: its stars are `[^/]+`, all else is literal.
unfoldable pub body_matches : Text → (Text → Bool) → Text → Bool
body_matches [] k t = k t
body_matches (c ∷ p) k t =
    let rest = body_matches p k in if c == star then star_then rest t else literal c rest t
  where
    literal : ℕ → (Text → Bool) → Text → Bool
    literal c rest [] = false
    literal c rest (d ∷ u) = d == c && rest u

-- `pattern.endswith("/")`
unfoldable pub is_directory : Text → Bool
is_directory [] = false
is_directory (c ∷ []) = c == slash
is_directory (c ∷ p) = is_directory p

-- `pattern[:-1]`
unfoldable pub all_but_last : Text → Text
all_but_last [] = []
all_but_last (c ∷ []) = []
all_but_last (c ∷ p) = c ∷ all_but_last p

unfoldable pub pattern_matches : Text → Text → Bool
pattern_matches pattern path =
    if is_directory pattern
    then body_matches (all_but_last pattern) (λ t. starts_with t (slash ∷ [])) path
    else body_matches pattern at_end path

abbrev pub is_git : Text → Bool
is_git path = path == code_points ".git" || starts_with path (code_points ".git/")

unfoldable pub scope_pattern_matches : Text → Text → Bool
scope_pattern_matches pattern path = if is_git path then false else pattern_matches pattern path

unfoldable pub scope_includes_path : SpecScope → Text → Bool
scope_includes_path scope path =
    if is_git path
    then false
    else any (λ pattern. scope_pattern_matches pattern path) scope.include
      && not (any (λ pattern. scope_pattern_matches pattern path) scope.exclude)
