-- ===== src/Planning/Patterns.antt =====
-- core/scope.py: `validate_scope_pattern` and the containment of exclude patterns.
use code_migrator.Base.{
  nat_eq, list_eq, ℕ, suc, String, Bool, false, not, ◌&&◌, ◌||◌, List, [], ◌∷◌, ◌==◌, if◌then◌else◌,
  any, all, ltb, nat_beq, Result, ok, err, Text, code_points, slash, contains, starts_with,
  rest_after,
}
use code_migrator.Planning.Paths.{star, is_directory, all_but_last, scope_pattern_matches}

-- `text.split(separator)`
unfoldable pub split : ℕ → Text → List Text
split c [] = [] ∷ []
split c (d ∷ t) = let rest = split c t in if d == c then [] ∷ rest else extend d rest
  where
    extend : ℕ → List Text → List Text
    extend d [] = (d ∷ []) ∷ []
    extend d (part ∷ parts) = (d ∷ part) ∷ parts

-- `"**" in text`
unfoldable pub has_two_stars : Text → Bool
has_two_stars [] = false
has_two_stars (c ∷ t) = starts_with (c ∷ t) (star ∷ star ∷ []) || has_two_stars t

unfoldable pub count_stars : Text → ℕ
count_stars [] = 0
count_stars (c ∷ t) = let rest = count_stars t in if c == star then suc rest else rest

unfoldable pub last_part : List Text → Text
last_part [] = []
last_part (part ∷ []) = part
last_part (part ∷ parts) = last_part parts

abbrev pub unsupported_chars : Text
unsupported_chars = code_points "?[]{}()|+^$\\"

abbrev pub backslash : ℕ
backslash = b'\\'

abbrev pub is_unsafe_part : Text → Bool
is_unsafe_part part =
    part == [] || part == code_points "." || part == code_points ".." || part == code_points ".git"

abbrev pub body_of : Text → Text
body_of pattern = if is_directory pattern then all_but_last pattern else pattern

-- The star of a pattern stands once, in the last segment of a file.
unfoldable pub star_misplaced : Text → Bool
star_misplaced pattern =
    not (nat_beq (count_stars (body_of pattern)) 0)
    && (is_directory pattern
        || ltb 1 (count_stars (body_of pattern))
        || not (contains star (last_part (split slash (body_of pattern)))))

-- A part that is `.git` has been refused before the last check of the source on it.
unfoldable pub validate_scope_pattern : Text → Result String Text
unfolding star_misplaced
validate_scope_pattern [] = err "scope pattern must be a non-empty string"
validate_scope_pattern (c ∷ t) =
    let pattern : Text = c ∷ t in
    if contains 0 pattern
    then err "scope pattern must not contain NUL"
    else if c == slash || c == b'~' || contains backslash pattern
    then err "scope pattern must be repository-relative"
    else if any (λ d. contains d unsupported_chars) pattern
    then err "scope pattern uses unsupported wildcard or regex syntax"
    else if has_two_stars pattern
    then err "scope pattern permits only one trailing-segment star"
    else if any is_unsafe_part (split slash (body_of pattern))
    then err "scope pattern contains an unsafe path segment"
    else if star_misplaced pattern
    then err "scope star must occur once in the final file segment"
    else ok pattern

-- `pattern.split("*", 1)` of a pattern that has a star: what is before it, and what is after.
unfoldable pub before_star : Text → Text
before_star [] = []
before_star (c ∷ t) = let rest = before_star t in if c == star then [] else c ∷ rest

unfoldable pub after_star : Text → Text
after_star [] = []
after_star (c ∷ t) = let rest = after_star t in if c == star then t else rest

-- `text.endswith(suffix)`
unfoldable pub ends_with : Text → Text → Bool
ends_with [] suffix = suffix == []
ends_with (c ∷ t) suffix = (c ∷ t) == suffix || ends_with t suffix

unfoldable pub pattern_is_contained : Text → Text → Bool
unfolding before_star after_star ends_with
pattern_is_contained include exclude =
    if is_directory include
    then starts_with exclude include
    else if not (contains star include)
    then include == exclude
    else if contains star exclude
    then starts_with (before_star exclude) (before_star include)
      && ends_with (after_star exclude) (after_star include)
      && not (contains slash (rest_after (before_star exclude) (before_star include)))
    else scope_pattern_matches include exclude

unfoldable pub excludes_are_contained : List Text → List Text → Bool
unfolding pattern_is_contained
excludes_are_contained includes excludes =
    all (λ exclude. any (λ include. pattern_is_contained include exclude) includes) excludes
