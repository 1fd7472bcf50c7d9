-- ===== src/Base/Texts.antt =====
-- Texts that the code takes apart, as lists of code points: `startswith`, `rstrip`, joins.
use Prim.Native.Nat.{ℕ}
use Prim.Native.Char.{code}
use Prim.Native.String.{String}
use mathlib.Core.Path.{◌≡◌, refl}
use mathlib.Core.Logic.{◌↔◌}
use mathlib.Core.Bool.{Bool, true, false, ◌&&◌}
use mathlib.Core.List.{List, [], ◌∷◌, ◌++◌}
use native.Mathlib.Omega.{arith}
use code_migrator.Base.Tests.{PyEq, ◌==◌, nat_eq, if◌then◌else◌}

module _ {ℓ} {A : Type ℓ} ⦃e : PyEq A⦄ where
  abbrev pub list_beq : List A → List A → Bool
  list_beq [] [] = true
  list_beq (x ∷ xs) (y ∷ ys) = e.equals x y && list_beq xs ys
  list_beq _ _ = false

  pub list_beq_iff : (xs ys : List A) → (list_beq xs ys ≡ true) ↔ (xs ≡ ys)
  list_beq_iff [] [] = ground arith
  list_beq_iff (x ∷ xs) (y ∷ ys) = ground (arith, e.equals_iff x y, list_beq_iff xs ys)
  list_beq_iff [] (y ∷ ys) = ground arith
  list_beq_iff (x ∷ xs) [] = ground arith

module _ {ℓ} {A : Type ℓ} ⦃e : PyEq A⦄ where
  instance abbrev pub list_eq : PyEq (List A)
  list_eq = record { equals = list_beq; equals_iff = list_beq_iff }

abbrev pub Text : Type 0
Text = List ℕ

-- The code points of a literal.
abbrev pub code_points : String → Text
code_points String.[] = []
code_points (String.◌∷◌ c s) = code c ∷ code_points s

abbrev pub slash : ℕ
slash = b'/'

-- `t.startswith(prefix)`
unfoldable pub starts_with : Text → Text → Bool
starts_with t [] = true
starts_with [] (p ∷ prefix) = false
starts_with (c ∷ t) (p ∷ prefix) = c == p && starts_with t prefix

-- `t.rstrip(c)`
unfoldable pub rstrip : ℕ → Text → Text
rstrip c [] = []
rstrip c (x ∷ t) = let rest = rstrip c t in if list_beq rest [] && x == c then [] else x ∷ rest

pub starts_with-append : (t u : Text) → starts_with (t ++ u) t ≡ true
unfolding starts_with
starts_with-append [] u = refl
starts_with-append (c ∷ t) u = ground (arith, starts_with-append t u)

-- What begins with a text is that text and a rest.
unfoldable pub rest_after : Text → Text → Text
rest_after t [] = t
rest_after [] (p ∷ prefix) = []
rest_after (c ∷ t) (p ∷ prefix) = rest_after t prefix

pub append-rest_after :
    (t prefix : Text) → starts_with t prefix ≡ true → prefix ++ rest_after t prefix ≡ t
unfolding starts_with rest_after
append-rest_after t [] h = refl
append-rest_after [] (p ∷ prefix) h = cc
append-rest_after (c ∷ t) (p ∷ prefix) h = ground (arith, append-rest_after t prefix)

-- A prefix of a prefix.
pub starts_with_trans :
    (t u v : Text) → starts_with t u ≡ true → starts_with u v ≡ true → starts_with t v ≡ true
unfolding starts_with
starts_with_trans t u [] h k = refl
starts_with_trans t [] (c ∷ v) h k = cc
starts_with_trans [] (b ∷ u) (c ∷ v) h k = cc
starts_with_trans (a ∷ t) (b ∷ u) (c ∷ v) h k = ground (arith, starts_with_trans t u v)
