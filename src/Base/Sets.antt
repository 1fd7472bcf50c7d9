-- ===== src/Base/Sets.antt =====
-- Python's `set`, read only through membership: a list without regard to order.
use mathlib.Core.Path.{◌≡◌}
use mathlib.Core.Bool.{Bool, true, false, not, ◌&&◌, ◌||◌}
use mathlib.Core.List.{List, [], ◌∷◌}
use native.Mathlib.Omega.{arith}
use code_migrator.Base.Tests.{PyEq, ◌==◌, if◌then◌else◌}
use code_migrator.Base.Lists.{all}

module _ {ℓ} {A : Type ℓ} ⦃e : PyEq A⦄ where
  -- `x in s`
  unfoldable pub contains : A → List A → Bool
  contains x [] = false
  contains x (y ∷ ys) = y == x || contains x ys

  -- `s.add(x)`
  unfoldable pub add : A → List A → List A
  add x xs = if contains x xs then xs else x ∷ xs

  -- `s.discard(x)`
  unfoldable pub discard : A → List A → List A
  discard x [] = []
  discard x (y ∷ ys) = let rest = discard x ys in if y == x then rest else y ∷ rest

  -- `xs.issubset(ys)`
  unfoldable pub subset : List A → List A → Bool
  subset xs ys = all (λ x. contains x ys) xs

  pub contains-add : (x y : A) (xs : List A) → contains y (add x xs) ≡ (x == y || contains y xs)
  unfolding contains add
  contains-add x y xs = ground (arith, e.equals_iff x y)

  pub contains-discard :
      (x y : A) (xs : List A) → contains y (discard x xs) ≡ (not (x == y) && contains y xs)
  unfolding contains discard
  contains-discard x y [] = ground arith
  contains-discard x y (z ∷ zs) =
      ground (arith, contains-discard x y zs, e.equals_iff z x, e.equals_iff z y, e.equals_iff x y)

  -- A member of a subset is a member of the set.
  pub contains-subset :
      (xs ys : List A) (x : A) → subset xs ys ≡ true → contains x xs ≡ true → contains x ys ≡ true
  unfolding contains subset
  contains-subset [] ys x h m = cc
  contains-subset (z ∷ zs) ys x h m = ground (arith, contains-subset zs ys x, e.equals_iff z x)
