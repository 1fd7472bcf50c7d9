-- ===== src/Base/Lists.antt =====
-- Lists measured by native numbers, the loops of `any`, `all` and comprehensions, and predicates.
use Prim.Native.Nat.{ℕ, zero, suc, ◌+◌}
use mathlib.Core.Path.{◌≡◌}
use mathlib.Core.Logic.{inl, inr}
use mathlib.Core.Bool.{Bool, true, false, ◌&&◌, ◌||◌}
use mathlib.Core.Option.{Option, none, some}
use mathlib.Core.List.{List, [], ◌∷◌, ◌++◌}
use native.Mathlib.Omega.{arith}
use code_migrator.Base.Tests.{if◌then◌else◌, Bool-cases}

module _ {ℓ} {A : Type ℓ} where
  abbrev pub length : List A → ℕ
  length [] = 0
  length (x ∷ xs) = suc (length xs)

  -- The element at an index, if the list has one there.
  abbrev pub get_elem? : List A → ℕ → Option A
  get_elem? [] i = none
  get_elem? (x ∷ xs) zero = some x
  get_elem? (x ∷ xs) (suc i) = get_elem? xs i

  -- `[x for x in xs if p(x)]`
  abbrev pub keep : (A → Bool) → List A → List A
  keep p [] = []
  keep p (x ∷ xs) = let rest = keep p xs in if p x then x ∷ rest else rest

  -- `any(p(x) for x in xs)`
  abbrev pub any : (A → Bool) → List A → Bool
  any p [] = false
  any p (x ∷ xs) = p x || any p xs

  -- `all(p(x) for x in xs)`
  abbrev pub all : (A → Bool) → List A → Bool
  all p [] = true
  all p (x ∷ xs) = p x && all p xs

  abbrev pub All {κ} : (A → Type κ) → List A → Type κ
  All P [] = Unit
  All P (x ∷ xs) = P x × All P xs

  -- Membership with its position, so that it can be matched.
  pub data In (x : A) : List A → Type ℓ where
    here : {xs : List A} → In x (x ∷ xs)
    there : {y : A} {xs : List A} → In x xs → In x (y ∷ xs)

  pub All-In {κ} : (P : A → Type κ) {x : A} {xs : List A} → In x xs → All P xs → P x
  All-In P here h = h.0
  All-In P (there m) h = All-In P m h.1

  pub length-append : (xs ys : List A) → length (xs ++ ys) ≡ length xs + length ys
  length-append [] ys = omega arith
  length-append (x ∷ xs) ys = omega (arith, length-append xs ys)

  pub All-append {κ} : (P : A → Type κ) (xs ys : List A) → All P xs → All P ys → All P (xs ++ ys)
  All-append P [] ys front back = back
  All-append P (x ∷ xs) ys front back = (front.0, All-append P xs ys front.1 back)

  All-if {κ} :
      (P : A → Type κ) (b : Bool) (x : A) (xs : List A)
      → P x
      → All P xs
      → All P (if b then x ∷ xs else xs)
  All-if P true x xs h hs = (h, hs)
  All-if P false x xs h hs = hs

  pub All-keep {κ} : (P : A → Type κ) (p : A → Bool) (xs : List A) → All P xs → All P (keep p xs)
  All-keep P p [] h = tt
  All-keep P p (x ∷ xs) h = All-if P (p x) x (keep p xs) h.0 (All-keep P p xs h.1)

  pub All-keep_holds : (p : A → Bool) (xs : List A) → All (λ x. p x ≡ true) (keep p xs)
  All-keep_holds p [] = tt
  All-keep_holds p (x ∷ xs) = elim (Bool-cases (p x)) [
    | inl h ↦ rw h (h, All-keep_holds p xs)
    | inr h ↦ rw h (All-keep_holds p xs)
  ]
