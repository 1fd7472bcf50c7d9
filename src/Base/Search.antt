-- ===== src/Base/Search.antt =====
-- What the searches of a list find, as members.
use Prim.Native.Nat.{ℕ, zero, suc}
use mathlib.Core.Path.{◌≡◌, subst}
use mathlib.Core.Logic.{inl, inr}
use mathlib.Core.Bool.{Bool, true, false}
use mathlib.Core.Option.{some}
use mathlib.Core.List.{List, [], ◌∷◌, ◌++◌}
use native.Mathlib.Omega.{arith}
use code_migrator.Base.Tests.{PyEq, ◌==◌, nat_eq, Bool-cases}
use code_migrator.Base.Lists.{In, here, there, any, get_elem?}
use code_migrator.Base.Sets.{contains}
use code_migrator.Base.Texts.{Text, list_eq}
use code_migrator.Base.Loops.{unique, sorted, insert_text, text_leb}

module _ {ℓ} {A : Type ℓ} where
  pub any-false : {x : A} {xs : List A} (p : A → Bool) → In x xs → any p xs ≡ false → p x ≡ false
  any-false {xs = []} p m h = elim m [ ]
  any-false {xs = y ∷ ys} p here h = ground arith
  any-false {xs = y ∷ ys} p (there m) h = any-false p m (ground arith)

  pub any-true : (p : A → Bool) (xs : List A) → any p xs ≡ true → (x : A) × In x xs × (p x ≡ true)
  any-true p [] h = absurd (ground arith)
  any-true p (x ∷ xs) h = elim (Bool-cases (p x)) [
    | inl e ↦ (x, here, e)
    | inr e ↦ let (y, m, t) = any-true p xs (ground arith) in (y, there m, t)
  ]

  pub get_elem?-In : (xs : List A) (i : ℕ) (x : A) → get_elem? xs i ≡ some x → In x xs
  get_elem?-In [] i x h = absurd (ground arith)
  get_elem?-In (y ∷ ys) zero x h =
      let same : y ≡ x = ground arith in subst (λ z. In z (y ∷ ys)) same here
  get_elem?-In (y ∷ ys) (suc i) x h = there (get_elem?-In ys i x h)

  pub In-append_left : {x : A} {xs : List A} (ys : List A) → In x xs → In x (xs ++ ys)
  In-append_left {xs = []} ys m = elim m [ ]
  In-append_left {xs = z ∷ zs} ys here = here
  In-append_left {xs = z ∷ zs} ys (there m) = there (In-append_left ys m)

module _ {ℓ} {A : Type ℓ} ⦃e : PyEq A⦄ where
  pub In-contains : (x : A) (xs : List A) → contains x xs ≡ true → In x xs
  unfolding contains
  In-contains x [] h = absurd (ground arith)
  In-contains x (y ∷ ys) h = elim (Bool-cases (y == x)) [
    | inl t ↦ subst (λ z. In z (y ∷ ys)) ((e.equals_iff y x).0 t) here
    | inr t ↦ there (In-contains x ys (ground arith))
  ]

  pub In-unique : {x : A} {xs : List A} → In x xs → In x (unique xs)
  unfolding unique
  In-unique {xs = []} m = elim m [ ]
  In-unique {x = x} {xs = _ ∷ ys} here = elim (Bool-cases (contains x (unique ys))) [
    | inl t ↦ rw t (In-contains x (unique ys) t)
    | inr t ↦ rw t here
  ]
  In-unique {xs = y ∷ ys} (there k) = elim (Bool-cases (contains y (unique ys))) [
    | inl t ↦ rw t (In-unique k)
    | inr t ↦ rw t (there (In-unique k))
  ]

In-insert : {x : Text} (t : Text) (us : List Text) → In x (t ∷ us) → In x (insert_text t us)
In-insert t [] m = m
In-insert t (u ∷ us) here = elim (Bool-cases (text_leb t u)) [
  | inl e ↦ rw e here
  | inr e ↦ rw e (there (In-insert t us here))
]
In-insert t (u ∷ us) (there here) = elim (Bool-cases (text_leb t u)) [
  | inl e ↦ rw e (there here)
  | inr e ↦ rw e here
]
In-insert t (u ∷ us) (there (there k)) = elim (Bool-cases (text_leb t u)) [
  | inl e ↦ rw e (there (there k))
  | inr e ↦ rw e (there (In-insert t us (there k)))
]

pub In-sorted : {x : Text} {xs : List Text} → In x xs → In x (sorted xs)
unfolding sorted
In-sorted {xs = []} m = elim m [ ]
In-sorted {xs = y ∷ ys} here = In-insert y (sorted ys) here
In-sorted {xs = y ∷ ys} (there m) = In-insert y (sorted ys) (there (In-sorted m))
