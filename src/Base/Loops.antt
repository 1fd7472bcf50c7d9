-- ===== src/Base/Loops.antt =====
-- Loops over an enumeration that report findings, sets without repeats, and Python's order of texts.
use Prim.Native.Nat.{ℕ, suc}
use mathlib.Core.Path.{◌≡◌, refl}
use mathlib.Core.Bool.{Bool, true, false, ◌&&◌, ◌||◌}
use mathlib.Core.List.{List, [], ◌∷◌, ◌++◌}
use native.Mathlib.Omega.{arith}
use code_migrator.Base.Tests.{PyEq, ◌==◌, nat_eq, ltb, if◌then◌else◌}
use code_migrator.Base.Lists.{In, here, there}
use code_migrator.Base.Sets.{contains}
use code_migrator.Base.Texts.{Text}

module _ {ℓ κ} {A : Type ℓ} {B : Type κ} where
  -- `for i, x in enumerate(xs, start): found.extend(f(i, x))`
  abbrev pub collect : (ℕ → A → List B) → ℕ → List A → List B
  collect f i [] = []
  collect f i (x ∷ xs) = f i x ++ collect f (suc i) xs

pub append-empty {ℓ} : {A : Type ℓ} (xs ys : List A) → xs ++ ys ≡ [] → (xs ≡ []) × (ys ≡ [])
append-empty [] ys h = (refl, h)
append-empty (x ∷ xs) ys h = absurd (ground arith)

module _ {ℓ κ} {A : Type ℓ} {B : Type κ} where
  -- A loop that reported nothing reported nothing for any element.
  pub collect-empty :
      {x : A} {xs : List A} (f : ℕ → A → List B) (i : ℕ)
      → In x xs
      → collect f i xs ≡ []
      → (j : ℕ) × (f j x ≡ [])
  collect-empty {xs = []} f i m h = elim m [ ]
  collect-empty {xs = y ∷ ys} f i here h = (i, (append-empty (f i y) (collect f (suc i) ys) h).0)
  collect-empty {xs = y ∷ ys} f i (there m) h =
      collect-empty f (suc i) m (append-empty (f i y) (collect f (suc i) ys) h).1

module _ {ℓ} {A : Type ℓ} ⦃e : PyEq A⦄ where
  -- `set(xs)`, each element once.
  unfoldable pub unique : List A → List A
  unique [] = []
  unique (x ∷ xs) = let rest = unique xs in if contains x rest then rest else x ∷ rest

  -- A member, found by the test.
  pub contains-In : (x : A) (xs : List A) → In x xs → contains x xs ≡ true
  unfolding contains
  contains-In x [] m = elim m [ ]
  contains-In x (_ ∷ xs) here = ground (arith, e.equals_iff x x)
  contains-In x (y ∷ xs) (there m) = ground (arith, contains-In x xs m)

-- The order of `sorted` on texts, and of their UTF-8 bytes: by code point.
abbrev pub text_leb : Text → Text → Bool
text_leb [] t = true
text_leb (c ∷ s) [] = false
text_leb (c ∷ s) (d ∷ t) = ltb c d || (c == d && text_leb s t)

abbrev pub insert_text : Text → List Text → List Text
insert_text t [] = t ∷ []
insert_text t (u ∷ us) =
    let rest = insert_text t us in if text_leb t u then t ∷ u ∷ us else u ∷ rest

-- `sorted(texts)`
unfoldable pub sorted : List Text → List Text
sorted [] = []
sorted (t ∷ ts) = insert_text t (sorted ts)
