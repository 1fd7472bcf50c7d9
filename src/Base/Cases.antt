-- ===== src/Base/Cases.antt =====
-- A property of a branching term holds where it holds on each branch.
use mathlib.Core.Path.{◌≡◌, refl}
use mathlib.Core.Bool.{Bool, true, false}
use mathlib.Core.Option.{Option, none, some}
use code_migrator.Base.Tests.{if◌then◌else◌}
use code_migrator.Base.Errors.{Result, ok, err}

module _ {ℓ κ} {A : Type ℓ} (P : A → Type κ) where
  pub if_cases :
      (b : Bool) {x y : A} → (b ≡ true → P x) → (b ≡ false → P y) → P (if b then x else y)
  if_cases true h k = h refl
  if_cases false h k = k refl

  pub option_cases {μ} :
      {B : Type μ} (o : Option B) {n : A} {f : B → A}
      → (o ≡ none → P n)
      → ((b : B) → o ≡ some b → P (f b))
      → P (elim o [ none ↦ n | some b ↦ f b ])
  option_cases none h k = h refl
  option_cases (some b) h k = k b refl

  pub result_cases {μ ν} :
      {E : Type μ} {B : Type ν} (r : Result E B) {f : B → A} {g : E → A}
      → ((b : B) → r ≡ ok b → P (f b))
      → ((e : E) → r ≡ err e → P (g e))
      → P (elim r [ ok b ↦ f b | err e ↦ g e ])
  result_cases (ok b) h k = h b refl
  result_cases (err e) h k = k e refl
