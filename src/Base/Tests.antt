-- ===== src/Base/Tests.antt =====
-- Boolean tests, the conditional, and equality tests as instances.
use Prim.Native.Nat.{ℕ, ◌≤◌, ◌<◌, compare, Ordering}
use Prim.Native.String.{String}
use mathlib.Core.Path.{◌≡◌, refl}
use mathlib.Core.Logic.{◌↔◌, ◌⊎◌, inl, inr}
use mathlib.Core.Bool.{Bool, true, false, ◌&&◌}
use mathlib.Core.Option.{Option, none, some}
use native.Mathlib.Omega.{arith}
use text.Mathlib.Text.{◌==◌ as str_eq}
use text.Mathlib.TextEquality.{eq_iff}

abbrev pub ltb : ℕ → ℕ → Bool
ltb a b = elim (compare a b) [ Ordering.lt ↦ true | _ ↦ false ]

abbrev pub leb : ℕ → ℕ → Bool
leb a b = elim (compare a b) [ Ordering.gt ↦ false | _ ↦ true ]

abbrev pub nat_beq : ℕ → ℕ → Bool
nat_beq a b = elim (compare a b) [ Ordering.eq ↦ true | _ ↦ false ]

infix 1 if◌then◌else◌
abbrev pub if◌then◌else◌ {ℓ} : {A : Type ℓ} → Bool → A → A → A
if true then x else y = x
if false then x else y = y

pub leb→le : (a b : ℕ) → leb a b ≡ true → a ≤ b
leb→le a b h = ground arith

pub ltb→lt : (a b : ℕ) → ltb a b ≡ true → a < b
ltb→lt a b h = ground arith

pub nat_beq_iff : (a b : ℕ) → (nat_beq a b ≡ true) ↔ (a ≡ b)
nat_beq_iff a b = ground arith

-- To split on a computed value and keep the equation.
pub Bool-cases : (b : Bool) → (b ≡ true) ⊎ (b ≡ false)
Bool-cases true = inl refl
Bool-cases false = inr refl

pub Option-cases {ℓ} : {A : Type ℓ} (o : Option A) → (o ≡ none) ⊎ ((a : A) × (o ≡ some a))
Option-cases none = inl refl
Option-cases (some a) = inr (a, refl)

-- `==` of a Python value type: a test that decides equality.
pub record PyEq {ℓ} (T : Type ℓ) : Type ℓ where
  pub equals : T → T → Bool
  pub equals_iff : (s t : T) → (equals s t ≡ true) ↔ (s ≡ t)

instance abbrev pub string_eq : PyEq String
string_eq = record { equals = str_eq; equals_iff = eq_iff }

instance abbrev pub nat_eq : PyEq ℕ
nat_eq = record { equals = nat_beq; equals_iff = nat_beq_iff }

infix 50 ◌==◌
abbrev pub ◌==◌ {ℓ} : {T : Type ℓ} ⦃e : PyEq T⦄ → T → T → Bool
◌==◌ ⦃e⦄ s t = e.equals s t

module _ {ℓ} {A : Type ℓ} ⦃e : PyEq A⦄ where
  abbrev pub option_beq : Option A → Option A → Bool
  option_beq none none = true
  option_beq (some a) (some b) = a == b
  option_beq _ _ = false

  pub option_beq_iff : (a b : Option A) → (option_beq a b ≡ true) ↔ (a ≡ b)
  option_beq_iff none none = ground arith
  option_beq_iff (some a) (some b) = ground (arith, e.equals_iff a b)
  option_beq_iff none (some b) = ground arith
  option_beq_iff (some a) none = ground arith

module _ {ℓ} {A : Type ℓ} ⦃e : PyEq A⦄ where
  instance abbrev pub option_eq : PyEq (Option A)
  option_eq = record { equals = option_beq; equals_iff = option_beq_iff }

module _ {ℓ κ} {A : Type ℓ} {B : Type κ} ⦃e : PyEq A⦄ ⦃f : PyEq B⦄ where
  abbrev pub pair_beq : A × B → A × B → Bool
  pair_beq (a, b) (c, d) = e.equals a c && f.equals b d

  pub pair_beq_iff : (p q : A × B) → (pair_beq p q ≡ true) ↔ (p ≡ q)
  pair_beq_iff (a, b) (c, d) = ground (arith, e.equals_iff a c, f.equals_iff b d)

module _ {ℓ κ} {A : Type ℓ} {B : Type κ} ⦃e : PyEq A⦄ ⦃f : PyEq B⦄ where
  instance abbrev pub pair_eq : PyEq (A × B)
  pair_eq = record { equals = pair_beq; equals_iff = pair_beq_iff }
