-- ===== src/Planning/Closure.antt =====
-- planning/ripple.py: the closure is the least set with the seeds that holds all dependents.
use code_migrator.Base.{
  subst, nat_eq, list_eq, ℕ, zero, suc, ◌+◌, ◌≤◌, ◌≡◌, refl, sym, ◌∙◌, inl, inr, true, false, ◌||◌,
  List, [], ◌∷◌, ◌++◌, arith, ◌==◌, if◌then◌else◌, Bool-cases, length, length-append, Text,
  contains, contains-add, add, get,
}
use code_migrator.Base.Texts.{list_beq_iff}
use code_migrator.Planning.Ripple.{Reverse, dependents, see, close, all_dependents}

contains-append :
    (x : Text) (xs ys : List Text) → contains x (xs ++ ys) ≡ (contains x xs || contains x ys)
unfolding contains
contains-append x [] ys = refl
contains-append x (z ∷ xs) ys = ground (arith, contains-append x xs ys)

-- How many of the modules are not seen.
abbrev pub unseen : List Text → List Text → ℕ
unseen [] seen = 0
unseen (u ∷ us) seen = (if contains u seen then 0 else 1) + unseen us seen

unseen-add_le :
    (us : List Text) (d : Text) (seen : List Text) → unseen us (add d seen) ≤ unseen us seen
unseen-add_le [] d seen = omega arith
unseen-add_le (u ∷ us) d seen = ground (arith, unseen-add_le us d seen, contains-add d u seen)

unseen-add_lt :
    (us : List Text) (d : Text) (seen : List Text)
    → contains d us ≡ true
    → contains d seen ≡ false
    → 1 + unseen us (add d seen) ≤ unseen us seen
unfolding contains
unseen-add_lt [] d seen h new = absurd (ground arith)
unseen-add_lt (u ∷ us) d seen h new = ground (
  arith,
  unseen-add_lt us d seen,
  unseen-add_le us d seen,
  contains-add d u seen,
  list_beq_iff u d,
  list_beq_iff d u,
)

-- What is seen afterwards: what was, and the new.
see-contains :
    (x : Text) (ds seen : List Text)
    → contains x (see ds seen).0 ≡ (contains x seen || contains x (see ds seen).1)
unfolding see contains
see-contains x [] seen = ground arith
see-contains x (d ∷ ds) seen = elim (Bool-cases (contains d seen)) [
  | inl e ↦
      rw e (ground (arith, see-contains x ds (add d seen), contains-add d x seen, list_beq_iff d x))
  | inr e ↦
      rw e (ground (arith, see-contains x ds (add d seen), contains-add d x seen, list_beq_iff d x))
]

see-dependents :
    (x : Text) (ds seen : List Text) → contains x ds ≡ true → contains x (see ds seen).0 ≡ true
unfolding see contains
see-dependents x [] seen h = absurd (ground arith)
see-dependents x (d ∷ ds) seen h =
    ground (
      arith,
      see-dependents x ds (add d seen),
      see-contains x ds (add d seen),
      contains-add d x seen,
    )

see-new :
    (x : Text) (ds seen : List Text) → contains x (see ds seen).1 ≡ true → contains x ds ≡ true
unfolding see contains
see-new x [] seen h = absurd (ground arith)
see-new x (d ∷ ds) seen h = elim (Bool-cases (contains d seen)) [
  | inl e ↦ let k = rw e at h in ground (arith, see-new x ds (add d seen))
  | inr e ↦ let k = rw e at h in ground (arith, see-new x ds (add d seen))
]

see-unseen :
    (us ds seen : List Text)
    → ((x : Text) → contains x ds ≡ true → contains x us ≡ true)
    → length (see ds seen).1 + unseen us (see ds seen).0 ≤ unseen us seen
unfolding see contains
see-unseen us [] seen h = omega arith
see-unseen us (d ∷ ds) seen h =
    let here : contains d us ≡ true = h d (ground (arith, list_beq_iff d d)) in
    let rest = see-unseen us ds (add d seen) (λ x m. h x (ground arith)) in
    elim (Bool-cases (contains d seen)) [
      | inl e ↦ let k = unseen-add_le us d seen in rw e (omega (arith, rest, k))
      | inr e ↦ let k = unseen-add_lt us d seen here e in rw e (omega (arith, rest, k))
    ]

dependents-all :
    (reverse : Reverse) (m x : Text)
    → contains x (dependents reverse m) ≡ true
    → contains x (all_dependents reverse) ≡ true
unfolding get contains
dependents-all [] m x h = absurd (ground arith)
dependents-all ((k, ds) ∷ rest) m x h = elim (Bool-cases (k == m)) [
  | inl e ↦ let found = rw e at h in contains-append x ds (all_dependents rest) ∙ ground arith
  | inr e ↦
      let found = rw e at h in
      contains-append x ds (all_dependents rest) ∙ ground (arith, dependents-all rest m x)
]

-- A set that holds, with a module, all its dependents.
abbrev pub IsClosed : Reverse → List Text → Type 0
IsClosed reverse set =
    (m x : Text)
    → contains m set ≡ true
    → contains x (dependents reverse m) ≡ true
    → contains x set ≡ true

-- Of the modules that are seen, those out of the queue have all their dependents seen.
abbrev IsPending : Reverse → List Text → List Text → Type 0
IsPending reverse queue seen =
    (m x : Text)
    → contains m seen ≡ true
    → contains m queue ≡ false
    → contains x (dependents reverse m) ≡ true
    → contains x seen ≡ true

see-IsPending :
    (reverse : Reverse) (current : Text) (queue seen : List Text)
    → IsPending reverse (current ∷ queue) seen
    → IsPending reverse
        (queue ++ (see (dependents reverse current) seen).1)
        (see (dependents reverse current) seen).0
unfolding contains
see-IsPending reverse current queue seen h m x known out dep =
    let ds = dependents reverse current in
    let parts = contains-append m queue (see ds seen).1 in
    let before = see-contains m ds seen in
    let kept = see-contains x ds seen in
    elim (Bool-cases (current == m)) [
      | inl e ↦
          let same : current ≡ m = (list_beq_iff current m).0 e in
          see-dependents x ds seen
            (subst (λ k. contains x (dependents reverse k) ≡ true) (sym same) dep)
      | inr e ↦
          let old : contains x seen ≡ true = h m x (ground arith) (ground arith) dep in ground arith
    ]

pub close-IsClosed :
    (reverse : Reverse) (fuel : ℕ) (queue seen : List Text)
    → length queue + unseen (all_dependents reverse) seen ≤ fuel
    → IsPending reverse queue seen
    → IsClosed reverse (close reverse fuel queue seen)
unfolding close contains
close-IsClosed reverse zero [] seen small h = λ m x known dep. h m x known refl dep
close-IsClosed reverse (suc fuel) [] seen small h = λ m x known dep. h m x known refl dep
close-IsClosed reverse zero (current ∷ queue) seen small h = absurd (omega arith)
close-IsClosed reverse (suc fuel) (current ∷ queue) seen small h =
    let ds = dependents reverse current in
    let us = all_dependents reverse in
    close-IsClosed reverse fuel (queue ++ (see ds seen).1) (see ds seen).0
      (omega (
        arith,
        length-append queue (see ds seen).1,
        see-unseen us ds seen (λ x m. dependents-all reverse current x m),
        small,
      ))
      (see-IsPending reverse current queue seen h)

pub close-grows :
    (reverse : Reverse) (fuel : ℕ) (queue seen : List Text) (x : Text)
    → contains x seen ≡ true
    → contains x (close reverse fuel queue seen) ≡ true
unfolding close
close-grows reverse zero queue seen x h = h
close-grows reverse (suc fuel) [] seen x h = h
close-grows reverse (suc fuel) (current ∷ queue) seen x h =
    let next = see (dependents reverse current) seen in
    close-grows reverse fuel (queue ++ next.1) next.0 x
      (see-contains x (dependents reverse current) seen ∙ ground arith)

pub close-least :
    (reverse : Reverse) (fuel : ℕ) (queue seen set : List Text)
    → IsClosed reverse set
    → ((x : Text) → contains x queue ≡ true → contains x set ≡ true)
    → ((x : Text) → contains x seen ≡ true → contains x set ≡ true)
    → (x : Text) → contains x (close reverse fuel queue seen) ≡ true
    → contains x set ≡ true
unfolding close contains
close-least reverse zero queue seen set closed q k x h = k x h
close-least reverse (suc fuel) [] seen set closed q k x h = k x h
close-least reverse (suc fuel) (current ∷ queue) seen set closed q k x h =
    let ds = dependents reverse current in
    let here : contains current set ≡ true =
      q current (ground (arith, list_beq_iff current current)) in
    let new : (y : Text) → contains y (see ds seen).1 ≡ true → contains y set ≡ true =
      λ y m. closed current y here (see-new y ds seen m) in
    close-least reverse fuel (queue ++ (see ds seen).1) (see ds seen).0 set closed
      (λ y m. ground (arith, contains-append y queue (see ds seen).1, new y, q y))
      (λ y m. ground (arith, see-contains y ds seen, new y, k y)) x h
