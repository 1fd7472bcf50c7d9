-- ===== src/Actor/Ledger.antt =====
-- runtime/store.py: the log of a run. Its events are numbered from one without a gap, and a commit only
-- appends to it.
use code_migrator.Base.{
  string_eq, nat_eq, ℕ, suc, ◌+◌, String, ◌≡◌, refl, ap, subst, Bool, true, false, Option, none,
  some, List, [], ◌∷◌, ◌++◌, arith, eq_iff, ok, err, length, get, put, get-put, if_cases,
  option_cases,
}
use code_migrator.Integration.{is_some}
use code_migrator.Actor.Events.{Data, EventSpec, RuntimeEvent}
use code_migrator.Actor.State.{RunState, RuntimeSnapshot}
use code_migrator.Actor.Store.{
  Store, Outcome, materialize, cons_event, events_of, load, append_events, write, commit, create,
}

abbrev pub Numbered : ℕ → List RuntimeEvent → Type 0
Numbered n [] = Unit
Numbered n (event ∷ events) = (event.sequence ≡ n) × Numbered (suc n) events

pub Numbered-append :
    (n : ℕ) (xs ys : List RuntimeEvent)
    → Numbered n xs
    → Numbered (n + length xs) ys
    → Numbered n (xs ++ ys)
Numbered-append n [] ys front back =
    let same : n + 0 ≡ n = omega arith in subst (λ k. Numbered k ys) same back
Numbered-append n (x ∷ xs) ys front back =
    let same : n + suc (length xs) ≡ suc n + length xs = omega arith in
    (front.0, Numbered-append (suc n) xs ys front.1 (subst (λ k. Numbered k ys) same back))

cons_event-Numbered :
    (n : ℕ) (event : RuntimeEvent) (rest : Option (List RuntimeEvent)) (out : List RuntimeEvent)
    → event.sequence ≡ n
    → ((tail : List RuntimeEvent) → rest ≡ some tail → Numbered (suc n) tail)
    → cons_event event rest ≡ some out
    → Numbered n out
cons_event-Numbered n event none out e tails h = absurd (ground arith)
cons_event-Numbered n event (some tail) out e tails h =
    let same : event ∷ tail ≡ out = ground arith in subst (Numbered n) same (e, tails tail refl)

pub materialize-Numbered :
    (redact : Data → Option Data) (n : ℕ) (events : List EventSpec) (out : List RuntimeEvent)
    → materialize redact n events ≡ some out
    → Numbered n out
unfolding materialize
materialize-Numbered redact n [] [] h = tt
materialize-Numbered redact n [] (x ∷ xs) h = absurd (ground arith)
materialize-Numbered redact n (event ∷ events) out h =
    option_cases (λ o. o ≡ some out → Numbered n out) (redact event.entries)
      (λ e k. absurd (ground arith))
      (λ entries e k.
        cons_event-Numbered n
          (record { sequence = n; event_type = event.event_type; entries = entries })
          (materialize redact (suc n) events) out refl
          (λ tail t. materialize-Numbered redact (suc n) events tail t) k)
      h

-- The types of events that are given to a commit, and of those in a log.
abbrev pub given_types : List EventSpec → List String
given_types [] = []
given_types (event ∷ events) = event.event_type ∷ given_types events

abbrev pub logged_types : List RuntimeEvent → List String
logged_types [] = []
logged_types (event ∷ events) = event.event_type ∷ logged_types events

cons_event-logged_types :
    (event : RuntimeEvent) (types : List String) (rest : Option (List RuntimeEvent))
    (out : List RuntimeEvent)
    → ((tail : List RuntimeEvent) → rest ≡ some tail → logged_types tail ≡ types)
    → cons_event event rest ≡ some out
    → logged_types out ≡ event.event_type ∷ types
cons_event-logged_types event types none out tails h = absurd (ground arith)
cons_event-logged_types event types (some tail) out tails h =
    let same : event ∷ tail ≡ out = ground arith in
    subst (λ o. logged_types o ≡ event.event_type ∷ types) same
      (ap (λ t. event.event_type ∷ t) (tails tail refl))

-- What is written has the types of what was given.
pub materialize-logged_types :
    (redact : Data → Option Data) (n : ℕ) (events : List EventSpec) (out : List RuntimeEvent)
    → materialize redact n events ≡ some out
    → logged_types out ≡ given_types events
unfolding materialize
materialize-logged_types redact n [] [] h = refl
materialize-logged_types redact n [] (x ∷ xs) h = absurd (ground arith)
materialize-logged_types redact n (event ∷ events) out h =
    option_cases (λ o. o ≡ some out → logged_types out ≡ event.event_type ∷ given_types events)
      (redact event.entries) (λ e k. absurd (ground arith))
      (λ entries e k.
        cons_event-logged_types
          (record { sequence = n; event_type = event.event_type; entries = entries })
          (given_types events) (materialize redact (suc n) events) out
          (λ tail t. materialize-logged_types redact (suc n) events tail t) k)
      h

pub given_types-append :
    (xs ys : List EventSpec) → given_types (xs ++ ys) ≡ given_types xs ++ given_types ys
given_types-append [] ys = refl
given_types-append (x ∷ xs) ys = ap (λ t. x.event_type ∷ t) (given_types-append xs ys)

-- A store in which the state of a run was replaced and its log extended by some events.
abbrev pub Wrote : Store → Store → String → RunState → List EventSpec → Type 0
Wrote s s' run_id state events =
    (new : List RuntimeEvent) × (materialize s.secret_registry
        (length (events_of (load s run_id)) + 1) events
      ≡ some new)
    × (load s' run_id ≡ some (record { state = state; events = events_of (load s run_id) ++ new }))

pub get-put_self {ℓ} :
    {V : Type ℓ} (k : String) (v : V) (d : List (String × V)) → get k (put k v d) ≡ some v
get-put_self k v d = ground (arith, get-put k k v d, eq_iff k k)

-- What a method that writes the state may leave behind.
abbrev pub WritesOr : Store → String → RunState → List EventSpec → Outcome RuntimeSnapshot → Type 0
WritesOr s run_id state events (s', ok snapshot) =
    (snapshot.state ≡ state) × Wrote s s' run_id state events
WritesOr s run_id state events (s', err error) = s'.snapshots ≡ s.snapshots

append_events-WritesOr :
    (s : Store) (state : RunState) (events : List EventSpec) (new : Option (List RuntimeEvent))
    → materialize s.secret_registry (length (events_of (load s state.run_id)) + 1) events ≡ new
    → WritesOr s state.run_id state events
        (append_events s state (events_of (load s state.run_id)) new)
unfolding append_events load
append_events-WritesOr s state events none h = refl
append_events-WritesOr s state events (some new) h =
    (refl, (new, h, get-put_self state.run_id _ s.snapshots))

write-WritesOr :
    (s : Store) (state : RunState) (events : List EventSpec)
    → WritesOr s state.run_id state events (write s state events)
unfolding write
write-WritesOr s state events =
    if_cases (WritesOr s state.run_id state events) s.fail_next (λ e. refl)
      (λ e. append_events-WritesOr s state events _ refl)

pub commit-WritesOr :
    (s : Store) (state : RunState) (events : List EventSpec)
    → WritesOr s state.run_id state events (commit s state events)
unfolding commit
commit-WritesOr s state events =
    if_cases (WritesOr s state.run_id state events) (is_some (load s state.run_id))
      (λ e. write-WritesOr s state events) (λ e. refl)

pub create-WritesOr :
    (s : Store) (t : Bool) (state : RunState) (events : List EventSpec)
    → WritesOr s state.run_id state events (create s t state events)
unfolding create
create-WritesOr s true state events = write-WritesOr s state events
create-WritesOr s false state events =
    if_cases (WritesOr s state.run_id state events) (is_some (load s state.run_id)) (λ e. refl)
      (λ e. write-WritesOr s state events)
