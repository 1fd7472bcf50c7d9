-- ===== src/Scheduler/Selection.antt =====
-- runtime/scheduler.py: what `next` chooses, and what it passes over.
use code_migrator.Base.{
  string_eq, nat_eq, list_eq, ℕ, zero, suc, ◌+◌, ◌%◌, ◌<◌, String, ◌≡◌, refl, ap, sym, ◌∙◌, Bool,
  true, false, ◌||◌, Option, none, some, List, [], ◌∷◌, ◌++◌, arith, eq_iff, inl, inr, subst,
  All-In, Bool-cases, Option-cases, any, contains, subset, get, contains-add, get-put, length,
  get_elem?, Text, In, here, there, All,
}
use code_migrator.Base.Rotation.{offset_of}
use code_migrator.Scheduler.Slices.{
  ResourcePool, pool_eq, ReadySlice, Identity, identity_eq, identity, FairScheduler, at,
  paths_overlap, scopes_overlap, identity_beq_iff,
}
use code_migrator.Scheduler.Next.{
  reserved_scopes, is_held, is_ready, first_that, dispatch, is_allowed, offer, offer_at,
  search_from, next,
}

-- What the first element that passes shows, and what it shows that none does.
first_that-some {ℓ} :
    {A : Type ℓ} (p : A → Bool) (xs : List A) (x : A)
    → first_that p xs ≡ some x
    → In x xs × (p x ≡ true)
first_that-some p [] x h = absurd (ground arith)
first_that-some p (y ∷ ys) x h = elim (Bool-cases (p y)) [
  | inl e ↦
      let same : y ≡ x = ground (arith, rw e at h) in
      (subst (λ z. In z (y ∷ ys)) same here, ap p (sym same) ∙ e)
  | inr e ↦ let (found, holds) = first_that-some p ys x (rw e at h) in (there found, holds)
]

pub first_that-none {ℓ} :
    {A : Type ℓ} (p : A → Bool) (xs : List A) → first_that p xs ≡ none → All (λ x. p x ≡ false) xs
first_that-none p [] h = tt
first_that-none p (x ∷ xs) h = (ground arith, first_that-none p xs (ground arith))

-- No path of the first scope lies in a union if it overlaps none of the two.
any-append {ℓ} :
    {A : Type ℓ} (p : A → Bool) (xs ys : List A) → any p (xs ++ ys) ≡ (any p xs || any p ys)
any-append p [] ys = refl
any-append p (x ∷ xs) ys = ground (arith, any-append p xs ys)

pub scopes_overlap-append :
    (a b c : List Text) → scopes_overlap a (b ++ c) ≡ (scopes_overlap a b || scopes_overlap a c)
unfolding scopes_overlap
scopes_overlap-append [] b c = refl
scopes_overlap-append (x ∷ a) b c =
    ground (arith, any-append (paths_overlap x) b c, scopes_overlap-append a b c)

-- A reservation's scope is part of what its run has reserved.
pub overlap_reserved :
    (r : String) (d : List (Identity × List Text)) (a b : List Text) (i : Identity)
    → get i d ≡ some b
    → i.run_id ≡ r
    → scopes_overlap a (reserved_scopes r d) ≡ false
    → scopes_overlap a b ≡ false
unfolding get reserved_scopes
overlap_reserved r [] a b i g e h = absurd (ground arith)
overlap_reserved r ((j, c) ∷ d) a b i g e h = ground (
  arith,
  overlap_reserved r d a b i,
  scopes_overlap-append a c (reserved_scopes r d),
  identity_beq_iff j i,
  eq_iff j.run_id r,
)

-- What a dispatched slice satisfied, and what is recorded of it.
pub record IsDispatch (s : FairScheduler) (active_scopes : List Text) (pools : List ResourcePool)
    (only : Option String) (item : ReadySlice) (s' : FairScheduler) : Type 0 where
  pub run_id : String
  pub queued : In item (at s.queues run_id)
  pub allowed : is_allowed only run_id ≡ true
  pub unfinished : contains item.slice_id (at s.integrated run_id) ≡ false
  pub unfailed : contains item.slice_id (at s.terminal_failed run_id) ≡ false
  pub idle : contains (identity item) s.in_flight ≡ false
  pub not_awaiting : contains (identity item) s.awaiting_integration ≡ false
  pub requires : subset item.requires_dependencies (at s.integrated run_id) ≡ true
  pub ordered :
      subset item.ordered_before_dependencies
        (at s.integrated run_id ++ at s.terminal_failed run_id)
      ≡ true
  pub pool : contains item.resource_pool pools ≡ true
  pub apart_active : scopes_overlap item.write_scope active_scopes ≡ false
  pub apart_reserved :
      (i : Identity) (b : List Text)
      → get i s.in_flight_scopes ≡ some b
      → i.run_id ≡ run_id
      → scopes_overlap item.write_scope b ≡ false
  pub in_flight : contains (identity item) s'.in_flight ≡ true
  pub reserved : get (identity item) s'.in_flight_scopes ≡ some item.write_scope

get_elem?-lt {ℓ} :
    {A : Type ℓ} (xs : List A) (i : ℕ) (x : A) → get_elem? xs i ≡ some x → i < length xs
get_elem?-lt [] i x h = absurd (ground arith)
get_elem?-lt (y ∷ ys) zero x h = omega arith
get_elem?-lt (y ∷ ys) (suc i) x h = omega (arith, get_elem?-lt ys i x h)

module _ (s : FairScheduler) (active_scopes : List Text) (pools : List ResourcePool)
    (only : Option String) where
  offer-IsDispatch :
      (r : String) (item : ReadySlice) (index : ℕ)
      → offer s active_scopes pools only r ≡ some item
      → IsDispatch s active_scopes pools only item (dispatch s item index)
  unfolding offer
  offer-IsDispatch r item index h = elim (Bool-cases (is_allowed only r)) [
    | inr e ↦ absurd (ground (arith, rw e at h))
    | inl e ↦
        let (found, ready) =
          first_that-some (is_ready s active_scopes pools r) (at s.queues r) item (rw e at h) in
        let free : scopes_overlap item.write_scope
              (active_scopes ++ reserved_scopes r s.in_flight_scopes)
            ≡ false =
          unfold is_ready in ground arith in
        let held : is_held s r item ≡ false = unfold is_ready in ground arith in
        let parts =
          scopes_overlap-append item.write_scope active_scopes
            (reserved_scopes r s.in_flight_scopes) in
        record {
          run_id = r;
          queued = found;
          allowed = e;
          unfinished = unfold is_held in ground arith;
          unfailed = unfold is_held in ground arith;
          idle = unfold is_held in ground arith;
          not_awaiting = unfold is_held in ground arith;
          requires = unfold is_held in ground arith;
          ordered = unfold is_held in ground arith;
          pool = unfold is_ready in ground arith;
          apart_active = ground (arith, parts);
          apart_reserved = λ i b g run.
              overlap_reserved r s.in_flight_scopes item.write_scope b i g run
                (ground (arith, parts));
          in_flight = ground (
            arith,
            contains-add (identity item) (identity item) s.in_flight,
            identity_beq_iff (identity item) (identity item),
          );
          reserved = ground (
            arith,
            get-put (identity item) (identity item) item.write_scope s.in_flight_scopes,
            identity_beq_iff (identity item) (identity item),
          );
        }
  ]

  -- The index of a round of the outer loop.
  abbrev pub index_at : ℕ → ℕ
  index_at offset = (s.cursor + offset) % length s.run_order

  abbrev pub offered : ℕ → Option ReadySlice
  offered offset = offer_at s active_scopes pools only (index_at offset)

  -- No index from the offset on, for some rounds, offers a slice.
  abbrev pub NoOffer : ℕ → ℕ → Type 0
  NoOffer offset rounds = (j : ℕ) → j < rounds → offered (offset + j) ≡ none

  NoOffer-cons :
      (offset rounds : ℕ)
      → offered offset ≡ none
      → NoOffer (suc offset) rounds
      → NoOffer offset (suc rounds)
  NoOffer-cons offset rounds first rest zero lt = ap offered (omega arith) ∙ first
  NoOffer-cons offset rounds first rest (suc j) lt = ap offered (omega arith) ∙ rest j (omega arith)

  -- The index that the outer loop stops at is the first, from the offset on, that offers a slice.
  pub search_from-some :
      (rounds offset : ℕ) (item : ReadySlice) (index : ℕ)
      → search_from s active_scopes pools only rounds offset ≡ some (item, index)
      → (k : ℕ) × (k < rounds)
        × (index ≡ index_at (offset + k))
        × (offer_at s active_scopes pools only index ≡ some item)
        × NoOffer offset k
  unfolding search_from
  search_from-some zero offset item index h = absurd (ground arith)
  search_from-some (suc rounds) offset item index h = elim (Option-cases (offered offset)) [
    | inl e ↦
        let (k, lt, same, found, earlier) =
          search_from-some rounds (suc offset) item index (rw (e, search_from) at h) in
        (
          suc k,
          omega arith,
          same ∙ ap index_at (omega arith),
          found,
          NoOffer-cons offset k e earlier,
        )
    | inr (x, e) ↦
        let pair : ◌≡◌ {A = Option (ReadySlice × ℕ)} (some (x, index_at offset))
            (some (item, index)) =
          rw (e, search_from) at h in
        let here_index : index_at offset ≡ index = ground arith in
        let here_item : x ≡ item = ground arith in
        (
          0,
          omega arith,
          sym here_index ∙ ap index_at (omega arith),
          ap (offer_at s active_scopes pools only) (sym here_index) ∙ e ∙ ap some here_item,
          λ j lt. absurd (omega arith),
        )
  ]

  pub search_from-none :
      (rounds offset : ℕ)
      → search_from s active_scopes pools only rounds offset ≡ none
      → NoOffer offset rounds
  unfolding search_from
  search_from-none zero offset h = λ j lt. absurd (omega arith)
  search_from-none (suc rounds) offset h = elim (Option-cases (offered offset)) [
    | inl e ↦
        NoOffer-cons offset rounds e
          (search_from-none rounds (suc offset) (rw (e, search_from) at h))
    | inr (x, e) ↦ absurd (ground (arith, rw (e, search_from) at h))
  ]

  offer_at-IsDispatch :
      (index : ℕ) (item : ReadySlice)
      → offer_at s active_scopes pools only index ≡ some item
      → IsDispatch s active_scopes pools only item (dispatch s item index)
  unfolding offer_at
  offer_at-IsDispatch index item h = elim (Option-cases (get_elem? s.run_order index)) [
    | inl e ↦ absurd (ground (arith, rw (e, offer_at) at h))
    | inr (r, e) ↦ offer-IsDispatch r item index (rw (e, offer_at) at h)
  ]

  -- Whenever `next` returns a slice, the slice is queued for a run that may be served, is neither
  -- integrated nor failed nor in flight nor awaiting integration, everything that it requires is
  -- integrated, everything ordered before it is integrated or failed, its pool is available, its
  -- write scope overlaps no active scope and no scope that a slice of the run has reserved, and
  -- it is in flight afterwards with its write scope reserved.
  pub next-IsDispatch :
      (item : ReadySlice)
      → (next s active_scopes pools only).1 ≡ some item
      → IsDispatch s active_scopes pools only item (next s active_scopes pools only).0
  unfolding next
  next-IsDispatch item h =
      elim (Option-cases (search_from s active_scopes pools only (length s.run_order) 0)) [
        | inl e ↦ absurd (ground (arith, rw (e, next) at h))
        | inr ((x, index), e) ↦
            let same : x ≡ item = ground (arith, rw (e, next) at h) in
            let found = (search_from-some (length s.run_order) 0 x index e).3 in
            rw (e, next)
              (subst (λ y. IsDispatch s active_scopes pools only y (dispatch s x index)) same
                (offer_at-IsDispatch index x found))
      ]

  offer_at-none :
      (r : String) (index : ℕ) (item : ReadySlice)
      → offer_at s active_scopes pools only index ≡ none
      → get_elem? s.run_order index ≡ some r
      → is_allowed only r ≡ true
      → In item (at s.queues r)
      → is_ready s active_scopes pools r item ≡ false
  unfolding offer_at offer
  offer_at-none r index item h place allowed queued =
      let quiet : offer s active_scopes pools only r ≡ none = rw (place, offer_at) at h in
      All-In (λ x. is_ready s active_scopes pools r x ≡ false) queued
        (first_that-none (is_ready s active_scopes pools r) (at s.queues r)
          (rw (allowed, offer) at quiet))

  pub next-dispatches :
      (item : ReadySlice) (index : ℕ)
      → search_from s active_scopes pools only (length s.run_order) 0 ≡ some (item, index)
      → next s active_scopes pools only ≡ (dispatch s item index, some item)
  unfolding next
  next-dispatches item index e = rw (e, next) refl

  pub next-idle :
      search_from s active_scopes pools only (length s.run_order) 0 ≡ none
      → (next s active_scopes pools only).0 ≡ s
  unfolding next
  next-idle e = rw (e, next) refl

  next-none_unchanged :
      (next s active_scopes pools only).1 ≡ none
      → ((next s active_scopes pools only).0 ≡ s) × NoOffer 0 (length s.run_order)
  unfolding next
  next-none_unchanged h =
      elim (Option-cases (search_from s active_scopes pools only (length s.run_order) 0)) [
        | inl e ↦ (rw (e, next) refl, search_from-none (length s.run_order) 0 e)
        | inr ((x, index), e) ↦ absurd (ground (arith, rw (e, next) at h))
      ]

  -- Where `next` returns no slice, it changes nothing, and a slice that is queued for a run of the
  -- order that may be served does not pass the guards.
  pub next-none :
      (r : String) (index : ℕ) (item : ReadySlice)
      → (next s active_scopes pools only).1 ≡ none
      → get_elem? s.run_order index ≡ some r
      → is_allowed only r ≡ true
      → In item (at s.queues r)
      → ((next s active_scopes pools only).0 ≡ s) × (is_ready s active_scopes pools r item ≡ false)
  next-none r index item h place allowed queued =
      let (same, quiet) = next-none_unchanged h in
      let (j, lt, e) =
        offset_of (length s.run_order) s.cursor index (get_elem?-lt s.run_order index r place) in
      (
        same,
        offer_at-none r index item
            (ap (offer_at s active_scopes pools only) (sym e)
              ∙ ap offered (omega arith)
              ∙ quiet j lt)
            place allowed queued,
      )
