-- ===== src/Scheduler/Fairness.antt =====
-- runtime/scheduler.py: the round robin over the runs.
use code_migrator.Base.{
  ℕ, ◌+◌, ◌-◌, ◌%◌, ◌<◌, ◌≤◌, String, ◌≡◌, ◌≢◌, ap, sym, refl, ◌++◌, ◌∙◌, Option, none, some, List,
  [], ◌∷◌, arith, inl, inr, ◌⊎◌, Option-cases, length, map, subst, All, Text, In, here, there,
  string_eq, nat_eq,
}
use native.Mathlib.Decide.{dec_lt, ℕ_discrete}
use code_migrator.Base.Rotation.{offset_after, offset_joined, offset_of}
use code_migrator.Base.Lists.{length-append}
use native.Mathlib.Nat.{mod-lt}
use code_migrator.Scheduler.Slices.{ResourcePool, ReadySlice, FairScheduler}
use code_migrator.Scheduler.Next.{offer_at, search_from, next, dispatch}
use code_migrator.Scheduler.Selection.{search_from-some, search_from-none, next-dispatches}

-- The arguments of one call of `next`.
pub record Call : Type 0 where
  pub active_scopes : List Text
  pub pools : List ResourcePool
  pub only_run_id : Option String

abbrev pub offers : FairScheduler → Call → ℕ → Option ReadySlice
offers s c index = offer_at s c.active_scopes c.pools c.only_run_id index

abbrev pub after : FairScheduler → Call → FairScheduler
after s c = (next s c.active_scopes c.pools c.only_run_id).0

-- The index of the run that a call serves.
abbrev pub place_of : Option (ReadySlice × ℕ) → Option ℕ
place_of none = none
place_of (some (item, index)) = some index

unfoldable pub served : FairScheduler → Call → Option ℕ
served s c = place_of (search_from s c.active_scopes c.pools c.only_run_id (length s.run_order) 0)

-- The run at a place stands a number of places behind the cursor.
abbrev pub Waits : FairScheduler → ℕ → ℕ → Type 0
Waits s place d = (d < length s.run_order) × ((s.cursor + d) % length s.run_order ≡ place)

nearer :
    (s : FairScheduler) (item : ReadySlice) (index place d k : ℕ)
    → Waits s place d
    → k < d
    → index ≡ (s.cursor + k) % length s.run_order
    → Waits (dispatch s item index) place (d - k - 1)
nearer s item index place d k (inside, e) lt at_k =
    let n = length s.run_order in
    (
      omega arith,
      ap (λ i. ((i + 1) % n + (d - k - 1)) % n) at_k
          ∙ offset_after n s.cursor k (d - k - 1)
          ∙ ap (λ o. (s.cursor + o) % n) (omega arith)
          ∙ e,
    )

abbrev place_at : FairScheduler → ℕ → ℕ
place_at s offset = (s.cursor + offset) % length s.run_order

-- A call serves an offering run, or brings it nearer to the cursor.
served-or-nearer :
    (s : FairScheduler) (c : Call) (place d : ℕ)
    → Waits s place d
    → offers s c place ≢ none
    → (served s c ≡ some place)
      ⊎ ((e : ℕ) × (e < d)
          × Waits (after s c) place e
          × ((after s c).cursor < length (after s c).run_order)
          × (length (after s c).run_order ≡ length s.run_order))
unfolding served
served-or-nearer s c place d w offering =
    elim (Option-cases
      (search_from s c.active_scopes c.pools c.only_run_id (length s.run_order) 0)) [
        | inl e ↦
            let quiet =
              search_from-none s c.active_scopes c.pools c.only_run_id (length s.run_order) 0 e d
                w.0 in
            absurd (offering (ap (offers s c) (sym w.1 ∙ ap (place_at s) (omega arith)) ∙ quiet))
        | inr ((item, index), e) ↦
            let (k, lt, same, found, earlier) =
              search_from-some s c.active_scopes c.pools c.only_run_id (length s.run_order) 0 item
                index e in
            let at_k : index ≡ place_at s k = same ∙ ap (place_at s) (omega arith) in
            elim (dec_lt d k) [
              | yes before ↦ absurd (
                  offering
                    (ap (offers s c) (sym w.1 ∙ ap (place_at s) (omega arith)) ∙ earlier d before))
              | no after_k ↦ elim (ℕ_discrete k d) [
                | yes here_k ↦ inl (rw (e, served) (ap some (at_k ∙ ap (place_at s) here_k ∙ w.1)))
                | no there_k ↦
                    let (w', inside, kept) =
                      subst
                        (λ (t : FairScheduler).
                          Waits t place (d - k - 1)
                          × (t.cursor < length t.run_order)
                          × (length t.run_order ≡ length s.run_order))
                        (sym (
                          ap (λ r. r.0)
                            (next-dispatches s c.active_scopes c.pools c.only_run_id item index e)))
                        (
                          nearer s item index place d k w (omega arith) at_k,
                          mod-lt (index + 1) (omega arith),
                          refl,
                        ) in
                    inr (d - k - 1, omega arith, w', inside, kept)
              ]
            ]
      ]

-- A call of `next` in the state in which it is made.
pub record Round : Type 0 where
  pub state : FairScheduler
  pub call : Call

abbrev pub round_served : Round → Option ℕ
round_served r = served r.state r.call

-- The cursor that one call leaves is the one that the next call finds, and runs may join at the end
-- of the order between them. All else may change: queues, outcomes and reservations.
abbrev pub Linked : Round → List Round → Type 0
Linked r [] = Unit
Linked r (q ∷ qs) =
    (q.state.cursor ≡ (after r.state r.call).cursor)
    × ((joined : List String) × (q.state.run_order ≡ (after r.state r.call).run_order ++ joined))
    × Linked q qs

-- The number of runs at the last of the calls.
abbrev pub runs_at_last : Round → List Round → ℕ
runs_at_last r [] = length r.state.run_order
runs_at_last r (q ∷ qs) = runs_at_last q qs

-- The run at the place has a slice to offer at every call.
abbrev pub KeepsOffering : ℕ → List Round → Type 0
KeepsOffering place rounds = All (λ r. offers r.state r.call place ≢ none) rounds

-- A run that waits behind the end of the order waits for each run that joined, too.
joined-Waits :
    (s t : FairScheduler) (joined : List String) (place d : ℕ)
    → s.cursor < length s.run_order
    → t.cursor ≡ s.cursor
    → t.run_order ≡ s.run_order ++ joined
    → Waits s place d
    → (e : ℕ) × (e ≤ d + length joined) × Waits t place e
joined-Waits s t joined place d inside same_cursor same_order (lt, at_d) =
    let m : length t.run_order ≡ length s.run_order + length joined =
      ap length same_order ∙ length-append s.run_order joined in
    let (e, short, low, same) =
      offset_joined (length s.run_order) (length joined) s.cursor d inside lt in
    (e, short, (rw m low, rw (same_cursor, m) (same ∙ at_d)))

served_within :
    (rounds : List Round) (r : Round) (place d : ℕ)
    → Waits r.state place d
    → d + runs_at_last r rounds ≤ length r.state.run_order + length rounds
    → Linked r rounds
    → KeepsOffering place (r ∷ rounds)
    → In (some place) (map round_served (r ∷ rounds))
served_within [] r place d w long linked keeps =
    elim (served-or-nearer r.state r.call place d w keeps.0) [
      | inl p ↦ subst (λ o. In (some place) (o ∷ [])) (sym p) here
      | inr (e, lt, w', inside, same) ↦ absurd (omega arith)
    ]
served_within (q ∷ qs) r place d w long linked keeps =
    elim (served-or-nearer r.state r.call place d w keeps.0) [
      | inl p ↦ subst (λ o. In (some place) (o ∷ map round_served (q ∷ qs))) (sym p) here
      | inr (e, lt, w', inside, same) ↦
          let (joined, order) = linked.1 in
          let (f, short, w'') =
            joined-Waits (after r.state r.call) q.state joined place e inside linked.0 order w' in
          let m : length q.state.run_order ≡ length r.state.run_order + length joined =
            ap length order
            ∙ length-append (after r.state r.call).run_order joined
            ∙ ap (λ n. n + length joined) same in
          there (served_within qs q place f w'' (omega arith) linked.2 keeps.1)
    ]

-- A run that has a dispatchable slice at each of as many consecutive calls of `next` as there are runs
-- at the last of them is served by one of them. Between the calls queues, outcomes and reservations
-- may change in any way and new runs may join at the end of the order; the cursor, which only `next`
-- moves, and the order of the runs that are there stay.
pub bounded_waiting :
    (r : Round) (rounds : List Round) (place : ℕ)
    → place < length r.state.run_order
    → runs_at_last r rounds ≤ length (r ∷ rounds)
    → Linked r rounds
    → KeepsOffering place (r ∷ rounds)
    → In (some place) (map round_served (r ∷ rounds))
bounded_waiting r rounds place inside enough linked keeps =
    let (d, lt, e) = offset_of (length r.state.run_order) r.state.cursor place inside in
    served_within rounds r place d (lt, e) (omega arith) linked keeps
