-- ===== src/Actor/Redaction.antt =====
-- runtime/store.py and runtime/actor.py: what is found in a log that was extended. The redaction of event data
-- is assumed to leave the keys of receipts alone.
use code_migrator.Base.{
  string_eq, nat_eq, ℕ, suc, String, ◌≡◌, refl, sym, subst, Option, none, some, List, [], ◌∷◌, ◌++◌,
  arith, eq_iff, get, option_cases,
}
use code_migrator.Actor.Events.{Data, EventSpec, RuntimeEvent, text, event_for_receipt}
use code_migrator.Actor.Intents.{IntegrationIntent}
use code_migrator.Actor.Integrations.{integration_events}
use code_migrator.Actor.Store.{materialize, cons_event}

abbrev pub KeepsKeys : (Data → Option Data) → Type 0
KeepsKeys redact =
    (entries kept : Data)
    → redact entries ≡ some kept
    → get "receipt_key" kept ≡ get "receipt_key" entries

pub event_for_receipt-append :
    (xs ys : List RuntimeEvent) (key : String) (e : RuntimeEvent)
    → event_for_receipt ys key ≡ some e
    → event_for_receipt (xs ++ ys) key ≡ some e
unfolding event_for_receipt
event_for_receipt-append [] ys key e h = h
event_for_receipt-append (x ∷ xs) ys key e h = rw (event_for_receipt-append xs ys key e h) refl

-- Two events that were stored.
pub record StoredPair (redact : Data → Option Data) (n : ℕ) (x y : EventSpec)
    (new : List RuntimeEvent) : Type 0 where
  pub first : Data
  pub second : Data
  pub first_kept : redact x.entries ≡ some first
  pub second_kept : redact y.entries ≡ some second
  pub made :
      new
      ≡ record { sequence = n; event_type = x.event_type; entries = first }
        ∷ record { sequence = suc n; event_type = y.event_type; entries = second }
        ∷ []

materialize_pair :
    (redact : Data → Option Data) (n : ℕ) (x y : EventSpec) (new : List RuntimeEvent)
    → materialize redact n (x ∷ y ∷ []) ≡ some new
    → StoredPair redact n x y new
unfolding materialize
materialize_pair redact n x y new h =
    option_cases (λ o. o ≡ some new → StoredPair redact n x y new) (redact x.entries)
      (λ e k. absurd (ground arith))
      (λ first e k.
        option_cases
          (λ o.
            cons_event (record { sequence = n; event_type = x.event_type; entries = first }) o
              ≡ some new
            → StoredPair redact n x y new)
          (redact y.entries) (λ l m. absurd (ground arith))
          (λ second l m. record {
            first = first;
            second = second;
            first_kept = e;
            second_kept = l;
            made = ground arith;
          })
          k)
      h

found_first :
    (key : String) (x y : RuntimeEvent)
    → get "receipt_key" x.entries ≡ some (text key)
    → get "receipt_key" y.entries ≡ none
    → event_for_receipt (x ∷ y ∷ []) key ≡ some x
unfolding event_for_receipt
found_first key x y h k = rw (k, event_for_receipt) (rw h (ground (arith, eq_iff key key)))

-- The first of the events of an integration carries its receipt.
pub integration-receipted :
    (redact : Data → Option Data) (n : ℕ) (key : String) (intent : IntegrationIntent) (oid : String)
    (new : List RuntimeEvent)
    → KeepsKeys redact
    → materialize redact n (integration_events key intent oid) ≡ some new
    → (e : RuntimeEvent) × (event_for_receipt new key ≡ some e) × (e.sequence ≡ n)
unfolding integration_events get
integration-receipted redact n key intent oid new keeps h =
    let pair = materialize_pair redact n _ _ new h in
    let x : RuntimeEvent = record {
      sequence = n;
      event_type = "integration.completed";
      entries = pair.first;
    } in
    let y : RuntimeEvent = record {
      sequence = suc n;
      event_type = "verified.advanced";
      entries = pair.second;
    } in
    (
      x,
      subst (λ (l : List RuntimeEvent). event_for_receipt l key ≡ some x) (sym pair.made)
          (found_first key x y (keeps _ pair.first pair.first_kept)
            (keeps _ pair.second pair.second_kept)),
      refl,
    )
