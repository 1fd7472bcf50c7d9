-- ===== src/Actor/Refines/Types.antt =====
-- runtime/actor.py: the types of the events of a budget event and of a recovery.
use code_migrator.Base.{
  string_eq, nat_eq, pair_eq, String, ◌≡◌, refl, ◌∙◌, Bool, true, false, Option, some, List, [],
  ◌∷◌, ◌++◌, option_cases, map, inl, inr, ◌⊎◌, none, ap, if◌then◌else◌,
}
use code_migrator.Actor.Events.{EventSpec, receipt_key}
use code_migrator.Actor.State.{RunState, dispatch_eq}
use code_migrator.Actor.Core.{Port}
use code_migrator.Actor.Budget.{port_failed}
use code_migrator.Actor.Judgement.{
  RecoveryEvent, RecoveryTrigger, plain, interrupted, event_if, recovery_spec, RecoveryCommand,
  trigger,
}
use code_migrator.Actor.Ledger.{given_types, given_types-append}

pub port_failed-types :
    (s : RunState) (port : Option Port) (event_type : String)
    → (given_types (port_failed s port event_type) ≡ [])
      ⊎ (given_types (port_failed s port event_type) ≡ event_type ∷ [])
port_failed-types s none event_type = inl refl
port_failed-types s (some port) event_type =
    option_cases (λ (x : List EventSpec). (given_types x ≡ []) ⊎ (given_types x ≡ event_type ∷ []))
      (port s) (λ e. inl refl) (λ error e. inr refl)

pub exhausted-types :
    (warned unwritten unarchived later : List EventSpec) (pre : EventSpec)
    → given_types (warned ++ pre ∷ [] ++ unwritten ++ unarchived ++ later)
      ≡ given_types warned
        ++ pre.event_type ∷ []
        ++ given_types unwritten
        ++ given_types unarchived
        ++ given_types later
exhausted-types warned unwritten unarchived later pre =
    given_types-append (warned ++ pre ∷ [] ++ unwritten ++ unarchived) later
    ∙ ap (λ t. t ++ given_types later)
        (given_types-append (warned ++ pre ∷ [] ++ unwritten) unarchived
          ∙ ap (λ t. t ++ given_types unarchived)
              (given_types-append (warned ++ pre ∷ []) unwritten
                ∙ ap (λ t. t ++ given_types unwritten) (given_types-append warned (pre ∷ []))))

pub warned-types :
    (warning : Bool) (event : EventSpec)
    → event.event_type ≡ "budget.warning"
    → given_types (if warning then event ∷ [] else [])
      ≡ (if warning then "budget.warning" ∷ [] else [])
warned-types true event e = ap (λ t. t ∷ []) e
warned-types false event e = refl

-- The types of a recovery's events.
abbrev recovery_types : List RecoveryEvent → List String
recovery_types [] = []
recovery_types (plain item ∷ events) = item ∷ recovery_types events
recovery_types (interrupted id ∷ events) = "dispatch.interrupted" ∷ recovery_types events

recovery_spec-types :
    (events : List RecoveryEvent) → given_types (map recovery_spec events) ≡ recovery_types events
recovery_spec-types [] = refl
recovery_spec-types (plain item ∷ events) = ap (λ t. item ∷ t) (recovery_spec-types events)
recovery_spec-types (interrupted id ∷ events) =
    ap (λ t. "dispatch.interrupted" ∷ t) (recovery_spec-types events)

recovery_types-append :
    (xs ys : List RecoveryEvent)
    → recovery_types (xs ++ ys) ≡ recovery_types xs ++ recovery_types ys
recovery_types-append [] ys = refl
recovery_types-append (plain item ∷ xs) ys = ap (λ t. item ∷ t) (recovery_types-append xs ys)
recovery_types-append (interrupted id ∷ xs) ys =
    ap (λ t. "dispatch.interrupted" ∷ t) (recovery_types-append xs ys)

interrupted-types :
    (ids : List String)
    → recovery_types (map interrupted ids) ≡ map (λ id. "dispatch.interrupted") ids
interrupted-types [] = refl
interrupted-types (id ∷ ids) = ap (λ t. "dispatch.interrupted" ∷ t) (interrupted-types ids)

plain-types :
    (f : String → String) (ids : List String)
    → recovery_types (map (λ item. plain (f item)) ids) ≡ map f ids
plain-types f [] = refl
plain-types f (id ∷ ids) = ap (λ t. f id ∷ t) (plain-types f ids)

event_if-types :
    (b : Bool) (item : String) → recovery_types (event_if b item) ≡ (if b then item ∷ [] else [])
event_if-types true item = refl
event_if-types false item = refl

-- Equal parts make equal lists.
joined :
    (xs ys : List RecoveryEvent) (ts us : List String)
    → recovery_types xs ≡ ts
    → recovery_types ys ≡ us
    → recovery_types (xs ++ ys) ≡ ts ++ us
joined xs ys ts us e f = recovery_types-append xs ys ∙ rw (e, f) refl

pub recovery-types :
    (kind : RecoveryTrigger) (command : RecoveryCommand)
    → given_types (map recovery_spec (trigger kind command).events)
      ≡ "recovery.actor_rebuilt" ∷ []
        ++ map (λ id. "dispatch.interrupted") command.active_dispatch_ids
        ++ "git.refs.reconciled" ∷ "receipts.repaired" ∷ []
        ++ map (receipt_key "integration.intent.retry:") command.missing_intent_ids
        ++ (if command.checkpoint_corrupt then "checkpoint.discarded" ∷ [] else [])
        ++ (if command.ref_drift then "recovery.ref_drift" ∷ [] else [])
        ++ "recovery.completed" ∷ []
unfolding trigger
recovery-types kind command =
    let rebuilt : List RecoveryEvent = plain "recovery.actor_rebuilt" ∷ [] in
    let stopped : List RecoveryEvent = map interrupted command.active_dispatch_ids in
    let repaired : List RecoveryEvent =
      plain "git.refs.reconciled" ∷ plain "receipts.repaired" ∷ [] in
    let retried : List RecoveryEvent =
      map (λ item. plain (receipt_key "integration.intent.retry:" item))
        command.missing_intent_ids in
    let dropped : List RecoveryEvent = event_if command.checkpoint_corrupt "checkpoint.discarded" in
    let drifted : List RecoveryEvent = event_if command.ref_drift "recovery.ref_drift" in
    let completed : List RecoveryEvent = plain "recovery.completed" ∷ [] in
    let a = joined rebuilt stopped _ _ refl (interrupted-types command.active_dispatch_ids) in
    let b = joined (rebuilt ++ stopped) repaired _ _ a refl in
    let c =
      joined (rebuilt ++ stopped ++ repaired) retried _ _ b
        (plain-types (receipt_key "integration.intent.retry:") command.missing_intent_ids) in
    let d =
      joined (rebuilt ++ stopped ++ repaired ++ retried) dropped _ _ c
        (event_if-types command.checkpoint_corrupt "checkpoint.discarded") in
    let e =
      joined (rebuilt ++ stopped ++ repaired ++ retried ++ dropped) drifted _ _ d
        (event_if-types command.ref_drift "recovery.ref_drift") in
    recovery_spec-types (trigger kind command).events
    ∙ joined (rebuilt ++ stopped ++ repaired ++ retried ++ dropped ++ drifted) completed _ _ e refl
