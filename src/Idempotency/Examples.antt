-- ===== src/Idempotency/Examples.antt =====
-- A write that comes again within the day, with another write between.
use code_migrator.Base.{
  String, string_eq, list_eq, nat_eq, pair_eq, ℕ, ◌≡◌, refl, true, false, some, List, [], ◌∷◌,
  arith, ◌==◌, Bool,
}
use code_migrator.Idempotency.Store.{Store, Key, replayed, conflict, remember, lookup}
use code_migrator.Idempotency.Replay.{Call, remembers, calls, remembered-replays}

abbrev as_digest : List ℕ → List ℕ
as_digest b = b

abbrev same : List ℕ → List ℕ → Bool
same a b = a == b

abbrev create_run : Key
create_run = ("alice", ("POST /runs", "k1"))

abbrev cancel_run : Key
cancel_run = ("alice", ("POST /runs/7/cancel", "k2"))

abbrev others : List (Call String)
others = remembers 20 21 cancel_run (3 ∷ []) 202 "cancelled" ∷ []

abbrev before : Store String (List ℕ)
before = []

remembered-replays_example :
    (same (1 ∷ 2 ∷ []) (1 ∷ 2 ∷ []) ≡ true
      → (lookup {Body = String} as_digest same 50 create_run (1 ∷ 2 ∷ []) (
          calls as_digest same others
            (remember as_digest 10 11 create_run (1 ∷ 2 ∷ []) 201 "run 7" before))).1
        ≡ some (replayed 201 "run 7"))
    × (same (1 ∷ 2 ∷ []) (1 ∷ 2 ∷ []) ≡ false
        → (lookup {Body = String} as_digest same 50 create_run (1 ∷ 2 ∷ []) (
            calls as_digest same others
              (remember as_digest 10 11 create_run (1 ∷ 2 ∷ []) 201 "run 7" before))).1
          ≡ some conflict)
remembered-replays_example =
    remembered-replays as_digest same 10 11 50 create_run (1 ∷ 2 ∷ []) (1 ∷ 2 ∷ []) 201 "run 7"
      others before ((omega arith, refl), tt) (omega arith)
