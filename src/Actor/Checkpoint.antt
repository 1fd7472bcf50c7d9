-- ===== src/Actor/Checkpoint.antt =====
-- runtime/recovery.py: the checkpoint of an actor's cursor, and its restoration. The digest of a payload,
-- the SHA-256 of its RFC 8785 form, is a parameter; a payload without such a form has none, and is an
-- error.
use code_migrator.Base.{
  PyEq, ℕ, String, ◌≡◌, ◌↔◌, sym, ap, ◌∙◌, subst, Bool, true, false, not, Option, none, some, List,
  [], ◌∷◌, arith, ◌==◌, nat_eq, string_eq, if◌then◌else◌, get, option_cases,
}

module _ (Digest : Type 0) where
  pub record ActorCheckpoint : Type 0 where
    pub cursor : String
    pub receipt_refs : List String
    pub candidate_index : ℕ
    pub checksum : Digest

  pub record CheckpointRestore : Type 0 where
    pub checkpoint : Option ActorCheckpoint
    pub rebuild : Bool
    pub completion_evidence : Bool
    pub reason : String

-- The JSON values of a payload.
pub data Field : Type 0 where
  text : String → Field
  texts : List String → Field
  number : ℕ → Field

abbrev pub Payload : Type 0
Payload = List (String × Field)

unfoldable pub payload_of : String → List String → ℕ → Payload
payload_of cursor receipt_refs candidate_index =
    ("cursor", text cursor)
    ∷ ("receipt_refs", texts receipt_refs)
    ∷ ("candidate_index", number candidate_index)
    ∷ []

-- The payload tells its three parts.
payload-parts :
    (s t : String) (xs ys : List String) (i j : ℕ)
    → ((k : String) → get k (payload_of s xs i) ≡ get k (payload_of t ys j))
    → (s ≡ t) × (xs ≡ ys) × (i ≡ j)
unfolding payload_of get
payload-parts s t xs ys i j h =
    let a : some (text s) ≡ some (text t) = h "cursor" in
    let b : some (texts xs) ≡ some (texts ys) = h "receipt_refs" in
    let c : some (number i) ≡ some (number j) = h "candidate_index" in (cc, cc, cc)

module _ {Digest : Type 0} ⦃same : PyEq Digest⦄ (digest : Payload → Option Digest) where
  -- `_checksum`
  unfoldable pub checksum_of : String → List String → ℕ → Option Digest
  checksum_of cursor receipt_refs candidate_index =
      digest (payload_of cursor receipt_refs candidate_index)

  -- `ActorCheckpoint.create`
  unfoldable pub create : String → List String → ℕ → Option (ActorCheckpoint Digest)
  create cursor receipt_refs candidate_index =
      elim (checksum_of cursor receipt_refs candidate_index) [
        | none ↦ none
        | some sum ↦ some (record {
          cursor = cursor;
          receipt_refs = receipt_refs;
          candidate_index = candidate_index;
          checksum = sum;
        })
      ]

  unfoldable pub restore_checkpoint : ActorCheckpoint Digest → Option (CheckpointRestore Digest)
  restore_checkpoint c = elim (checksum_of c.cursor c.receipt_refs c.candidate_index) [
    | none ↦ none
    | some expected ↦ some (
        if not (expected == c.checksum)
        then record {
          checkpoint = none;
          rebuild = true;
          completion_evidence = false;
          reason = "CHECKPOINT_CORRUPT";
        }
        else record {
          checkpoint = some c;
          rebuild = false;
          completion_evidence = false;
          reason = "CHECKPOINT_ACCEPTED";
        })
  ]

  -- The checkpoint that a restoration gives back.
  abbrev pub accepted_in : Option (CheckpointRestore Digest) → Option (ActorCheckpoint Digest)
  accepted_in none = none
  accepted_in (some r) = r.checkpoint

  abbrev pub restored : ActorCheckpoint Digest → Option (ActorCheckpoint Digest)
  restored c = accepted_in (restore_checkpoint c)

  restored-sum :
      (c : ActorCheckpoint Digest)
      → restored c ≡ some c
      → checksum_of c.cursor c.receipt_refs c.candidate_index ≡ some c.checksum
  unfolding restore_checkpoint
  restored-sum c h =
      let sum = checksum_of c.cursor c.receipt_refs c.candidate_index in
      option_cases (λ o. accepted_in o ≡ some c → sum ≡ some c.checksum) sum
        (λ e k. absurd (ground arith))
        (λ x e k. e ∙ ap some (ground (arith, same.equals_iff x c.checksum))) h

  sum-restored :
      (c : ActorCheckpoint Digest)
      → checksum_of c.cursor c.receipt_refs c.candidate_index ≡ some c.checksum
      → restored c ≡ some c
  unfolding restore_checkpoint
  sum-restored c h =
      option_cases (λ o. accepted_in o ≡ some c)
        (checksum_of c.cursor c.receipt_refs c.candidate_index) (λ e. absurd (ground arith))
        (λ x e.
          let agrees : x ≡ c.checksum = ground arith in
          ground (arith, same.equals_iff x c.checksum))

  -- What a created checkpoint holds.
  abbrev Made : String → List String → ℕ → ActorCheckpoint Digest → Type 0
  Made cursor refs index made =
      (made.cursor ≡ cursor)
      × (made.receipt_refs ≡ refs)
      × (made.candidate_index ≡ index)
      × (checksum_of cursor refs index ≡ some made.checksum)

  create-Made :
      (cursor : String) (refs : List String) (index : ℕ) (made : ActorCheckpoint Digest)
      → create cursor refs index ≡ some made
      → Made cursor refs index made
  unfolding create
  create-Made cursor refs index made =
      option_cases (λ o. o ≡ some made → Made cursor refs index made)
        (checksum_of cursor refs index) (λ e k. absurd (ground arith))
        (λ x e k. (ground arith, ground arith, ground arith, e ∙ ap some (ground arith)))

  -- A checkpoint that is read back with the checksum of a created one is restored exactly when it is
  -- that one: what was created is restored, and what was changed is not. The digest tells payloads
  -- apart: two payloads with the same digest have the same value at each key.
  pub restore-create :
      (cursor : String) (refs : List String) (index : ℕ) (made c : ActorCheckpoint Digest)
      → ((p q : Payload) (d : Digest)
          → digest p ≡ some d
          → digest q ≡ some d
          → (k : String) → get k p ≡ get k q)
      → create cursor refs index ≡ some made
      → c.checksum ≡ made.checksum
      → (restored c ≡ some c) ↔ (c ≡ made)
  unfolding checksum_of
  restore-create cursor refs index made c tells created same_sum =
      let (a, b, i, sum) = create-Made cursor refs index made created in
      (
        λ h.
            let read = restored-sum c h ∙ ap some same_sum in
            let parts =
              payload-parts c.cursor cursor c.receipt_refs refs c.candidate_index index
                (tells _ _ made.checksum read sum) in
            same_fields c made (parts.0 ∙ sym a) (parts.1 ∙ sym b) (parts.2 ∙ sym i) same_sum,
        λ h.
            subst (λ (x : ActorCheckpoint Digest). restored x ≡ some x) (sym h)
              (sum-restored made (rw (a, b, i) sum)),
      )
    where
      same_fields :
          (x y : ActorCheckpoint Digest)
          → x.cursor ≡ y.cursor
          → x.receipt_refs ≡ y.receipt_refs
          → x.candidate_index ≡ y.candidate_index
          → x.checksum ≡ y.checksum
          → x ≡ y
      same_fields x y e f g h = cc
