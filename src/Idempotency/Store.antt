-- ===== src/Idempotency/Store.antt =====
-- api/idempotency.py: `IdempotencyStore`. Instants are natural numbers of microseconds, and each call takes the
-- instants that the clock gives it: two for `remember`, one for `lookup`. The digest is a parameter.
use code_migrator.Base.{
  string_eq, pair_eq, ℕ, ◌+◌, String, Bool, Option, none, some, List, if◌then◌else◌, keep, get, put,
  ltb,
}

-- Principal, route and key.
abbrev pub Key : Type 0
Key = String × (String × String)

module _ (Body Digest : Type 0) where
  pub record Entry : Type 0 where
    pub body_digest : Digest
    pub status_code : ℕ
    pub body : Body
    pub expires_at : ℕ

  -- A conflict is the status 409 with its own body.
  pub data IdempotencyResult : Type 0 where
    replayed : ℕ → Body → IdempotencyResult
    conflict : IdempotencyResult

  -- `_entries`
  abbrev pub Store : Type 0
  Store = List (Key × Entry)

-- 24 hours.
abbrev pub ttl : ℕ
ttl = 86400000000

module _ {Body Digest : Type 0} where
  unfoldable pub purge : ℕ → Store Body Digest → Store Body Digest
  purge now entries = keep (λ item. ltb now item.1.expires_at) entries

  unfoldable pub remember :
      (List ℕ → Digest) → ℕ → ℕ → Key → List ℕ → ℕ → Body → Store Body Digest → Store Body Digest
  unfolding purge
  remember digest purge_time now key canonical_body status_code body entries =
      put key
        (record {
          body_digest = digest canonical_body;
          status_code = status_code;
          body = body;
          expires_at = now + ttl;
        })
        (purge purge_time entries)

  unfoldable pub answer :
      (Digest → Digest → Bool)
      → Digest
      → Option (Entry Body Digest)
      → Option (IdempotencyResult Body Digest)
  answer same digest none = none
  answer same digest (some entry) =
      if same entry.body_digest digest
      then some (replayed entry.status_code entry.body)
      else some conflict

  unfoldable pub lookup :
      (List ℕ → Digest)
      → (Digest → Digest → Bool)
      → ℕ
      → Key
      → List ℕ
      → Store Body Digest
      → Store Body Digest × Option (IdempotencyResult Body Digest)
  unfolding purge answer
  lookup digest same now key canonical_body entries =
      (purge now entries, answer same (digest canonical_body) (get key (purge now entries)))
