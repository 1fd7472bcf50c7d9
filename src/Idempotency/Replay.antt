-- ===== src/Idempotency/Replay.antt =====
-- api/idempotency.py: what a lookup answers after a write was remembered.
use code_migrator.Base.{
  string_eq, pair_eq, ℕ, ◌+◌, ◌<◌, ◌≡◌, refl, ap, ◌∙◌, Bool, true, false, some, List, [], ◌∷◌,
  arith, ◌==◌, keep, get, get-put, PyEq, ltb, inl, inr, Bool-cases,
}
use code_migrator.Base.Tests.{pair_beq_iff, string_eq}
use code_migrator.Idempotency.Store.{
  Entry, replayed, conflict, Key, Store, ttl, purge, remember, answer, lookup,
}

-- What an entry that is kept comes from: the keys are distinct, or the entry is the first with its
-- key.
module _ {ℓ κ} {K : Type ℓ} {V : Type κ} ⦃e : PyEq K⦄ where
  get-keep_first :
      (p : K × V → Bool) (k : K) (v : V) (d : List (K × V))
      → get k d ≡ some v
      → p (k, v) ≡ true
      → get k (keep p d) ≡ some v
  unfolding get
  get-keep_first p k v [] h t = absurd (ground arith)
  get-keep_first p k v ((j, w) ∷ d) h t = elim (Bool-cases (j == k)) [
    | inl same ↦
        let key : j ≡ k = (e.equals_iff j k).0 same in
        let value : w ≡ v = ground (arith, rw same at h) in
        let kept : p (j, w) ≡ true = rw (key, value) t in rw (kept, same) (ap some value)
    | inr other ↦ elim (Bool-cases (p (j, w))) [
      | inl kept ↦ rw (kept, other) (get-keep_first p k v d (rw other at h) t)
      | inr gone ↦ rw gone (get-keep_first p k v d (rw other at h) t)
    ]
  ]

-- A later call: a write that is remembered, or a lookup, which purges.
pub data Call (Body : Type 0) : Type 0 where
  remembers : ℕ → ℕ → Key → List ℕ → ℕ → Body → Call Body
  looks_up : ℕ → Key → List ℕ → Call Body

module _ {Body : Type 0} where
  -- A call before an instant that remembers nothing for the key.
  abbrev pub IsOther : Key → ℕ → Call Body → Type 0
  IsOther key end (remembers purge_time now k body_bytes status body) =
      (purge_time < end) × ((k == key) ≡ false)
  IsOther key end (looks_up now k body_bytes) = now < end

  abbrev pub AllOther : Key → ℕ → List (Call Body) → Type 0
  AllOther key end [] = Unit
  AllOther key end (c ∷ cs) = IsOther key end c × AllOther key end cs

module _ {Body Digest : Type 0} (digest : List ℕ → Digest) (same : Digest → Digest → Bool) where
  abbrev pub entry_of : List ℕ → ℕ → Body → ℕ → Entry Body Digest
  entry_of canonical_body status body now = record {
    body_digest = digest canonical_body;
    status_code = status;
    body = body;
    expires_at = now + ttl;
  }

  unfoldable pub call : Call Body → Store Body Digest → Store Body Digest
  unfolding remember lookup
  call (remembers purge_time now key body_bytes status body) d =
      remember digest purge_time now key body_bytes status body d
  call (looks_up now key body_bytes) d = (lookup digest same now key body_bytes d).0

  unfoldable pub calls : List (Call Body) → Store Body Digest → Store Body Digest
  unfolding call
  calls [] d = d
  calls (c ∷ cs) d = calls cs (call c d)

  kept_by_purge :
      (key : Key) (v : Entry Body Digest) (now : ℕ) (d : Store Body Digest)
      → get key d ≡ some v
      → now < v.expires_at
      → get key (purge now d) ≡ some v
  unfolding purge
  kept_by_purge key v now d h lt =
      get-keep_first (λ item. ltb now item.1.expires_at) key v d h (ground arith)

  kept_by_call :
      (key : Key) (v : Entry Body Digest) (c : Call Body) (d : Store Body Digest)
      → get key d ≡ some v
      → IsOther key v.expires_at c
      → get key (call c d) ≡ some v
  unfolding call remember lookup
  kept_by_call key v (remembers purge_time now k body_bytes status body) d h other =
      get-put k key _ (purge purge_time d)
      ∙ rw (other.1) (kept_by_purge key v purge_time d h other.0)
  kept_by_call key v (looks_up now k body_bytes) d h other = kept_by_purge key v now d h other

  kept_by_calls :
      (key : Key) (v : Entry Body Digest) (cs : List (Call Body)) (d : Store Body Digest)
      → get key d ≡ some v
      → AllOther key v.expires_at cs
      → get key (calls cs d) ≡ some v
  unfolding calls
  kept_by_calls key v [] d h others = h
  kept_by_calls key v (c ∷ cs) d h others =
      kept_by_calls key v cs (call c d) (kept_by_call key v c d h others.0) others.1

  -- Within 24 hours after a response was remembered for a key, whatever calls come between that
  -- remember nothing for that key, a lookup of the key with a body of the same digest answers with
  -- the response, and one with a body of another digest with a conflict.
  pub remembered-replays :
      (purge_time now later : ℕ) (key : Key) (written asked : List ℕ) (status : ℕ) (body : Body)
      (cs : List (Call Body)) (d : Store Body Digest)
      → AllOther key (now + ttl) cs
      → later < now + ttl
      → (same (digest written) (digest asked) ≡ true
          → (lookup digest same later key asked
              (calls cs (remember digest purge_time now key written status body d))).1
            ≡ some (replayed status body))
        × (same (digest written) (digest asked) ≡ false
            → (lookup digest same later key asked
                (calls cs (remember digest purge_time now key written status body d))).1
              ≡ some conflict)
  unfolding lookup remember answer
  remembered-replays purge_time now later key written asked status body cs d others lt =
      let v = entry_of written status body now in
      let s = remember digest purge_time now key written status body d in
      let stored : get key s ≡ some v =
        get-put key key v (purge purge_time d) ∙ rw ((pair_beq_iff key key).1 refl) refl in
      let found : get key (purge later (calls cs s)) ≡ some v =
        kept_by_purge key v later (calls cs s) (kept_by_calls key v cs s stored others) lt in
      (
        λ e. ap (answer same (digest asked)) found ∙ rw (e, answer) refl,
        λ e. ap (answer same (digest asked)) found ∙ rw (e, answer) refl,
      )
