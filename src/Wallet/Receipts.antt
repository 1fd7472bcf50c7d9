-- ===== src/Wallet/Receipts.antt =====
-- runtime/budget.py: receipts that come again, and the answers of a wallet.
use code_migrator.Base.{
  string_eq, ℕ, ◌≡◌, refl, ◌∙◌, Bool, true, ◌||◌, List, [], ◌∷◌, ◌++◌, arith, ◌==◌, contains,
  contains-add, eq_iff, ok, Bool-cases, inl, inr,
}
use code_migrator.Wallet.Account.{
  Amounts, RunWallet, UsageReceipt, admit, is_exhausted, evaluate_budget, record_receipt,
}

module _ (Float : Type 0) (divide : ℕ → ℕ → Float) (at_least : Float → Float → Bool)
    (four_fifths unit : Float) (limits : Amounts) where
  abbrev after : RunWallet → UsageReceipt → RunWallet
  after w r = (record_receipt Float divide at_least four_fifths unit limits w r).0

  -- The wallet after receipts in their order.
  unfoldable pub record_all : RunWallet → List UsageReceipt → RunWallet
  unfolding record_receipt
  record_all w [] = w
  record_all w (r ∷ rs) = record_all (after w r) rs

  -- A receipt that a wallet has, or whose id is empty.
  abbrev is_known : RunWallet → UsageReceipt → Bool
  is_known w r = r.receipt_id == "" || contains r.receipt_id w.receipt_ids

  known-unchanged : (w : RunWallet) (r : UsageReceipt) → is_known w r ≡ true → after w r ≡ w
  unfolding record_receipt
  known-unchanged w r h = elim (Bool-cases (r.receipt_id == "")) [
    | inl e ↦ rw (e, after) refl
    | inr e ↦
        let f : contains r.receipt_id w.receipt_ids ≡ true = ground arith in rw (e, f, after) refl
  ]

  known-after :
      (w : RunWallet) (r s : UsageReceipt) → is_known w s ≡ true → is_known (after w r) s ≡ true
  unfolding record_receipt
  known-after w r s h = elim (Bool-cases (r.receipt_id == "")) [
    | inl e ↦ rw (e, after) h
    | inr e ↦
        rw (e, after)
          (elim (Bool-cases (contains r.receipt_id w.receipt_ids)) [
            | inl f ↦ rw (f, after) h
            | inr f ↦
                rw (f, after) (ground (arith, contains-add r.receipt_id s.receipt_id w.receipt_ids))
          ])
  ]

  recorded-known : (w : RunWallet) (r : UsageReceipt) → is_known (after w r) r ≡ true
  unfolding record_receipt
  recorded-known w r = elim (Bool-cases (r.receipt_id == "")) [
    | inl e ↦ ground arith
    | inr e ↦
        rw (e, after)
          (elim (Bool-cases (contains r.receipt_id w.receipt_ids)) [
            | inl f ↦ rw (f, after) (ground arith)
            | inr f ↦
                rw (f, after)
                  (ground (
                    arith,
                    contains-add r.receipt_id r.receipt_id w.receipt_ids,
                    eq_iff r.receipt_id r.receipt_id,
                  ))
          ])
  ]

  known-record_all :
      (w : RunWallet) (rs : List UsageReceipt) (s : UsageReceipt)
      → is_known w s ≡ true
      → is_known (record_all w rs) s ≡ true
  unfolding record_all
  known-record_all w [] s h = h
  known-record_all w (r ∷ rs) s h = known-record_all (after w r) rs s (known-after w r s h)

  record_all-append :
      (w : RunWallet) (rs ss : List UsageReceipt)
      → record_all w (rs ++ ss) ≡ record_all (record_all w rs) ss
  unfolding record_all
  record_all-append w [] ss = refl
  record_all-append w (r ∷ rs) ss = record_all-append (after w r) rs ss

  -- A receipt that comes again after any others leaves the wallet as it is, usage included, for
  -- every division and order of the ratios.
  pub replay-unchanged :
      (w : RunWallet) (r : UsageReceipt) (rs : List UsageReceipt)
      → record_all w (r ∷ rs ++ r ∷ []) ≡ record_all w (r ∷ rs)
  unfolding record_all
  replay-unchanged w r rs =
      record_all-append (after w r) rs (r ∷ [])
      ∙ known-unchanged (record_all (after w r) rs) r
          (known-record_all (after w r) rs r (recorded-known w r))

  -- What recording a receipt answers is what the wallet then answers to an admission: whether its
  -- usage leaves the budget unexhausted.
  pub record_receipt-admits :
      (w : RunWallet) (r : UsageReceipt) (b : Bool)
      → (record_receipt Float divide at_least four_fifths unit limits w r).1 ≡ ok b
      → b ≡ admit Float divide at_least four_fifths unit limits (after w r)
  unfolding record_receipt admit is_exhausted evaluate_budget
  record_receipt-admits w r b h = elim (Bool-cases (r.receipt_id == "")) [
    | inl e ↦ absurd (ground (arith, rw e at h))
    | inr e ↦ elim (Bool-cases (contains r.receipt_id w.receipt_ids)) [
      | inl f ↦ let k = rw (e, f) at h in rw (e, f, after) (ground arith)
      | inr f ↦ let k = rw (e, f) at h in rw (e, f, after) (ground arith)
    ]
  ]
