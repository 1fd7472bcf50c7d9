-- ===== src/Wallet/Examples.antt =====
-- A wallet with a small budget, whose ratios are pairs compared by cross multiplication, and the
-- theorems at it.
use code_migrator.Base.{string_eq, ℕ, ◌*◌, ◌≡◌, refl, Bool, true, [], ◌∷◌, leb, contains, add}
use code_migrator.Wallet.Account.{
  Amounts, UsageReceipt, new_wallet, sum, utilization_of, evaluate_budget, is_exhausted, admit,
  record_receipt,
}
use code_migrator.Wallet.Receipts.{record_all, replay-unchanged, record_receipt-admits}

abbrev Ratio : Type 0
Ratio = ℕ × ℕ

abbrev over : ℕ → ℕ → Ratio
over a b = (a, b)

abbrev at_least : Ratio → Ratio → Bool
at_least (a, b) (c, d) = leb (c * b) (a * d)

abbrev limits : Amounts
limits = record { input_tokens = 100; output_tokens = 50; cost_micros = 1000 }

abbrev receipt : UsageReceipt
receipt = record {
  receipt_id = "r1";
  usage = record { input_tokens = 60; output_tokens = 10; cost_micros = 5 };
}

abbrev last_receipt : UsageReceipt
last_receipt = record {
  receipt_id = "r2";
  usage = record { input_tokens = 60; output_tokens = 10; cost_micros = 5 };
}

replay-unchanged_example :
    record_all Ratio over at_least
      (4, 5)
      (1, 1)
      limits
      new_wallet
      (receipt ∷ last_receipt ∷ receipt ∷ [])
    ≡ record_all Ratio over at_least (4, 5) (1, 1) limits new_wallet (receipt ∷ last_receipt ∷ [])
replay-unchanged_example =
    replay-unchanged Ratio over at_least (4, 5) (1, 1) limits new_wallet receipt (last_receipt ∷ [])

record_receipt-admits_example :
    true
    ≡ admit Ratio over at_least
        (4, 5)
        (1, 1)
        limits
        (record_receipt Ratio over at_least (4, 5) (1, 1) limits new_wallet receipt).0
unfolding record_receipt evaluate_budget sum utilization_of is_exhausted contains add
record_receipt-admits_example =
    record_receipt-admits Ratio over at_least (4, 5) (1, 1) limits new_wallet receipt true refl
