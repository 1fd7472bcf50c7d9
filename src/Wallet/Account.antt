-- ===== src/Wallet/Account.antt =====
-- runtime/budget.py: limits, usage and evaluation, and the wallet. Division and order of the
-- quotients are parameters: they are floating-point in the source.
use code_migrator.Base.{
  string_eq, ℕ, ◌+◌, String, Bool, false, not, ◌&&◌, List, [], ◌==◌, if◌then◌else◌, contains, add,
  nat_beq, Result, ok, err,
}

pub record Amounts : Type 0 where
  pub input_tokens : ℕ
  pub output_tokens : ℕ
  pub cost_micros : ℕ

-- `BudgetLimits.__post_init__`: no limit is zero. Negative amounts have no case.
unfoldable pub budget_limits : Amounts → Result String Amounts
budget_limits l =
    if nat_beq l.input_tokens 0
    then err "input_tokens must be greater than zero"
    else if nat_beq l.output_tokens 0
    then err "output_tokens must be greater than zero"
    else if nat_beq l.cost_micros 0
    then err "cost_micros must be greater than zero"
    else ok l

abbrev pub no_usage : Amounts
no_usage = record { input_tokens = 0; output_tokens = 0; cost_micros = 0 }

unfoldable pub sum : Amounts → Amounts → Amounts
sum a b = record {
  input_tokens = a.input_tokens + b.input_tokens;
  output_tokens = a.output_tokens + b.output_tokens;
  cost_micros = a.cost_micros + b.cost_micros;
}

-- `RunWallet`; its limits are an argument of the methods.
pub record RunWallet : Type 0 where
  pub usage : Amounts
  pub receipt_ids : List String

abbrev pub new_wallet : RunWallet
new_wallet = record { usage = no_usage; receipt_ids = [] }

pub record UsageReceipt : Type 0 where
  pub receipt_id : String
  pub usage : Amounts

module _ (Float : Type 0) (divide : ℕ → ℕ → Float) (at_least : Float → Float → Bool)
    (four_fifths unit : Float) where
  pub record BudgetEvaluation : Type 0 where
    pub usage : Amounts
    pub utilization : Float
    pub warning : Bool
    pub exhausted : Bool

  -- Python's `max` of two and three arguments: the first of the greatest.
  abbrev pub max_of : Float → Float → Float
  max_of a b = if at_least a b then a else b

  unfoldable pub utilization_of : Amounts → Amounts → Float
  utilization_of limits usage =
      max_of
        (max_of (divide usage.input_tokens limits.input_tokens)
          (divide usage.output_tokens limits.output_tokens))
        (divide usage.cost_micros limits.cost_micros)

  unfoldable pub evaluate_budget : Amounts → Amounts → Amounts → Bool → BudgetEvaluation
  unfolding sum utilization_of
  evaluate_budget previous limits additions warning_already_emitted =
      let usage = sum previous additions in
      let utilization = utilization_of limits usage in
      record {
        usage = usage;
        utilization = utilization;
        warning = not warning_already_emitted && at_least utilization four_fifths;
        exhausted = at_least utilization unit;
      }

  unfoldable pub is_exhausted : Amounts → Amounts → Bool
  unfolding utilization_of
  is_exhausted limits usage = at_least (utilization_of limits usage) unit

  unfoldable pub admit : Amounts → RunWallet → Bool
  unfolding is_exhausted
  admit limits w = not (is_exhausted limits w.usage)

  unfoldable pub record_receipt :
      Amounts → RunWallet → UsageReceipt → RunWallet × Result String Bool
  unfolding is_exhausted evaluate_budget
  record_receipt limits w receipt =
      if receipt.receipt_id == ""
      then (w, err "wallet requires a typed usage receipt")
      else if contains receipt.receipt_id w.receipt_ids
      then (w, ok (not (is_exhausted limits w.usage)))
      else let evaluation = evaluate_budget w.usage limits receipt.usage false in
        (
          record { usage = evaluation.usage; receipt_ids = add receipt.receipt_id w.receipt_ids },
          ok (not evaluation.exhausted),
        )
