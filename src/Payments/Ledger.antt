-- ===== src/Payments/Ledger.antt =====
-- `_record_plan_ledger_entry` of services/payments.py.
use chmabapay.Base.{
  ℕ, Bool, true, false, ◌&&◌, List, [], ◌∷◌, ◌++◌, any_of, ◌==◌, if◌then◌else◌, text_eq,
}
use chmabapay.Base.Int.{ℤ, pos, ◌-ℤ◌}
use chmabapay.Model.{Instant, PeriodMonth, Payment, PlanLedgerEntry, ResourceType, Db}
use chmabapay.Billing.{period_month_for}

abbrev pub is_reversal : ResourceType → Bool
is_reversal ResourceType.payment = false
is_reversal ResourceType.payment_reversal = true

abbrev pub same_type : ResourceType → ResourceType → Bool
same_type ResourceType.payment ResourceType.payment = true
same_type ResourceType.payment_reversal ResourceType.payment_reversal = true
same_type _ _ = false

abbrev pub same_period : PeriodMonth → PeriodMonth → Bool
same_period a b = (a.0 == b.0) && (a.1 == b.1)

abbrev pub resource_type : Bool → ResourceType
resource_type false = ResourceType.payment
resource_type true = ResourceType.payment_reversal

-- `-amount if reversal else amount`
abbrev pub signed : Bool → ℕ → ℤ
signed false amount = pos amount
signed true amount = pos 0 -ℤ pos amount

abbrev pub ledger_entry : ℕ → Payment → Bool → Instant → PlanLedgerEntry
ledger_entry account payment reversal now = record {
  account_id = account;
  period_month = period_month_for now;
  resource_type = resource_type reversal;
  resource_id = payment.public_id;
  amount_cents_delta = signed reversal payment.amount_cents;
  total_payments_count = signed reversal 1;
}

-- The key of the unique constraint.
abbrev pub same_key : PlanLedgerEntry → PlanLedgerEntry → Bool
same_key a b =
    same_period a.period_month b.period_month
    && (same_type a.resource_type b.resource_type && text_eq a.resource_id b.resource_id)

-- `ON CONFLICT DO NOTHING`
unfoldable pub insert_entry : PlanLedgerEntry → List PlanLedgerEntry → List PlanLedgerEntry
insert_entry entry ledger = if any_of (same_key entry) ledger then ledger else ledger ++ entry ∷ []

unfoldable pub record_plan_ledger_entry : Db → ℕ → Payment → Bool → Instant → Db
unfolding insert_entry
record_plan_ledger_entry db account payment reversal now = record db {
  ledger = insert_entry (ledger_entry account payment reversal now) db.ledger;
}
