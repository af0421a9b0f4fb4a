-- ===== src/Billing/Receipt.antt =====
-- What a settlement of services/billing.py owes the merchant, column by column.
use chmabapay.Base.{ℕ, ◌+◌, ◌≡◌, Option, none, some}
use chmabapay.Model.{
  Instant, PlanInvoice, InvoiceStatus, VoidReason, PlanSubscription, SubscriptionStatus,
}

-- 30 days of 86,400 seconds of 1,000,000 microseconds
abbrev pub thirty_days : ℕ
thirty_days = 2_592_000_000_000

-- `after` is the invoice `before`, paid.
abbrev pub IsReceipt : Instant → PlanInvoice → PlanInvoice → Type 0
IsReceipt paid_at before after =
    (after.status ≡ InvoiceStatus.paid)
    × (after.paid_at ≡ some paid_at)
    × (after.account_id ≡ before.account_id)
    × (after.subscription_id ≡ before.subscription_id)
    × (after.period_start ≡ before.period_start)
    × (after.period_end ≡ before.period_end)
    × (after.total_due_cents ≡ before.total_due_cents)
    × (after.chmabapay_payment_id ≡ before.chmabapay_payment_id)

-- `after` is the invoice `before`, given up without a payment.
abbrev pub IsWrittenOff : Instant → PlanInvoice → PlanInvoice → Type 0
IsWrittenOff now before after =
    (after.status ≡ InvoiceStatus.void)
    × (after.void_reason ≡ some VoidReason.grace_expired)
    × (after.voided_at ≡ some now)
    × (after.paid_at ≡ before.paid_at)
    × (after.account_id ≡ before.account_id)
    × (after.subscription_id ≡ before.subscription_id)
    × (after.total_due_cents ≡ before.total_due_cents)

-- A paid invoice of the same amount for thirty days of the subscription from the payment on.
abbrev pub IsFreshWindow :
    Option ℕ → Instant → PlanInvoice → PlanSubscription → PlanInvoice → Type 0
IsFreshWindow payment paid_at lapsed s new =
    (new.status ≡ InvoiceStatus.paid)
    × (new.paid_at ≡ some paid_at)
    × (new.period_start ≡ some paid_at)
    × (new.period_end ≡ some (paid_at + thirty_days))
    × (new.account_id ≡ lapsed.account_id)
    × (new.subscription_id ≡ some s.id)
    × (new.total_due_cents ≡ lapsed.total_due_cents)
    × (new.chmabapay_payment_id ≡ payment)

-- `after` is in force from `paid_at` for thirty days, with the plan of `before`.
abbrev pub IsFreshStart : Instant → PlanInvoice → PlanSubscription → PlanSubscription → Type 0
IsFreshStart paid_at lapsed before after =
    (after.status ≡ SubscriptionStatus.active)
    × (after.account_id ≡ lapsed.account_id)
    × (after.plan_id ≡ before.plan_id)
    × (after.started_at ≡ some paid_at)
    × (after.canceled_at ≡ none)
    × (after.next_billing_at ≡ paid_at + thirty_days)

-- A payment puts a subscription in force that waits for it.
abbrev pub status_after : SubscriptionStatus → SubscriptionStatus
status_after SubscriptionStatus.pending = SubscriptionStatus.active
status_after SubscriptionStatus.trial = SubscriptionStatus.trial
status_after SubscriptionStatus.active = SubscriptionStatus.active
status_after SubscriptionStatus.canceled = SubscriptionStatus.canceled

-- `after` is the subscription `before`, covered up to `end`.
abbrev pub IsCovered : Instant → PlanSubscription → PlanSubscription → Type 0
IsCovered end before after =
    (after.next_billing_at ≡ end)
    × (after.status ≡ status_after before.status)
    × (after.account_id ≡ before.account_id)
    × (after.plan_id ≡ before.plan_id)
    × (after.canceled_at ≡ before.canceled_at)
