-- ===== src/Billing/Settle.antt =====
-- `settle_invoice_for_payment`, `settle_invoice` and `_reinstate` of services/billing.py.
use chmabapay.Base.{
  ℕ, ◌+◌, Bool, false, Option, none, some, [], ◌∷◌, ◌++◌, find_by, update_where, is_some_eq,
  is_some, ltb, ◌==◌, if◌then◌else◌, Text,
}
use chmabapay.Base.Int.{pos}
use chmabapay.Model.{
  Instant, Account, Plan, PlanInvoice, InvoiceStatus, VoidReason, PlanSubscription,
  SubscriptionStatus, AuditLog, AuditAction, Db, Settings,
}
use chmabapay.Stores.{apply_store_cap}
use chmabapay.Billing.Clock.{credit_period, grace_period, period_month_for, days_between}
use chmabapay.Billing.Terms.{is_paid}
use chmabapay.Billing.Issue.{add_invoice}
use chmabapay.Billing.Coverage.{
  get_subscription, get_account, retire_live_subscriptions, extend_coverage, activate_subscription,
  lift_billing_hold,
}

-- An assignment to the fields of a loaded invoice.
abbrev pub update_invoice : ℕ → (PlanInvoice → PlanInvoice) → Db → Db
update_invoice id f db = record db { invoices = update_where (λ i. i.id == id) f db.invoices }

abbrev pub pay : Instant → Instant → PlanInvoice → PlanInvoice
pay paid_at now i = record i {
  status = InvoiceStatus.paid;
  paid_at = some paid_at;
  updated_at = now;
}

-- The payment reference is given up only where a payment takes it over.
abbrev pub lapse : Option ℕ → Instant → PlanInvoice → PlanInvoice
lapse payment now i = record i {
  status = InvoiceStatus.void;
  void_reason = some VoidReason.grace_expired;
  voided_at = some now;
  chmabapay_payment_id = if is_some payment then none else i.chmabapay_payment_id;
  updated_at = now;
}

abbrev pub add_subscription : PlanSubscription → Db → Db
add_subscription s db = record db {
  subscriptions = db.subscriptions ++ s ∷ [];
  next_subscription = db.next_subscription + 1;
}

abbrev pub reinstated : Db → PlanInvoice → PlanSubscription → Instant → Instant → PlanSubscription
reinstated db invoice subscription paid_at now = record {
  id = db.next_subscription;
  account_id = invoice.account_id;
  plan_id = subscription.plan_id;
  status = SubscriptionStatus.active;
  started_at = some paid_at;
  canceled_at = none;
  next_billing_at = paid_at + credit_period;
  created_at = now;
  updated_at = now;
}

abbrev pub granted : Db → PlanInvoice → Option ℕ → Instant → Instant → PlanInvoice
granted db invoice payment paid_at now = record {
  id = db.next_invoice;
  account_id = invoice.account_id;
  subscription_id = some db.next_subscription;
  period_month = period_month_for paid_at;
  period_start = some paid_at;
  period_end = some (paid_at + credit_period);
  due_at = some paid_at;
  status = InvoiceStatus.paid;
  base_fee_cents = invoice.base_fee_cents;
  usage_payments_count = pos 0;
  overage_payments_count = 0;
  overage_fee_cents = 0;
  total_due_cents = invoice.total_due_cents;
  paid_at = some paid_at;
  voided_at = none;
  void_reason = none;
  chmabapay_payment_id = payment;
  updated_at = now;
}

abbrev pub due_or : Option Instant → Instant → Instant
due_or none paid_at = paid_at
due_or (some due_at) paid_at = due_at

-- `audit.record` with no actor
abbrev pub audit_system : AuditAction → ℕ → Db → Db
audit_system action target db =
    let log : AuditLog = record { actor_account_id = none; action = action; target_id = target } in
    record db { audit_log = db.audit_log ++ log ∷ [] }

-- A fresh window from the payment instant: the live subscriptions of the account are retired, a new
-- one and a paid invoice for its window are written, and the lapsed invoice is voided.
unfoldable pub reinstate :
    Db → PlanInvoice → PlanSubscription → Option ℕ → Instant → Text → Instant → Db × PlanInvoice
unfolding retire_live_subscriptions
reinstate db invoice subscription payment paid_at source now =
    let retired = retire_live_subscriptions db invoice.account_id now in
    let grant = granted db invoice payment paid_at now in
    let added =
      add_invoice grant
        (add_subscription (reinstated db invoice subscription paid_at now) retired) in
    let action =
      AuditAction.reinstated invoice.id grant.id
        (days_between (due_or invoice.due_at paid_at) paid_at) (paid_at + credit_period) source in
    (
      audit_system action invoice.account_id (update_invoice invoice.id (lapse payment now) added),
      grant,
    )

-- `paid_at > due_at + grace_period()`
unfoldable pub is_lapsed : Settings → Option Instant → Instant → Bool
unfolding grace_period
is_lapsed settings none paid_at = false
is_lapsed settings (some due_at) paid_at = ltb (due_at + grace_period settings) paid_at

-- The window that the invoice describes is still the merchant's.
unfoldable pub settle_on_time : Db → PlanInvoice → PlanSubscription → Instant → Instant → Db
unfolding extend_coverage activate_subscription
settle_on_time db invoice subscription paid_at now =
    let paid = update_invoice invoice.id (pay paid_at now) db in
    extend_coverage (activate_subscription paid subscription.id now).0 invoice now

unfoldable pub settle_subscription :
    Db → Settings → PlanInvoice → PlanSubscription → Option ℕ → Instant → Text → Instant → Db
unfolding is_lapsed reinstate settle_on_time
settle_subscription db settings invoice subscription payment paid_at source now =
    if is_lapsed settings invoice.due_at paid_at
    then (reinstate db invoice subscription payment paid_at source now).0
    else settle_on_time db invoice subscription paid_at now

unfoldable pub cap_to_plan : Db → ℕ → Option Plan → Instant → Db
unfolding apply_store_cap
cap_to_plan db account none now = db
cap_to_plan db account (some plan) now = (apply_store_cap db account plan.max_stores now).0

-- The freeze is lifted, and the stores are held to the allowance of the plan.
unfoldable pub welcome_back : Db → Option Account → ℕ → Instant → Db
unfolding lift_billing_hold cap_to_plan
welcome_back db none plan_id now = db
welcome_back db (some account) plan_id now =
    let lifted = (lift_billing_hold db (some account) now).0 in
    cap_to_plan lifted account.id (find_by (λ p. p.id == plan_id) db.plans) now

abbrev pub subscription_of : Db → Option ℕ → Option PlanSubscription
subscription_of db none = none
subscription_of db (some id) = get_subscription db id

-- The new state, and the invoice's key where there was something to settle.
unfoldable pub settle_invoice :
    Db → Settings → PlanInvoice → Option ℕ → Instant → Text → Instant → Db × Option ℕ
settle_invoice db settings invoice payment paid_at source now =
    if is_paid invoice.status
    then (db, none)
    else elim (subscription_of db invoice.subscription_id) [
      | none ↦ (update_invoice invoice.id (pay paid_at now) db, some invoice.id)
      | some subscription ↦ (
        welcome_back
            (settle_subscription db settings invoice subscription payment paid_at source now)
            (get_account db invoice.account_id) subscription.plan_id now,
        some invoice.id,
      )
    ]

-- `payment` is the payment's primary key, and `source` is `"khqr"`.
unfoldable pub settle_invoice_for_payment :
    Db → Settings → ℕ → Instant → Text → Instant → Db × Option ℕ
settle_invoice_for_payment db settings payment paid_at source now =
    elim (find_by (λ i. is_some_eq i.chmabapay_payment_id payment) db.invoices) [
      | none ↦ (db, none)
      | some invoice ↦ settle_invoice db settings invoice (some payment) paid_at source now
    ]
