-- ===== src/Billing/Grace.antt =====
-- The freeze: `_unpaid_invoice_query`, `enforce_grace` and `_expire_abandoned_purchases` of
-- services/billing.py.
use chmabapay.Base.{
  ℕ, ◌+◌, Bool, true, false, not, ◌&&◌, Option, none, some, List, [], ◌∷◌, length, take, select,
  update_where, sort_by, is_some_eq, is_some, leb, ◌==◌, if◌then◌else◌,
}
use chmabapay.Model.{
  Instant, Account, AccountStatus, PlanInvoice, InvoiceStatus, VoidReason, PlanSubscription,
  AuditAction, Db, Settings,
}
use chmabapay.Stores.{in_force}
use chmabapay.Billing.Clock.{credit_period, grace_period}
use chmabapay.Billing.Terms.{is_unpaid, is_pending}
use chmabapay.Billing.Coverage.{get_subscription, get_account, cancel}
use chmabapay.Billing.Settle.{audit_system}

abbrev pub Row : Type 0
Row = PlanInvoice × PlanSubscription × Account

-- The subscription and the account of an invoice, by two inner joins.
abbrev pub join_row : PlanInvoice → Option PlanSubscription → Option Account → Option Row
join_row i none account = none
join_row i (some s) none = none
join_row i (some s) (some a) = some (i, s, a)

abbrev pub subscription_row : Db → Option ℕ → Option PlanSubscription
subscription_row db none = none
subscription_row db (some id) = get_subscription db id

unfoldable pub joined : Db → List PlanInvoice → List Row
joined db [] = []
joined db (i ∷ invoices) =
    let rest = joined db invoices in
    elim (join_row i (subscription_row db i.subscription_id) (get_account db i.account_id)) [
      | none ↦ rest
      | some row ↦ row ∷ rest
    ]

abbrev pub is_active : AccountStatus → Bool
is_active AccountStatus.active = true
is_active _ = false

-- The guards that both callers of the query share, and the exemption of the platform's account.
abbrev pub has_clock : Bool → Row → Bool
has_clock respect_admin_exemption (i, s, a) =
    is_unpaid i.status
    && (is_some i.due_at
        && (in_force s.status
            && (is_active a.status && not (respect_admin_exemption && a.is_platform_admin))))

abbrev pub due_key : Option Instant → ℕ
due_key none = 0
due_key (some due_at) = due_at

-- `_unpaid_invoice_query`, `ORDER BY due_at`
unfoldable pub unpaid_invoice_query : Db → Bool → List Row
unpaid_invoice_query db respect_admin_exemption =
    sort_by (λ r. due_key r.0.due_at)
      (select (has_clock respect_admin_exemption) (joined db db.invoices))

-- `due_at + grace <= moment`
abbrev pub is_overdue : Settings → Instant → Option Instant → Bool
is_overdue settings now none = false
is_overdue settings now (some due_at) = leb (due_at + grace_period settings) now

unfoldable pub freeze_candidates : Db → Settings → Instant → ℕ → List Row
freeze_candidates db settings now limit =
    select (λ r. is_overdue settings now r.0.due_at) (take limit (unpaid_invoice_query db true))

abbrev pub restrict : Instant → Account → Account
restrict now a = record a { status = AccountStatus.restricted; updated_at = now }

unfoldable pub freeze_each : List Row → Instant → Db → Db
freeze_each [] now db = db
freeze_each ((invoice, s, account) ∷ due) now db =
    let frozen = record db {
      accounts = update_where (λ a. a.id == account.id) (restrict now) db.accounts;
    } in
    freeze_each due now (
      audit_system (AuditAction.account_frozen invoice.id invoice.total_due_cents invoice.due_at)
        account.id frozen)

abbrev pub supersede : Instant → PlanInvoice → PlanInvoice
supersede now i = record i {
  status = InvoiceStatus.void;
  void_reason = some VoidReason.superseded;
  voided_at = some now;
  updated_at = now;
}

abbrev pub is_debt_of : ℕ → PlanInvoice → Bool
is_debt_of subscription_id i = is_some_eq i.subscription_id subscription_id && is_unpaid i.status

unfoldable pub expire_each : List PlanSubscription → Instant → Db → Db
expire_each [] now db = db
expire_each (s ∷ parked) now db = expire_each parked now (record db {
  invoices = update_where (is_debt_of s.id) (supersede now) db.invoices;
  subscriptions = update_where (λ t. t.id == s.id) (cancel now) db.subscriptions;
})

-- `created_at <= now - CREDIT_PERIOD`
abbrev pub is_abandoned : Instant → PlanSubscription → Bool
is_abandoned now s = is_pending s.status && leb (s.created_at + credit_period) now

unfoldable pub expire_abandoned_purchases : Db → Instant → ℕ → Db × ℕ
unfolding expire_each
expire_abandoned_purchases db now limit =
    let parked = take limit (select (is_abandoned now) db.subscriptions) in
    (expire_each parked now db, length parked)

pub record Enforcement : Type 0 where
  pub enforced : Bool
  pub due : ℕ
  pub frozen : ℕ
  pub abandoned_purchases : ℕ

-- The limit of the abandoned purchases is the default of that function.
unfoldable pub enforce_grace : Db → Settings → Instant → ℕ → Db × Enforcement
enforce_grace db settings now limit =
    let due = freeze_candidates db settings now limit in
    let on = settings.billing_enforce_enabled in
    let frozen = if on then freeze_each due now db else db in
    let (db', abandoned) = expire_abandoned_purchases frozen now 500 in
    (
      db',
      record {
        enforced = on;
        due = length due;
        frozen = if on then length due else 0;
        abandoned_purchases = abandoned;
      },
    )
