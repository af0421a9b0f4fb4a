-- ===== src/Billing/Issue.antt =====
-- Raising invoices: `period_usage`, `find_invoice_for_window`, `find_open_invoice`, `issue_invoice`
-- and `issue_due_invoices` of services/billing.py.
use chmabapay.Base.{
  ℕ, ◌+◌, ◌*◌, Bool, true, false, not, ◌&&◌, Option, none, some, List, [], ◌∷◌, ◌++◌, length, take,
  select, find_by, any_of, sort_by, is_some_eq, leb, ltb, ◌==◌, if◌then◌else◌,
}
use chmabapay.Base.Int.{ℤ, pos, pos_part, ◌+ℤ◌, ◌-ℤ◌}
use chmabapay.Model.{
  Instant, PeriodMonth, PlanInvoice, InvoiceStatus, PlanSubscription, Plan, PlanLedgerEntry, Db,
  Settings,
}
use chmabapay.Stores.{in_force}
use chmabapay.Billing.Clock.{day, credit_period, period_month_for}
use chmabapay.Billing.Terms.{is_unpaid, is_void}

abbrev pub is_period : ℕ → PeriodMonth → PlanLedgerEntry → Bool
is_period account label e =
    (e.account_id == account) && ((e.period_month.0 == label.0) && (e.period_month.1 == label.1))

unfoldable pub sum_count : List PlanLedgerEntry → ℤ
sum_count [] = pos 0
sum_count (e ∷ entries) = e.total_payments_count +ℤ sum_count entries

unfoldable pub sum_amount : List PlanLedgerEntry → ℤ
sum_amount [] = pos 0
sum_amount (e ∷ entries) = e.amount_cents_delta +ℤ sum_amount entries

-- The net payments and the net volume of one account-month.
unfoldable pub period_usage : Db → ℕ → PeriodMonth → ℤ × ℤ
unfolding sum_count sum_amount
period_usage db account label =
    let entries = select (is_period account label) db.ledger in
    (sum_count entries, sum_amount entries)

-- The live invoice of a subscription and a window: the predicate of the partial unique index.
abbrev pub is_window : ℕ → Instant → PlanInvoice → Bool
is_window subscription_id period_start i =
    is_some_eq i.subscription_id subscription_id
    && (is_some_eq i.period_start period_start && not (is_void i.status))

unfoldable pub find_invoice_for_window : Db → ℕ → Instant → Option PlanInvoice
find_invoice_for_window db subscription_id period_start =
    find_by (is_window subscription_id period_start) db.invoices

-- `ORDER BY id LIMIT 1`
unfoldable pub find_open_invoice : Db → ℕ → Option PlanInvoice
find_open_invoice db account =
    find_by (λ i. true)
      (sort_by (λ i. i.id)
        (select (λ i. (i.account_id == account) && is_unpaid i.status) db.invoices))

-- `session.add(invoice)`, which gives it the next primary key
abbrev pub add_invoice : PlanInvoice → Db → Db
add_invoice invoice db = record db {
  invoices = db.invoices ++ invoice ∷ [];
  next_invoice = db.next_invoice + 1;
}

abbrev pub new_invoice :
    Db → PlanSubscription → Plan → Instant → Instant → Instant → Instant → PlanInvoice
new_invoice db subscription plan period_start period_end due_at now =
    let label = period_month_for period_start in
    let counted = (period_usage db subscription.account_id label).0 in
    record {
      id = db.next_invoice;
      account_id = subscription.account_id;
      subscription_id = some subscription.id;
      period_month = label;
      period_start = some period_start;
      period_end = some period_end;
      due_at = some due_at;
      status = InvoiceStatus.opened;
      base_fee_cents = plan.monthly_fee_cents;
      usage_payments_count = counted;
      overage_payments_count = pos_part (counted -ℤ pos plan.base_payments_included);
      overage_fee_cents = 0;
      total_due_cents = plan.monthly_fee_cents;
      paid_at = none;
      voided_at = none;
      void_reason = none;
      chmabapay_payment_id = none;
      updated_at = now;
    }

-- The new state, the invoice, and whether it was created now. `now` is the default of the column
-- `updated_at`.
unfoldable pub issue_invoice :
    Db
    → PlanSubscription
    → Plan
    → Instant
    → Instant
    → Instant
    → Instant
    → Db × Option PlanInvoice × Bool
issue_invoice db subscription plan period_start period_end due_at now =
    if leb plan.monthly_fee_cents 0
    then (db, none, false)
    else elim (find_invoice_for_window db subscription.id period_start) [
      | some existing ↦ (db, some existing, false)
      | none ↦
          let invoice = new_invoice db subscription plan period_start period_end due_at now in
          (add_invoice invoice db, some invoice, true)
    ]

-- The join of subscriptions with their plans.
abbrev pub with_plan : List Plan → List PlanSubscription → List (PlanSubscription × Plan)
with_plan plans [] = []
with_plan plans (s ∷ subscriptions) =
    let rest = with_plan plans subscriptions in
    elim (find_by (λ p. p.id == s.plan_id) plans) [ none ↦ rest | some plan ↦ (s, plan) ∷ rest ]

-- A renewal that has entered its lead window and whose window no live invoice claims.
unfoldable pub is_due : Db → Instant → PlanSubscription × Plan → Bool
is_due db horizon (s, plan) =
    in_force s.status
    && (ltb 0 plan.monthly_fee_cents
        && (leb s.next_billing_at horizon
            && not (any_of (is_window s.id s.next_billing_at) db.invoices)))

pub record Sweep : Type 0 where
  pub invoices : ℕ
  pub nothing_to_bill : ℕ
  pub raised : List (PlanInvoice × Plan)

abbrev pub tally : Option PlanInvoice × Bool → Plan → Sweep → Sweep
tally (none, created) plan t = record t { nothing_to_bill = t.nothing_to_bill + 1 }
tally (some invoice, created) plan t = record t {
  invoices = t.invoices + 1;
  raised = if created then t.raised ++ (invoice, plan) ∷ [] else t.raised;
}

unfoldable pub issue_each : List (PlanSubscription × Plan) → Instant → Db → Sweep → Db × Sweep
issue_each [] now db t = (db, t)
issue_each ((s, plan) ∷ due) now db t =
    let (db', invoice, created) =
      issue_invoice db s plan s.next_billing_at (s.next_billing_at + credit_period)
        s.next_billing_at now in
    issue_each due now db' (tally (invoice, created) plan t)

-- The subscriptions that a sweep takes, in the order of their period's end.
unfoldable pub due_rows : Db → Settings → Instant → ℕ → List (PlanSubscription × Plan)
due_rows db settings now limit =
    let horizon = now + pos_part settings.billing_lead_days * day in
    take limit (
      sort_by (λ r. r.0.next_billing_at)
        (select (is_due db horizon) (with_plan db.plans db.subscriptions)))

-- The new state, the number of subscriptions that were due, and the tally; the invoices that it
-- lists as raised are announced after the commit.
unfoldable pub issue_due_invoices : Db → Settings → Instant → ℕ → Db × ℕ × Sweep
issue_due_invoices db settings now limit =
    let due = due_rows db settings now limit in
    let (db', t) =
      issue_each due now db (record { invoices = 0; nothing_to_bill = 0; raised = [] }) in
    (db', length due, t)
