-- ===== src/Portal/ChangePlan.antt =====
-- `_get_active_sub`, `_void_open_invoices` and `change_plan` of routers/billing.py.
use chmabapay.Base.{
  ℕ, ◌+◌, Bool, true, false, not, ◌&&◌, ◌||◌, Option, none, some, List, [], ◌∷◌, ◌++◌, select,
  find_by, update_where, leb, ◌==◌, if◌then◌else◌, Text, text_eq, Result, refuse, and_then,
}
use chmabapay.Base.Results.{ok, err}
use chmabapay.Model.{
  Instant, PeriodMonth, Account, Plan, PlanInvoice, InvoiceStatus, VoidReason, PlanSubscription,
  SubscriptionStatus, AuditLog, AuditAction, Db,
}
use chmabapay.Stores.{apply_store_cap}
use chmabapay.Billing.{
  credit_period, is_unpaid, find_open_invoice, with_plan, issue_invoice, cancel, is_live,
  is_restricted, retire_live_subscriptions, lift_billing_hold, add_subscription,
}

-- The refusals, and the `MultipleResultsFound` of `one_or_none`.
pub data PlanError : Type 0 where
  plan_not_found plan_not_available plan_unchanged : PlanError
  open_invoice_unpaid : ℕ → PeriodMonth → PlanError
  invoice_not_raised multiple_subscriptions : PlanError

pub record ChangePlanOut : Type 0 where
  pub subscription : PlanSubscription
  pub payment_required : Bool
  pub invoice : Option PlanInvoice

abbrev pub ActiveSub : Type 0
ActiveSub = Option (PlanSubscription × Plan)

abbrev pub one_row : List (PlanSubscription × Plan) → Result PlanError ActiveSub
one_row [] = ok none
one_row (r ∷ []) = ok (some r)
one_row (r ∷ s ∷ rows) = err multiple_subscriptions

unfoldable pub get_active_sub : Db → ℕ → Result PlanError ActiveSub
get_active_sub db account = one_row (with_plan db.plans (select (is_live account) db.subscriptions))

abbrev pub void_as : VoidReason → Instant → PlanInvoice → PlanInvoice
void_as reason now i = record i {
  status = InvoiceStatus.void;
  void_reason = some reason;
  voided_at = some now;
  updated_at = now;
}

abbrev pub is_unpaid_of : ℕ → PlanInvoice → Bool
is_unpaid_of account i = (i.account_id == account) && is_unpaid i.status

unfoldable pub void_open_invoices : Db → ℕ → VoidReason → Instant → Db
void_open_invoices db account reason now = record db {
  invoices = update_where (is_unpaid_of account) (void_as reason now) db.invoices;
}

abbrev pub audit_account : Account → AuditAction → Db → Db
audit_account account action db =
    let log : AuditLog = record {
      actor_account_id = some account.id;
      action = action;
      target_id = account.id;
    } in
    record db { audit_log = db.audit_log ++ log ∷ [] }

abbrev pub code_of : ActiveSub → Option Text
code_of none = none
code_of (some (s, plan)) = some plan.code

abbrev pub is_same_plan : ActiveSub → Plan → Bool
is_same_plan none plan = false
is_same_plan (some (s, old)) plan = old.id == plan.id

-- The subscription that a move to a plan writes, in force at once or after a payment.
abbrev pub chosen_subscription :
    Db → ℕ → Plan → SubscriptionStatus → Option Instant → Instant → PlanSubscription
chosen_subscription db account plan status started_at now = record {
  id = db.next_subscription;
  account_id = account;
  plan_id = plan.id;
  status = status;
  started_at = started_at;
  canceled_at = none;
  next_billing_at = now + credit_period;
  created_at = now;
  updated_at = now;
}

abbrev pub cancel_old : ActiveSub → Instant → Db → Db
cancel_old none now db = db
cancel_old (some (old, plan)) now db = record db {
  subscriptions = update_where (λ s. s.id == old.id) (cancel now) db.subscriptions;
}

-- A move to a plan without a fee, at once.
unfoldable pub move_to_free : Db → Account → ActiveSub → Plan → Instant → Db × ChangePlanOut
unfolding void_open_invoices
move_to_free db account old plan now =
    let voided = void_open_invoices db account.id VoidReason.downgraded now in
    let lifted = (lift_billing_hold voided (some account) now).0 in
    let cleared = cancel_old old now lifted in
    let new =
      chosen_subscription cleared account.id plan SubscriptionStatus.active (some now) now in
    let added = add_subscription new cleared in
    let capped = (apply_store_cap added account.id plan.max_stores now).0 in
    (
      audit_account account (AuditAction.plan_changed (code_of old) plan.code) capped,
      record { subscription = new; payment_required = false; invoice = none },
    )

-- The invoice of the purchase, or the error of none.
abbrev pub requested :
    Account
    → ActiveSub
    → Plan
    → PlanSubscription
    → Db × Option PlanInvoice × Bool
    → Result PlanError (Db × ChangePlanOut)
requested account old plan pending (db, none, created) = err invoice_not_raised
requested account old plan pending (db, some invoice, created) = ok (
  audit_account account
      (AuditAction.plan_change_requested (code_of old) plan.code invoice.id invoice.period_month)
      db,
  record { subscription = pending; payment_required = true; invoice = some invoice },
)

-- A purchase: a pending subscription and the invoice of its first period.
unfoldable pub buy :
    Db → Account → ActiveSub → Plan → Instant → Result PlanError (Db × ChangePlanOut)
buy db account old plan now =
    let pending = chosen_subscription db account.id plan SubscriptionStatus.pending none now in
    requested account old plan pending
      (issue_invoice (add_subscription pending db) pending plan now (now + credit_period) now now)

-- A frozen account gives up what it owes and what is in force.
unfoldable pub write_off : Db → ℕ → Instant → Db
unfolding void_open_invoices
write_off db account now =
    retire_live_subscriptions (void_open_invoices db account VoidReason.downgraded now) account now

unfoldable pub buy_beside :
    Db
    → Account
    → ActiveSub
    → Plan
    → Instant
    → Option PlanInvoice
    → Result PlanError (Db × ChangePlanOut)
unfolding buy write_off
buy_beside db account old plan now none = buy db account old plan now
buy_beside db account old plan now (some outstanding) =
    if is_restricted account.status
    then buy (write_off db account.id now) account old plan now
    else err (open_invoice_unpaid outstanding.id outstanding.period_month)

unfoldable pub change_to :
    Db → Account → Plan → Instant → ActiveSub → Result PlanError (Db × ChangePlanOut)
unfolding move_to_free buy_beside
change_to db account plan now old = refuse (is_same_plan old plan) plan_unchanged (
    if leb plan.monthly_fee_cents 0
    then ok (move_to_free db account old plan now)
    else buy_beside db account old plan now (find_open_invoice db account.id))

unfoldable pub change_offered :
    Db → Account → Instant → Option Plan → Result PlanError (Db × ChangePlanOut)
unfolding get_active_sub change_to
change_offered db account now none = err plan_not_found
change_offered db account now (some plan) =
    refuse (not plan.is_public || not plan.is_active) plan_not_available
      (and_then (get_active_sub db account.id) (change_to db account plan now))

-- The new state and the answer; an error leaves the database as it was.
unfoldable pub change_plan : Db → Account → Text → Instant → Result PlanError (Db × ChangePlanOut)
unfolding change_offered
change_plan db account plan_code now =
    change_offered db account now (find_by (λ p. text_eq p.code plan_code) db.plans)
