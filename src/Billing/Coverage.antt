-- ===== src/Billing/Coverage.antt =====
-- Subscriptions in force: `retire_live_subscriptions`, `extend_coverage`, `activate_subscription`
-- and `lift_billing_hold` of services/billing.py.
use chmabapay.Base.{
  ℕ, Bool, true, false, not, ◌&&◌, Option, none, some, find_by, update_where, ◌==◌, if◌then◌else◌,
}
use chmabapay.Model.{
  Instant, Account, AccountStatus, PlanSubscription, SubscriptionStatus, PlanInvoice, Db,
}
use chmabapay.Stores.{in_force}
use chmabapay.Billing.Terms.{is_pending}

abbrev pub cancel : Instant → PlanSubscription → PlanSubscription
cancel now s = record s {
  status = SubscriptionStatus.canceled;
  canceled_at = some now;
  updated_at = now;
}

-- A subscription of the account that is `trial` or `active`.
abbrev pub is_live : ℕ → PlanSubscription → Bool
is_live account s = (s.account_id == account) && in_force s.status

-- `session.get(models.PlanSubscription, id)`
abbrev pub get_subscription : Db → ℕ → Option PlanSubscription
get_subscription db id = find_by (λ s. s.id == id) db.subscriptions

-- `session.get(models.Account, id)`
abbrev pub get_account : Db → ℕ → Option Account
get_account db id = find_by (λ a. a.id == id) db.accounts

unfoldable pub retire_live_subscriptions : Db → ℕ → Instant → Db
retire_live_subscriptions db account now = record db {
  subscriptions = update_where (is_live account) (cancel now) db.subscriptions;
}

abbrev pub bill_next : Instant → Instant → PlanSubscription → PlanSubscription
bill_next period_end now s = record s { next_billing_at = period_end; updated_at = now }

unfoldable pub extend_to : Db → Option Instant → Option ℕ → Instant → Db
extend_to db none subscription_id now = db
extend_to db (some period_end) none now = db
extend_to db (some period_end) (some id) now = record db {
  subscriptions = update_where (λ s. s.id == id) (bill_next period_end now) db.subscriptions;
}

-- An update of no row, where the subscription is missing.
unfoldable pub extend_coverage : Db → PlanInvoice → Instant → Db
unfolding extend_to
extend_coverage db invoice now = extend_to db invoice.period_end invoice.subscription_id now

abbrev pub or_now : Option Instant → Instant → Option Instant
or_now none now = some now
or_now (some t) now = some t

abbrev pub put_in_force : Instant → PlanSubscription → PlanSubscription
put_in_force now s = record s {
  status = SubscriptionStatus.active;
  started_at = or_now s.started_at now;
  updated_at = now;
}

-- The other subscriptions of the account that are in force.
abbrev pub is_replaced : PlanSubscription → PlanSubscription → Bool
is_replaced chosen s =
    (s.account_id == chosen.account_id) && (not (s.id == chosen.id) && in_force s.status)

unfoldable pub activate_subscription : Db → ℕ → Instant → Db × Option PlanSubscription
activate_subscription db id now = elim (get_subscription db id) [
  | none ↦ (db, none)
  | some s ↦
      if is_pending s.status
      then (
        record db {
          subscriptions =
              update_where (λ t. t.id == s.id) (put_in_force now)
                (update_where (is_replaced s) (cancel now) db.subscriptions);
        },
        some (put_in_force now s),
      )
      else (db, none)
]

abbrev pub is_restricted : AccountStatus → Bool
is_restricted AccountStatus.restricted = true
is_restricted _ = false

abbrev pub unfreeze : Instant → Account → Account
unfreeze now a = record a { status = AccountStatus.active; updated_at = now }

-- Lifts the freeze of a loaded account, and says whether anything changed.
unfoldable pub lift_billing_hold : Db → Option Account → Instant → Db × Bool
lift_billing_hold db none now = (db, false)
lift_billing_hold db (some account) now =
    if is_restricted account.status
    then (
      record db { accounts = update_where (λ a. a.id == account.id) (unfreeze now) db.accounts },
      true,
    )
    else (db, false)
