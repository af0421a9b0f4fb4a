-- ===== src/Payments/Quota.antt =====
-- `check_plan_quota`, `quota_deferred_until` and `count_paid_payments_this_month` of
-- services/payments.py, and the queries of its lists.
use chmabapay.Base.{
  ℕ, ◌+◌, ◌-◌, ◌*◌, ◌/◌, min, max, Bool, true, false, not, ◌&&◌, Option, none, some, List, [], ◌∷◌,
  reverse, take, drop, select, any_of, count_where, sort_by, leb, ltb, ◌==◌, if◌then◌else◌,
  starts_with, lower, is_some, Result, refuse,
}
use chmabapay.Base.Results.{ok, err}
use chmabapay.Model.{
  Instant, Payment, PaymentStatus, Plan, PlanSubscription, SubscriptionStatus, Store, Db,
}
use chmabapay.Billing.{civil, day, with_plan, is_live}
use chmabapay.Payments.Confirm.{is_paid, store_of}
use chmabapay.Payments.Expiry.{synthetic_reference_prefix}

pub data QuotaError : Type 0 where
  quota_exceeded multiple_plans : QuotaError

-- `moment.replace(day=1, hour=0, minute=0, second=0, microsecond=0)`
unfoldable pub month_start : Instant → Instant
month_start moment = let (y, m, d) = civil moment in (moment / day - (d - 1)) * day

abbrev is_canceled : SubscriptionStatus → Bool
is_canceled SubscriptionStatus.canceled = true
is_canceled _ = false

abbrev is_since : Option Instant → Instant → Bool
is_since none moment = false
is_since (some at) moment = leb moment at

-- A paid plan that was given up since the start of the month.
abbrev pub is_given_up : ℕ → Instant → PlanSubscription × Plan → Bool
is_given_up account since (s, plan) =
    (s.account_id == account)
    && (is_canceled s.status && (ltb 0 plan.monthly_fee_cents && is_since s.canceled_at since))

unfoldable pub quota_deferred_until : Db → ℕ → Instant → Option Instant
unfolding month_start
quota_deferred_until db account now =
    if any_of (is_given_up account (month_start now)) (with_plan db.plans db.subscriptions)
    then some (month_start (month_start now + 32 * day))
    else none

unfoldable pub downgraded_this_month : Db → ℕ → Instant → Bool
unfolding quota_deferred_until
downgraded_this_month db account now = is_some (quota_deferred_until db account now)

abbrev is_merchant_of : ℕ → Option Store → Bool
is_merchant_of account none = false
is_merchant_of account (some store) = (store.account_id == account) && not store.is_internal

abbrev pub counts_for : Db → ℕ → Instant → Payment → Bool
counts_for db account since p =
    is_merchant_of account (store_of db p.store_id)
    && (is_paid p.status && is_since p.paid_at since)

unfoldable pub count_paid_payments_this_month : Db → ℕ → Instant → ℕ
unfolding month_start
count_paid_payments_this_month db account now =
    count_where (counts_for db account (month_start now)) db.payments

-- The allowance of the plan in force, and that of the free tier where there is none.
abbrev pub included_payments : List (PlanSubscription × Plan) → Result QuotaError ℕ
included_payments [] = ok 3000
included_payments ((s, plan) ∷ []) = ok plan.base_payments_included
included_payments (r ∷ s ∷ rows) = err multiple_plans

abbrev pub refuse_over : Db → ℕ → Instant → Result QuotaError ℕ → Result QuotaError Bool
refuse_over db account now (err e) = err e
refuse_over db account now (ok included) =
    refuse
      (leb included (count_paid_payments_this_month db account now)
        && not (downgraded_this_month db account now))
      quota_exceeded (ok true)

-- `live` is `mode == "live"`.
unfoldable pub check_plan_quota : Db → ℕ → Bool → Instant → Result QuotaError Bool
check_plan_quota db account live now =
    if live
    then refuse_over db account now
        (included_payments (with_plan db.plans (select (is_live account) db.subscriptions)))
    else ok true

-- `without_synthetic_payments`: the rows that a merchant sees.
abbrev pub is_listed : Payment → Bool
is_listed p = elim p.reference_id [
  | none ↦ true
  | some reference ↦ not (starts_with synthetic_reference_prefix (lower reference))
]

-- `ORDER BY id DESC`, with the limit and the offset clamped
abbrev pub page : ℕ → ℕ → List Payment → List Payment
page limit offset payments =
    take (max 1 (min limit 100))
      (drop (min offset 1_000_000) (reverse (sort_by (λ p. p.id) payments)))

-- `wanted` is the filter on the status, which holds of every row where none is asked for.
unfoldable pub list_payments : Db → ℕ → (PaymentStatus → Bool) → ℕ → ℕ → List Payment
list_payments db store wanted limit offset =
    page limit offset
      (select (λ p. (p.store_id == store) && (is_listed p && wanted p.status)) db.payments)
