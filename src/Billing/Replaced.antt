-- ===== src/Billing/Replaced.antt =====
-- The subscriptions in force across a settlement: `settle_invoice` of services/billing.py.
use chmabapay.Base.{
  ℕ, ◌+◌, ◌≤◌, ◌≡◌, refl, sym, Option, none, some, List, [], ◌∷◌, ◌++◌, Text, find_by, count_where,
  count_where-append, count_where-update_same, count_where_mono, leb, ◌==◌, Option-cases,
  Bool-cases, inl, inr, arith,
}
use chmabapay.Model.{Instant, Account, PlanInvoice, PlanSubscription, Plan, Db, Settings}
use mathlib.Core.Path.{subst}
use chmabapay.Stores.Swap.{apply_store_cap-unheld}
use chmabapay.Stores.{apply_store_cap}
use chmabapay.Billing.Terms.{is_paid}
use chmabapay.Billing.Coverage.{
  get_account, is_restricted, lift_billing_hold, is_live, retire_live_subscriptions, bill_next,
  extend_to, activate_subscription,
}
use chmabapay.Billing.Settle.{
  pay, update_invoice, is_lapsed, subscription_of, cap_to_plan, reinstated, reinstate,
  settle_subscription, welcome_back, settle_invoice,
}
use chmabapay.Billing.Live.{
  AreValid, HasOneLive, update-AreValid, retire_live_subscriptions-HasOneLive,
  activate_subscription-HasOneLive,
}

extend_to-HasOneLive :
    (db : Db) (end : Option Instant) (id : Option ℕ) (now : Instant)
    → HasOneLive db
    → HasOneLive (extend_to db end id now)
unfolding extend_to
extend_to-HasOneLive db none id now v = v
extend_to-HasOneLive db (some end) none now v = v
extend_to-HasOneLive db (some end) (some id) now v =
    update-AreValid (λ s. s.id == id) (bill_next end now) db.subscriptions db.next_subscription
      (λ s. refl) v
      (λ b. omega (
        arith,
        v.one_live b,
        count_where-update_same (is_live b) (λ s. s.id == id) (bill_next end now) db.subscriptions
            (λ s. refl),
      ))

pub append-AreValid :
    (xs : List PlanSubscription) (row : PlanSubscription)
    → AreValid xs row.id
    → ((b : ℕ) → count_where (is_live b) (row ∷ []) + count_where (is_live b) xs ≤ 1)
    → AreValid (xs ++ row ∷ []) (row.id + 1)
append-AreValid xs row v live = record {
  keys = λ k. ground (
    arith,
    v.keys k,
    v.fresh,
    count_where-append (λ s. s.id == k) xs (row ∷ []),
    count_where_mono (λ s. s.id == row.id) (λ s. leb row.id s.id) xs (λ s h. ground arith),
  );
  fresh = ground (
    arith,
    v.fresh,
    count_where-append (λ s. leb (row.id + 1) s.id) xs (row ∷ []),
    count_where_mono (λ s. leb (row.id + 1) s.id) (λ s. leb row.id s.id) xs (λ s h. ground arith),
  );
  one_live = λ b. omega (arith, live b, count_where-append (is_live b) xs (row ∷ []));
}

-- A row in force, where no other subscription of its account is.
pub append_live-AreValid :
    (xs : List PlanSubscription) (row : PlanSubscription)
    → AreValid xs row.id
    → count_where (is_live row.account_id) xs ≡ 0
    → AreValid (xs ++ row ∷ []) (row.id + 1)
append_live-AreValid xs row v none_live =
    append-AreValid xs row v (λ b. ground (arith, v.one_live b))

reinstate-HasOneLive :
    (db : Db) (invoice : PlanInvoice) (s : PlanSubscription) (payment : Option ℕ)
    (paid_at : Instant) (source : Text) (now : Instant)
    → HasOneLive db
    → HasOneLive (reinstate db invoice s payment paid_at source now).0
unfolding reinstate
reinstate-HasOneLive db invoice s payment paid_at source now v =
    let (retired, none_live) = retire_live_subscriptions-HasOneLive db invoice.account_id now v in
    append_live-AreValid (retire_live_subscriptions db invoice.account_id now).subscriptions
      (reinstated db invoice s paid_at now) retired none_live

pub cap-HasOneLive :
    (db : Db) (account : ℕ) (cap : Option ℕ) (now : Instant)
    → HasOneLive db
    → HasOneLive (apply_store_cap db account cap now).0
cap-HasOneLive db account cap now v =
    subst HasOneLive (sym (apply_store_cap-unheld db account cap now).1) v

pub lift-HasOneLive :
    (db : Db) (account : Option Account) (now : Instant)
    → HasOneLive db
    → HasOneLive (lift_billing_hold db account now).0
unfolding lift_billing_hold
lift-HasOneLive db none now v = v
lift-HasOneLive db (some account) now v = elim (Bool-cases (is_restricted account.status)) [
  | inl e ↦ rw (e, lift_billing_hold) v
  | inr e ↦ rw (e, lift_billing_hold) v
]

cap_to_plan-HasOneLive :
    (db : Db) (account : ℕ) (plan : Option Plan) (now : Instant)
    → HasOneLive db
    → HasOneLive (cap_to_plan db account plan now)
unfolding cap_to_plan
cap_to_plan-HasOneLive db account none now v = v
cap_to_plan-HasOneLive db account (some plan) now v =
    cap-HasOneLive db account plan.max_stores now v

welcome_back-HasOneLive :
    (db : Db) (account : Option Account) (plan : ℕ) (now : Instant)
    → HasOneLive db
    → HasOneLive (welcome_back db account plan now)
unfolding welcome_back
welcome_back-HasOneLive db none plan now v = v
welcome_back-HasOneLive db (some account) plan now v =
    cap_to_plan-HasOneLive (lift_billing_hold db (some account) now).0 account.id
      (find_by (λ p. p.id == plan) db.plans) now (lift-HasOneLive db (some account) now v)

settle_subscription-HasOneLive :
    (db : Db) (settings : Settings) (invoice : PlanInvoice) (s : PlanSubscription)
    (payment : Option ℕ) (paid_at : Instant) (source : Text) (now : Instant)
    → HasOneLive db
    → HasOneLive (settle_subscription db settings invoice s payment paid_at source now)
unfolding settle_subscription
settle_subscription-HasOneLive db settings invoice s payment paid_at source now v =
    let paid = update_invoice invoice.id (pay paid_at now) db in
    elim (Bool-cases (is_lapsed settings invoice.due_at paid_at)) [
      | inl e ↦
          rw (e, settle_subscription)
            (reinstate-HasOneLive db invoice s payment paid_at source now v)
      | inr e ↦
          rw (e, settle_subscription)
            (extend_to-HasOneLive (activate_subscription paid s.id now).0 invoice.period_end
              invoice.subscription_id now (activate_subscription-HasOneLive paid s.id now v))
    ]

-- Settling any invoice, on every branch, keeps the subscriptions well formed: unique keys below
-- the next one, and at most one subscription in force (trial or active) for each account.
pub settle_invoice-HasOneLive :
    (db : Db) (settings : Settings) (invoice : PlanInvoice) (payment : Option ℕ) (paid_at : Instant)
    (source : Text) (now : Instant)
    → HasOneLive db
    → HasOneLive (settle_invoice db settings invoice payment paid_at source now).0
unfolding settle_invoice
settle_invoice-HasOneLive db settings invoice payment paid_at source now v =
    elim (Bool-cases (is_paid invoice.status)) [
      | inl e ↦ rw (e, settle_invoice) v
      | inr e ↦ elim (Option-cases (subscription_of db invoice.subscription_id)) [
        | inl gone ↦ rw (e, settle_invoice, gone) v
        | inr (s, found) ↦
            rw (e, settle_invoice, found)
              (welcome_back-HasOneLive
                (settle_subscription db settings invoice s payment paid_at source now)
                (get_account db invoice.account_id) s.plan_id now
                (settle_subscription-HasOneLive db settings invoice s payment paid_at source now v))
      ]
    ]
