-- ===== src/Billing/Untouched.antt =====
-- What a settlement leaves as it is.
use chmabapay.Base.{
  ℕ, map, ◌≡◌, refl, ap, ◌∙◌, Option, none, some, Text, find_by, Option-cases, Bool-cases, inl, inr,
  ◌==◌, is_some_eq,
}
use chmabapay.Model.{Instant, Account, PlanInvoice, PlanSubscription, Plan, Db, Settings}
use chmabapay.Stores.Swap.{unheld, apply_store_cap-unheld}
use chmabapay.Billing.Terms.{is_paid, is_pending}
use chmabapay.Billing.Coverage.{
  get_account, is_restricted, lift_billing_hold, extend_to, activate_subscription,
  retire_live_subscriptions,
}
use chmabapay.Billing.Settle.{
  pay, update_invoice, is_lapsed, subscription_of, cap_to_plan, reinstate, settle_subscription,
  settle_on_time, welcome_back, settle_invoice, settle_invoice_for_payment,
}

-- The payments, the ledger and the stores, but for their holds, are the same.
abbrev pub KeepsPayments : Db → Db → Type 0
KeepsPayments db db' =
    (db'.payments ≡ db.payments)
    × (db'.ledger ≡ db.ledger)
    × (map unheld db'.stores ≡ map unheld db.stores)

extend-Keeps :
    (db : Db) (end : Option Instant) (id : Option ℕ) (now : Instant)
    → KeepsPayments db (extend_to db end id now)
unfolding extend_to
extend-Keeps db none id now = (refl, refl, refl)
extend-Keeps db (some end) none now = (refl, refl, refl)
extend-Keeps db (some end) (some id) now = (refl, refl, refl)

activate-Keeps :
    (db : Db) (id : ℕ) (now : Instant) → KeepsPayments db (activate_subscription db id now).0
unfolding activate_subscription
activate-Keeps db id now = elim (Option-cases (find_by (λ s. s.id == id) db.subscriptions)) [
  | inl e ↦ rw (e, activate_subscription) (refl, refl, refl)
  | inr (s, e) ↦ elim (Bool-cases (is_pending s.status)) [
    | inl p ↦ rw (e, activate_subscription, p) (refl, refl, refl)
    | inr n ↦ rw (e, activate_subscription, n) (refl, refl, refl)
  ]
]

lift-Keeps :
    (db : Db) (account : Option Account) (now : Instant)
    → KeepsPayments db (lift_billing_hold db account now).0
unfolding lift_billing_hold
lift-Keeps db none now = (refl, refl, refl)
lift-Keeps db (some account) now = elim (Bool-cases (is_restricted account.status)) [
  | inl e ↦ rw (e, lift_billing_hold) (refl, refl, refl)
  | inr e ↦ rw (e, lift_billing_hold) (refl, refl, refl)
]

cap-Keeps :
    (db : Db) (account : ℕ) (plan : Option Plan) (now : Instant)
    → KeepsPayments db (cap_to_plan db account plan now)
unfolding cap_to_plan
cap-Keeps db account none now = (refl, refl, refl)
cap-Keeps db account (some plan) now =
    let (stores, same) = apply_store_cap-unheld db account plan.max_stores now in
    (ap (λ d. d.payments) same, ap (λ d. d.ledger) same, stores)

Keeps-trans : (a b c : Db) → KeepsPayments a b → KeepsPayments b c → KeepsPayments a c
Keeps-trans a b c h k = (k.0 ∙ h.0, k.1 ∙ h.1, k.2 ∙ h.2)

welcome-Keeps :
    (db : Db) (account : Option Account) (plan : ℕ) (now : Instant)
    → KeepsPayments db (welcome_back db account plan now)
unfolding welcome_back
welcome-Keeps db none plan now = (refl, refl, refl)
welcome-Keeps db (some account) plan now =
    Keeps-trans db (lift_billing_hold db (some account) now).0
      (cap_to_plan (lift_billing_hold db (some account) now).0 account.id
        (find_by (λ p. p.id == plan) db.plans) now)
      (lift-Keeps db (some account) now)
      (cap-Keeps (lift_billing_hold db (some account) now).0 account.id
        (find_by (λ p. p.id == plan) db.plans) now)

settle_subscription-Keeps :
    (db : Db) (settings : Settings) (invoice : PlanInvoice) (s : PlanSubscription)
    (payment : Option ℕ) (paid_at : Instant) (source : Text) (now : Instant)
    → KeepsPayments db (settle_subscription db settings invoice s payment paid_at source now)
unfolding settle_subscription settle_on_time reinstate retire_live_subscriptions
settle_subscription-Keeps db settings invoice s payment paid_at source now =
    let paid = update_invoice invoice.id (pay paid_at now) db in
    elim (Bool-cases (is_lapsed settings invoice.due_at paid_at)) [
      | inl e ↦ rw (e, settle_subscription) (refl, refl, refl)
      | inr e ↦
          rw (e, settle_subscription)
            (Keeps-trans db (activate_subscription paid s.id now).0
              (extend_to (activate_subscription paid s.id now).0 invoice.period_end
                invoice.subscription_id now)
              (activate-Keeps paid s.id now)
              (extend-Keeps (activate_subscription paid s.id now).0 invoice.period_end
                invoice.subscription_id now))
    ]

settle_invoice-Keeps :
    (db : Db) (settings : Settings) (invoice : PlanInvoice) (payment : Option ℕ) (paid_at : Instant)
    (source : Text) (now : Instant)
    → KeepsPayments db (settle_invoice db settings invoice payment paid_at source now).0
unfolding settle_invoice
settle_invoice-Keeps db settings invoice payment paid_at source now =
    elim (Bool-cases (is_paid invoice.status)) [
      | inl e ↦ rw (e, settle_invoice) (refl, refl, refl)
      | inr e ↦ elim (Option-cases (subscription_of db invoice.subscription_id)) [
        | inl gone ↦ rw (e, settle_invoice, gone) (refl, refl, refl)
        | inr (s, found) ↦
            rw (e, settle_invoice, found)
              (Keeps-trans db (settle_subscription db settings invoice s payment paid_at source now)
                (welcome_back (settle_subscription db settings invoice s payment paid_at source now)
                  (get_account db invoice.account_id) s.plan_id now)
                (settle_subscription-Keeps db settings invoice s payment paid_at source now)
                (welcome-Keeps
                  (settle_subscription db settings invoice s payment paid_at source now)
                  (get_account db invoice.account_id) s.plan_id now))
      ]
    ]

pub settle_invoice_for_payment-Keeps :
    (db : Db) (settings : Settings) (payment : ℕ) (paid_at : Instant) (source : Text)
    (now : Instant)
    → KeepsPayments db (settle_invoice_for_payment db settings payment paid_at source now).0
unfolding settle_invoice_for_payment
settle_invoice_for_payment-Keeps db settings payment paid_at source now =
    elim (Option-cases (find_by (λ i. is_some_eq i.chmabapay_payment_id payment) db.invoices)) [
      | inl gone ↦ rw (gone, settle_invoice_for_payment) (refl, refl, refl)
      | inr (invoice, found) ↦
          rw (found, settle_invoice_for_payment)
            (settle_invoice-Keeps db settings invoice (some payment) paid_at source now)
    ]
