-- ===== src/Portal/Purchase.antt =====
-- What a purchase of a plan changes: `change_plan` of routers/billing.py.
use chmabapay.Base.{
  ℕ, ◌+◌, ◌≡◌, refl, sym, ap, ◌∙◌, Bool, true, false, Option, none, some, List, [], ◌∷◌, ◌++◌,
  select, Option-cases, Bool-cases, inl, inr, Text, leb, arith,
}
use chmabapay.Base.Results.{ok, ok_injective}
use chmabapay.Model.{Instant, Account, Plan, PlanInvoice, PlanSubscription, SubscriptionStatus, Db}
use chmabapay.Billing.{
  credit_period, is_live, is_restricted, add_subscription, find_open_invoice, issue_invoice,
  find_invoice_for_window,
}
use chmabapay.Portal.ChangePlan.{
  ChangePlanOut, ActiveSub, chosen_subscription, move_to_free, requested, buy, buy_beside,
  change_plan,
}
use chmabapay.Portal.Loaded.{HavePlans, change_plan-found, change_to-cases}
use chmabapay.Stores.{in_force}

-- Everything but the invoices and the audit log.
abbrev pub unbilled : Db → Db → Db
unbilled db db' = record db' {
  invoices = db.invoices;
  next_invoice = db.next_invoice;
  audit_log = db.audit_log;
}

issue_invoice-unbilled :
    (db : Db) (s : PlanSubscription) (plan : Plan) (start end due now : Instant)
    → unbilled db (issue_invoice db s plan start end due now).0 ≡ db
unfolding issue_invoice
issue_invoice-unbilled db s plan start end due now =
    elim (Bool-cases (leb plan.monthly_fee_cents 0)) [
      | inl free ↦ rw (issue_invoice, free) refl
      | inr fee ↦ elim (Option-cases (find_invoice_for_window db s.id start)) [
        | inl gone ↦ rw (issue_invoice, fee, gone) refl
        | inr (existing, e) ↦ rw (issue_invoice, fee, e) refl
      ]
    ]

requested-unbilled :
    (account : Account) (old : ActiveSub) (plan : Plan) (pending : PlanSubscription) (db : Db)
    (r : Db × Option PlanInvoice × Bool) (sold : Db × ChangePlanOut)
    → requested account old plan pending r ≡ ok sold
    → (unbilled db sold.0 ≡ unbilled db r.0)
      × (sold.1.subscription ≡ pending)
      × (sold.1.payment_required ≡ true)
requested-unbilled account old plan pending db (d, none, created) sold h =
    absurd (ground (arith, h))
requested-unbilled account old plan pending db (d, some invoice, created) sold h =
    let same = sym (ok_injective _ sold h) in
    (
      ap (λ (r : Db × ChangePlanOut). unbilled db r.0) same,
      ap (λ (r : Db × ChangePlanOut). r.1.subscription) same,
      ap (λ (r : Db × ChangePlanOut). r.1.payment_required) same,
    )

module _ (account : Account) (old : ActiveSub) (plan : Plan) (now : Instant) where
  abbrev pub pending : Db → PlanSubscription
  pending db = chosen_subscription db account.id plan SubscriptionStatus.pending none now

  -- A purchase adds a pending subscription, and what bills it.
  pub buy-unbilled :
      (db : Db) (sold : Db × ChangePlanOut)
      → buy db account old plan now ≡ ok sold
      → let bought = add_subscription (pending db) db in
        (unbilled bought sold.0 ≡ bought)
        × (sold.1.subscription ≡ pending db)
        × (sold.1.payment_required ≡ true)
  unfolding buy
  buy-unbilled db sold h =
      let bought = add_subscription (pending db) db in
      let r = issue_invoice bought (pending db) plan now (now + credit_period) now now in
      let (same, row, due) = requested-unbilled account old plan (pending db) bought r sold h in
      (
        same ∙ issue_invoice-unbilled bought (pending db) plan now (now + credit_period) now now,
        row,
        due,
      )

pub beside-bought :
    (db : Db) (account : Account) (old : ActiveSub) (plan : Plan) (now : Instant)
    (outstanding : Option PlanInvoice) (sold : Db × ChangePlanOut)
    → is_restricted account.status ≡ false
    → buy_beside db account old plan now outstanding ≡ ok sold
    → buy db account old plan now ≡ ok sold
unfolding buy_beside
beside-bought db account old plan now none sold free h = h
beside-bought db account old plan now (some invoice) sold free h = absurd (ground (arith, free, h))

pub free_plan-due :
    (db : Db) (account : Account) (old : ActiveSub) (plan : Plan) (now : Instant)
    → ¬ ((move_to_free db account old plan now).1.payment_required ≡ true)
unfolding move_to_free
free_plan-due db account old plan now h = ground (arith, h)

select-pending :
    (b : ℕ) (xs : List PlanSubscription) (row : PlanSubscription)
    → in_force row.status ≡ false
    → select (is_live b) (xs ++ row ∷ []) ≡ select (is_live b) xs
select-pending b [] row h = ground (arith, h)
select-pending b (x ∷ xs) row h = ground (arith, select-pending b xs row h)

-- A move to a plan that asks an account which is not restricted for a payment grants nothing
-- yet: the subscriptions in force of every account are the same rows as before, and so are the
-- accounts and the stores. It assumes that each subscription has the plan that it refers to.
pub change_plan-unpaid :
    (db : Db) (account : Account) (plan_code : Text) (now : Instant) (sold : Db × ChangePlanOut)
    → HavePlans db.plans db.subscriptions
    → change_plan db account plan_code now ≡ ok sold
    → sold.1.payment_required ≡ true
    → is_restricted account.status ≡ false
    → ((b : ℕ) → select (is_live b) sold.0.subscriptions ≡ select (is_live b) db.subscriptions)
      × (sold.0.accounts ≡ db.accounts)
      × (sold.0.stores ≡ db.stores)
change_plan-unpaid db account plan_code now sold plans h due free =
    let (plan, old, _, _, made) = change_plan-found db account plan_code now sold plans h in
    elim (change_to-cases db account plan now old sold made) [
      | inl (_, same) ↦ absurd (
          free_plan-due db account old plan now
            (ap (λ (r : Db × ChangePlanOut). r.1.payment_required) same ∙ due))
      | inr (_, bought) ↦
          let (kept, _, _) = buy-unbilled account old plan now db sold (
            beside-bought db account old plan now (find_open_invoice db account.id) sold free
              bought) in
          (
            λ b.
                ap (λ (d : Db). select (is_live b) d.subscriptions) kept
                ∙ select-pending b db.subscriptions (pending account old plan now db) refl,
            ap (λ (d : Db). d.accounts) kept,
            ap (λ (d : Db). d.stores) kept,
          )
    ]
