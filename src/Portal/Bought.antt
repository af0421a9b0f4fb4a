-- ===== src/Portal/Bought.antt =====
-- A plan that is bought and paid for: `change_plan` of routers/billing.py and `settle_invoice` of
-- services/billing.py.
use mathlib.Core.Path.{subst}
use chmabapay.Base.{
  ℕ, ◌+◌, ◌≡◌, refl, sym, ap, ◌∙◌, true, false, Option, none, some, List, [], ◌∷◌, ◌++◌, find_by,
  count_where, count_where_mono, count_where-zero→find_by, find_by-append_none, is_some_eq, leb,
  ◌==◌, Text, text_eq, inl, inr, arith,
}
use chmabapay.Base.Results.{ok, ok_injective}
use chmabapay.Model.{
  Instant, Account, Plan, PlanInvoice, PlanSubscription, SubscriptionStatus, Db, Settings,
}
use chmabapay.Billing.{
  credit_period, is_restricted, add_subscription, add_invoice, new_invoice, issue_invoice,
  find_invoice_for_window, is_window, find_open_invoice, is_lapsed, settle_invoice,
}
use chmabapay.Billing.Live.{HasOneLive}
use chmabapay.Billing.Receipt.{thirty_days, IsReceipt}
use chmabapay.Billing.Outcome.{settle_invoice-on_time}
use chmabapay.Portal.ChangePlan.{ChangePlanOut, ActiveSub, requested, buy, change_plan}
use chmabapay.Portal.Loaded.{HavePlans, change_plan-found, change_to-cases}
use chmabapay.Portal.Purchase.{pending, beside-bought, free_plan-due}

-- Invoices with keys below the next one, and none of a subscription that is not there yet.
abbrev pub HasFreshInvoices : Db → Type 0
HasFreshInvoices db =
    (count_where (λ i. leb db.next_invoice i.id) db.invoices ≡ 0)
    × (count_where (λ i. is_some_eq i.subscription_id db.next_subscription) db.invoices ≡ 0)

-- What a purchase has raised, and what settling it leaves: the subscription that was bought is in
-- force up to the end of its first period, and the invoice is paid.
abbrev pub IsBought :
    Settings → Option ℕ → Instant → Instant → Text → Instant → Plan → Db × ChangePlanOut → Type 0
IsBought settings payment paid_at later source now plan (db, out) =
    (invoice : PlanInvoice) × (out.invoice ≡ some invoice)
    × (invoice.total_due_cents ≡ plan.monthly_fee_cents)
    × (invoice.period_start ≡ some now)
    × (invoice.period_end ≡ some (now + thirty_days))
    × (let db' = (settle_invoice db settings invoice payment paid_at source later).0 in
        ((paid : PlanInvoice) × (find_by (λ i. i.id == invoice.id) db'.invoices ≡ some paid)
          × IsReceipt paid_at invoice paid)
        × (sub : PlanSubscription) × (find_by (λ t. t.id == out.subscription.id) db'.subscriptions
            ≡ some sub)
        × (sub.plan_id ≡ plan.id)
        × (sub.account_id ≡ out.subscription.account_id)
        × (sub.status ≡ SubscriptionStatus.active)
        × (sub.next_billing_at ≡ now + thirty_days))

find-fresh :
    {A : Type 0} (key : A → ℕ) (xs : List A) (x : A)
    → count_where (λ y. leb (key x) (key y)) xs ≡ 0
    → find_by (λ y. key y == key x) (xs ++ x ∷ []) ≡ some x
find-fresh key xs x fresh =
    let gone =
      count_where-zero→find_by (λ y. key y == key x) xs
        (omega (
          arith,
          fresh,
          count_where_mono (λ y. key y == key x) (λ y. leb (key x) (key y)) xs
              (λ y h. ground arith),
        )) in
    let own : (key x == key x) ≡ true = ground arith in
    find_by-append_none (λ y. key y == key x) xs (x ∷ []) gone ∙ rw own refl

module _ (account : Account) (old : ActiveSub) (plan : Plan) (now : Instant) (db : Db) where
  abbrev bought : Db
  bought = add_subscription (pending account old plan now db) db

  abbrev bill : PlanInvoice
  bill = new_invoice bought (pending account old plan now db) plan now (now + credit_period) now now

  -- The purchase raises the invoice of the first period.
  buy-raises :
      (sold : Db × ChangePlanOut)
      → leb plan.monthly_fee_cents 0 ≡ false
      → HasFreshInvoices db
      → buy db account old plan now ≡ ok sold
      → requested account old plan
          (pending account old plan now db)
          (add_invoice bill bought, some bill, true)
        ≡ ok sold
  unfolding buy issue_invoice find_invoice_for_window
  buy-raises sold fee (_, unclaimed) h =
      let row = pending account old plan now db in
      let gone : find_invoice_for_window bought row.id now ≡ none =
        count_where-zero→find_by (is_window row.id now) db.invoices (
          omega (
            arith,
            unclaimed,
            count_where_mono (is_window row.id now)
                (λ i. is_some_eq i.subscription_id db.next_subscription) db.invoices
                (λ i e. ground (arith, e)),
          )) in
      let raised : issue_invoice bought row plan now (now + credit_period) now now
          ≡ (add_invoice bill bought, some bill, true) =
        rw (issue_invoice, fee, gone) refl in
      ap (requested account old plan row) (sym raised) ∙ h

  -- What a payment of that invoice in time does.
  buy-settles :
      (settings : Settings) (payment : Option ℕ) (paid_at later : Instant) (source : Text)
      (sold : Db × ChangePlanOut)
      → leb plan.monthly_fee_cents 0 ≡ false
      → HasOneLive db
      → HasFreshInvoices db
      → is_lapsed settings (some now) paid_at ≡ false
      → buy db account old plan now ≡ ok sold
      → IsBought settings payment paid_at later source now plan sold
  buy-settles settings payment paid_at later source sold fee v fresh timely h =
      let row = pending account old plan now db in
      let same = ok_injective _ sold (buy-raises sold fee fresh h) in
      let (paid, sub, held, (billed, active, owner, sold_plan, _)) =
        settle_invoice-on_time _ settings bill row payment (now + credit_period) paid_at source
          later refl timely (find-fresh (λ i. i.id) db.invoices bill fresh.0)
          (find-fresh (λ s. s.id) db.subscriptions row v.fresh) refl refl in
      subst (IsBought settings payment paid_at later source now plan) same
        (bill, refl, refl, refl, refl, (paid, sub, held, sold_plan, owner, active, billed))

-- A move to a plan that asks an account which is not restricted for a payment raises an invoice
-- of the fee of the plan for the thirty days from the purchase; settling it by a payment within
-- the grace period makes it paid at the instant of the payment, and the subscription that was
-- bought is then active, on the plan, and billed next at the end of the thirty days. It assumes
-- well-formed subscriptions, that each has its plan, and that invoices have keys below the next
-- one and belong to subscriptions that are there.
pub change_plan-settle_invoice :
    (db : Db) (account : Account) (plan_code : Text) (now : Instant) (sold : Db × ChangePlanOut)
    (settings : Settings) (payment : Option ℕ) (paid_at later : Instant) (source : Text)
    → HasOneLive db
    → HavePlans db.plans db.subscriptions
    → HasFreshInvoices db
    → change_plan db account plan_code now ≡ ok sold
    → sold.1.payment_required ≡ true
    → is_restricted account.status ≡ false
    → is_lapsed settings (some now) paid_at ≡ false
    → (plan : Plan) × (find_by (λ p. text_eq p.code plan_code) db.plans ≡ some plan)
      × IsBought settings payment paid_at later source now plan sold
change_plan-settle_invoice db account plan_code now sold settings payment paid_at later source v
      plans fresh h due free timely =
    let (plan, old, found, _, made) = change_plan-found db account plan_code now sold plans h in
    elim (change_to-cases db account plan now old sold made) [
      | inl (_, same) ↦ absurd (
          free_plan-due db account old plan now
            (ap (λ (r : Db × ChangePlanOut). r.1.payment_required) same ∙ due))
      | inr (fee, taken) ↦ (
        plan,
        found,
        buy-settles account old plan now db settings payment paid_at later source sold fee v fresh
            timely
            (beside-bought db account old plan now (find_open_invoice db account.id) sold free
              taken),
      )
    ]
