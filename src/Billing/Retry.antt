-- ===== src/Billing/Retry.antt =====
-- A payment that is confirmed twice, and a payment for a subscription that was canceled.
use mathlib.Core.Path.{subst}
use chmabapay.Base.{
  ℕ, ◌≤◌, ◌≡◌, refl, sym, ap, ◌∙◌, true, false, Option, none, some, Text, map, map-update_where,
  find_by, find_by-update, count_where, ◌==◌, Option-cases, Bool-cases, inl, inr, arith,
}
use chmabapay.Model.{Instant, PlanInvoice, PlanSubscription, SubscriptionStatus, Db, Settings}
use chmabapay.Billing.Terms.{is_paid}
use chmabapay.Billing.Coverage.{extend_to, bill_next, activate_subscription}
use chmabapay.Billing.Settle.{
  update_invoice, pay, granted, is_lapsed, settle_on_time, subscription_of, settle_invoice,
  settle_invoice_for_payment,
}
use chmabapay.Billing.Outcome.{settle_invoice-tables, settle_invoice-settle_on_time}
use chmabapay.Billing.Outcome.{settle_on_time-invoices, settle_subscription-on_time}
use chmabapay.Billing.Lapse.{
  HasFreshInvoices, is_for, reinstate-reference, settle_subscription-lapsed,
}

paid-again :
    (db : Db) (settings : Settings) (payment : ℕ) (invoice : PlanInvoice) (paid_at : Instant)
    (source : Text) (now : Instant)
    → find_by (is_for payment) db.invoices ≡ some invoice
    → is_paid invoice.status ≡ true
    → settle_invoice_for_payment db settings payment paid_at source now ≡ (db, none)
unfolding settle_invoice_for_payment settle_invoice
paid-again db settings payment invoice paid_at source now found paid =
    rw (found, settle_invoice_for_payment, paid, settle_invoice)

unknown-payment :
    (db : Db) (settings : Settings) (payment : ℕ) (paid_at : Instant) (source : Text)
    (now : Instant)
    → find_by (is_for payment) db.invoices ≡ none
    → settle_invoice_for_payment db settings payment paid_at source now ≡ (db, none)
unfolding settle_invoice_for_payment
unknown-payment db settings payment paid_at source now gone = rw (gone, settle_invoice_for_payment)

known-payment :
    (db : Db) (settings : Settings) (payment : ℕ) (invoice : PlanInvoice) (paid_at : Instant)
    (source : Text) (now : Instant)
    → find_by (is_for payment) db.invoices ≡ some invoice
    → settle_invoice_for_payment db settings payment paid_at source now
      ≡ settle_invoice db settings invoice (some payment) paid_at source now
unfolding settle_invoice_for_payment
known-payment db settings payment invoice paid_at source now found =
    rw (found, settle_invoice_for_payment)

-- The invoice that the payment points at once its invoice has been settled.
settled-reference :
    (db : Db) (settings : Settings) (payment : ℕ) (invoice : PlanInvoice) (paid_at : Instant)
    (source : Text) (now : Instant)
    → HasFreshInvoices db
    → count_where (is_for payment) db.invoices ≤ 1
    → find_by (is_for payment) db.invoices ≡ some invoice
    → is_paid invoice.status ≡ false
    → let db' = (settle_invoice db settings invoice (some payment) paid_at source now).0 in
      (i : PlanInvoice) × (find_by (is_for payment) db'.invoices ≡ some i)
      × (is_paid i.status ≡ true)
unfolding settle_invoice
settled-reference db settings payment invoice paid_at source now fresh one found unpaid =
    elim (Option-cases (subscription_of db invoice.subscription_id)) [
      | inl gone ↦ (pay paid_at now invoice, rw (unpaid, settle_invoice, gone) in_place, refl)
      | inr (s, owner) ↦
          let (invoices, subscriptions) =
            settle_invoice-tables db settings invoice s (some payment) paid_at source now unpaid
              owner in
          elim (Bool-cases (is_lapsed settings invoice.due_at paid_at)) [
            | inl late ↦ (
              granted db invoice (some payment) paid_at now,
              ap (find_by (is_for payment)) (
                    invoices
                    ∙ ap (λ d. d.invoices)
                        (settle_subscription-lapsed db settings invoice s (some payment) paid_at
                          source now late))
                  ∙ reinstate-reference db invoice s payment paid_at source now fresh one found,
              refl,
            )
            | inr timely ↦ (
              pay paid_at now invoice,
              ap (find_by (is_for payment)) (
                    invoices
                    ∙ ap (λ d. d.invoices)
                        (settle_subscription-on_time db settings invoice s (some payment) paid_at
                          source now timely)
                    ∙ settle_on_time-invoices db invoice s paid_at now)
                  ∙ in_place,
              refl,
            )
          ]
    ]
  where
    in_place :
        find_by (is_for payment) (update_invoice invoice.id (pay paid_at now) db).invoices
        ≡ some (pay paid_at now invoice)
    in_place =
        find_by-update (is_for payment) (λ i. i.id == invoice.id) (pay paid_at now) db.invoices
          invoice (λ i. refl) found (ground arith)

-- Confirming a payment a second time settles nothing and leaves the database as the first
-- confirmation left it, whether the first one found no invoice, a paid one, one within its grace
-- period or a lapsed one. It assumes that invoice keys are below the next one and that at most
-- one invoice points at the payment.
pub settle_invoice_for_payment-again :
    (db : Db) (settings : Settings) (payment : ℕ) (paid_at again : Instant) (source : Text)
    (now later : Instant)
    → HasFreshInvoices db
    → count_where (is_for payment) db.invoices ≤ 1
    → let db' = (settle_invoice_for_payment db settings payment paid_at source now).0 in
      settle_invoice_for_payment db' settings payment again source later ≡ (db', none)
settle_invoice_for_payment-again db settings payment paid_at again source now later fresh one =
    elim (Option-cases (find_by (is_for payment) db.invoices)) [
      | inl gone ↦
          stays db (ap (λ r. r.0) (unknown-payment db settings payment paid_at source now gone))
            (unknown-payment db settings payment again source later gone)
      | inr (invoice, found) ↦ elim (Bool-cases (is_paid invoice.status)) [
        | inl paid ↦
            stays db
              (ap (λ r. r.0) (paid-again db settings payment invoice paid_at source now found paid))
              (paid-again db settings payment invoice again source later found paid)
        | inr unpaid ↦
            let done = (settle_invoice db settings invoice (some payment) paid_at source now).0 in
            let (i, here, paid) =
              settled-reference db settings payment invoice paid_at source now fresh one found
                unpaid in
            stays done
              (ap (λ r. r.0) (known-payment db settings payment invoice paid_at source now found))
              (paid-again done settings payment i again source later here paid)
      ]
    ]
  where
    stays :
        (d : Db)
        → (settle_invoice_for_payment db settings payment paid_at source now).0 ≡ d
        → settle_invoice_for_payment d settings payment again source later ≡ (d, none)
        → let db' = (settle_invoice_for_payment db settings payment paid_at source now).0 in
          settle_invoice_for_payment db' settings payment again source later ≡ (db', none)
    stays d e h =
        subst (λ x. settle_invoice_for_payment x settings payment again source later ≡ (x, none))
          (sym e) h

extend-statuses :
    (db : Db) (end : Option Instant) (id : Option ℕ) (now : Instant)
    → map (λ t. t.status) (extend_to db end id now).subscriptions
      ≡ map (λ t. t.status) db.subscriptions
unfolding extend_to
extend-statuses db none id now = refl
extend-statuses db (some end) none now = refl
extend-statuses db (some end) (some id) now =
    map-update_where (λ t. t.status) (λ t. t.id == id) (bill_next end now) db.subscriptions
      (λ t. refl)

activate-canceled :
    (db : Db) (s : PlanSubscription) (now : Instant)
    → find_by (λ t. t.id == s.id) db.subscriptions ≡ some s
    → s.status ≡ SubscriptionStatus.canceled
    → (activate_subscription db s.id now).0 ≡ db
unfolding activate_subscription
activate-canceled db s now found off = ground arith

settle_on_time-statuses :
    (db : Db) (invoice : PlanInvoice) (s : PlanSubscription) (paid_at now : Instant)
    → find_by (λ t. t.id == s.id) db.subscriptions ≡ some s
    → s.status ≡ SubscriptionStatus.canceled
    → map (λ t. t.status) (settle_on_time db invoice s paid_at now).subscriptions
      ≡ map (λ t. t.status) db.subscriptions
unfolding settle_on_time
settle_on_time-statuses db invoice s paid_at now found off =
    let paid = update_invoice invoice.id (pay paid_at now) db in
    extend-statuses (activate_subscription paid s.id now).0 invoice.period_end
      invoice.subscription_id now
    ∙ ap (λ d. map (λ (t : PlanSubscription). t.status) d.subscriptions)
        (activate-canceled paid s now found off)

-- A timely payment of an invoice that is not paid, a void one included, whose subscription was
-- canceled marks the invoice paid while every subscription keeps its status, so that nothing is
-- put in force.
pub settle_invoice-canceled :
    (db : Db) (settings : Settings) (invoice : PlanInvoice) (s : PlanSubscription)
    (payment : Option ℕ) (end paid_at : Instant) (source : Text) (now : Instant)
    → is_paid invoice.status ≡ false
    → is_lapsed settings invoice.due_at paid_at ≡ false
    → find_by (λ i. i.id == invoice.id) db.invoices ≡ some invoice
    → find_by (λ t. t.id == s.id) db.subscriptions ≡ some s
    → invoice.subscription_id ≡ some s.id
    → invoice.period_end ≡ some end
    → s.status ≡ SubscriptionStatus.canceled
    → let db' = (settle_invoice db settings invoice payment paid_at source now).0 in
      (find_by (λ i. i.id == invoice.id) db'.invoices ≡ some (pay paid_at now invoice))
      × (map (λ t. t.status) db'.subscriptions ≡ map (λ t. t.status) db.subscriptions)
settle_invoice-canceled db settings invoice s payment end paid_at source now unpaid timely here
      found owner ends off =
    let (paid, covered) =
      settle_invoice-settle_on_time db settings invoice s payment end paid_at source now unpaid
        timely here found owner ends in
    let (invoices, subscriptions) =
      settle_invoice-tables db settings invoice s payment paid_at source now unpaid
        (ap (subscription_of db) owner ∙ found) in
    let same =
      settle_subscription-on_time db settings invoice s payment paid_at source now timely in
    (
      paid,
      ap (map (λ t. t.status)) (subscriptions ∙ ap (λ d. d.subscriptions) same)
          ∙ settle_on_time-statuses db invoice s paid_at now found off,
    )
