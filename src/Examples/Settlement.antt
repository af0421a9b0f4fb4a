-- ===== src/Examples/Settlement.antt =====
-- Settlement at concrete data.
use chmabapay.Base.{◌*◌, ◌≡◌, refl, none, some, [], ◌∷◌, arith, map, find_by, ◌==◌}
use chmabapay.Model.{PlanInvoice, PlanSubscription, SubscriptionStatus, Db}
use chmabapay.Billing.{day, pay, is_live, is_lapsed, settle_invoice, settle_invoice_for_payment}
use chmabapay.Billing.Live.{HasOneLive}
use chmabapay.Billing.Replaced.{settle_invoice-HasOneLive}
use chmabapay.Billing.Receipt.{IsReceipt, IsCovered, IsWrittenOff, IsFreshStart, IsFreshWindow}
use chmabapay.Billing.Outcome.{settle_invoice-on_time}
use chmabapay.Billing.Lapse.{settle_invoice-lapsed}
use chmabapay.Billing.Retry.{settle_invoice_for_payment-again, settle_invoice-canceled}
use chmabapay.Examples.Data.{a_subscription, an_invoice, a_db, settings}

abbrev current : PlanSubscription
current = a_subscription 1 SubscriptionStatus.active

-- A subscription in force, one that waits for its payment, and the open invoice of the first.
abbrev renewal : Db
renewal =
    a_db [] (current ∷ a_subscription 2 SubscriptionStatus.pending ∷ [])
      (an_invoice 11 1 (some 5) ∷ an_invoice 12 2 (some 6) ∷ [])

abbrev bill : PlanInvoice
bill = an_invoice 11 1 (some 5)

renewal-HasOneLive : HasOneLive renewal
renewal-HasOneLive = record {
  keys = λ k. ground arith;
  fresh = refl;
  one_live = λ account. ground arith;
}

settle_invoice-HasOneLive_example :
    HasOneLive (settle_invoice renewal settings bill (some 5) (99 * day) [] (99 * day)).0
settle_invoice-HasOneLive_example =
    settle_invoice-HasOneLive renewal settings bill (some 5) (99 * day) [] (99 * day)
      renewal-HasOneLive

settle_invoice-on_time_example :
    let db' = (settle_invoice renewal settings bill (some 5) (99 * day) [] (99 * day)).0 in
    ((paid : PlanInvoice) × (find_by (λ i. i.id == 11) db'.invoices ≡ some paid)
      × IsReceipt (99 * day) bill paid)
    × (covered : PlanSubscription) × (find_by (λ t. t.id == 1) db'.subscriptions ≡ some covered)
    × IsCovered (130 * day) current covered
unfolding is_lapsed
settle_invoice-on_time_example =
    settle_invoice-on_time renewal settings bill current (some 5) (130 * day) (99 * day) []
      (99 * day) refl refl refl refl refl refl

settle_invoice-lapsed_example :
    let db' = (settle_invoice renewal settings bill (some 5) (120 * day) [] (120 * day)).0 in
    ((old : PlanInvoice) × (find_by (λ i. i.id == 11) db'.invoices ≡ some old)
      × IsWrittenOff (120 * day) bill old)
    × (live : PlanSubscription) × (find_by (is_live 1) db'.subscriptions ≡ some live)
    × IsFreshStart (120 * day) bill current live
    × (new : PlanInvoice) × (find_by (λ i. i.id == 20) db'.invoices ≡ some new)
    × IsFreshWindow (some 5) (120 * day) bill live new
unfolding is_lapsed
settle_invoice-lapsed_example =
    settle_invoice-lapsed renewal settings bill current (some 5) (120 * day) [] (120 * day) refl
      renewal-HasOneLive refl refl refl refl

settle_invoice_for_payment-again_example :
    let db' = (settle_invoice_for_payment renewal settings 5 (120 * day) [] (120 * day)).0 in
    settle_invoice_for_payment db' settings 5 (121 * day) [] (122 * day) ≡ (db', none)
settle_invoice_for_payment-again_example =
    settle_invoice_for_payment-again renewal settings 5 (120 * day) (121 * day) [] (120 * day)
      (122 * day) refl (omega arith)

abbrev canceled : PlanSubscription
canceled = a_subscription 1 SubscriptionStatus.canceled

abbrev after_downgrade : Db
after_downgrade = a_db [] (canceled ∷ []) (bill ∷ [])

settle_invoice-canceled_example :
    let db' = (settle_invoice after_downgrade settings bill (some 5) (99 * day) [] (99 * day)).0 in
    (find_by (λ i. i.id == 11) db'.invoices ≡ some (pay (99 * day) (99 * day) bill))
    × (map (λ t. t.status) db'.subscriptions ≡ map (λ t. t.status) after_downgrade.subscriptions)
unfolding is_lapsed
settle_invoice-canceled_example =
    settle_invoice-canceled after_downgrade settings bill canceled (some 5) (130 * day) (99 * day)
      [] (99 * day) refl refl refl refl refl refl refl
