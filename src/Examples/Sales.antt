-- ===== src/Examples/Sales.antt =====
-- Payments at concrete data.
use chmabapay.Base.{◌*◌, ◌≡◌, refl, none, some, [], ◌∷◌, sort_by, arith}
use chmabapay.Base.Int.{pos, ◌+ℤ◌, ◌-ℤ◌}
use chmabapay.Model.{PaymentStatus, StoreStatus, Payment, Db}
use chmabapay.Billing.{day, period_month_for, period_usage}
use chmabapay.Payments.{
  ok, confirm, get_payment, mark_paid, reverse_payment, due_payments, expire_one,
  expire_each_payment, expire_due_payments, is_synthetic,
}
use chmabapay.Payments.Repeat.{mark_paid-again}
use chmabapay.Payments.Usage.{reverse_payment-net, reverse_payment-internal}
use chmabapay.Payments.Sweep.{expire_due_payments-keeps}
use chmabapay.Examples.Data.{settings, a_payment, a_store, hq_store, shop}

abbrev sale : Payment
sale = a_payment 1 1 PaymentStatus.scanned

abbrev open_sale : Db
open_sale = shop (sale ∷ [])

mark_paid-again_example :
    let db' = (mark_paid open_sale settings (b'p' ∷ b'1' ∷ []) none none (99 * day)).0 in
    mark_paid db' settings (b'p' ∷ b'1' ∷ []) none none (100 * day) ≡ (db', ok none)
unfolding mark_paid
mark_paid-again_example =
    mark_paid-again open_sale settings (b'p' ∷ b'1' ∷ []) none none none none (99 * day) (100 * day)
      (confirm none none (99 * day) sale) refl

reverse_payment-net_example :
    let confirmed = (mark_paid open_sale settings (b'p' ∷ b'1' ∷ []) none none (99 * day)).0 in
    let reversed =
      (reverse_payment confirmed (confirm none none (99 * day) sale) none (100 * day)).0 in
    period_usage reversed 1 (1970, 4) ≡ period_usage open_sale 1 (1970, 4)
unfolding period_month_for
reverse_payment-net_example =
    reverse_payment-net open_sale settings (b'p' ∷ b'1' ∷ []) sale
      (a_store 1 none StoreStatus.active) none none none (99 * day) (100 * day) 1 (1970, 4) refl
      refl refl refl refl refl

abbrev fee : Payment
fee = a_payment 2 9 PaymentStatus.scanned

abbrev open_fee : Db
open_fee = shop (fee ∷ [])

reverse_payment-internal_example :
    let confirmed = (mark_paid open_fee settings (b'p' ∷ b'2' ∷ []) none none (99 * day)).0 in
    let reversed =
      (reverse_payment confirmed (confirm none none (99 * day) fee) none (100 * day)).0 in
    let before = period_usage open_fee 1 (period_month_for (100 * day)) in
    period_usage reversed 1 (period_month_for (100 * day))
    ≡ (before.0 +ℤ (pos 0 -ℤ pos 1), before.1 +ℤ (pos 0 -ℤ pos 250))
reverse_payment-internal_example =
    reverse_payment-internal open_fee settings (b'p' ∷ b'2' ∷ []) fee hq_store none none none
      (99 * day) (100 * day) refl refl refl refl refl

abbrev settled : Payment
settled = a_payment 3 1 PaymentStatus.paid

abbrev till : Db
till = shop (sale ∷ settled ∷ [])

expire_due_payments-keeps_example :
    get_payment (expire_due_payments till (101 * day)).0 3 ≡ some settled
unfolding expire_due_payments due_payments expire_each_payment expire_one is_synthetic sort_by
expire_due_payments-keeps_example =
    expire_due_payments-keeps till (101 * day) settled
      (record sale { status = PaymentStatus.expired } ∷ []) (λ k. ground arith) refl refl refl
