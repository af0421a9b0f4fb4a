-- ===== src/Examples/Portal.antt =====
-- Moves between plans, and a plan fee that is paid late, at concrete data.
use chmabapay.Base.{
  ℕ, ◌*◌, ◌≡◌, refl, true, false, none, some, [], ◌∷◌, codes, find_by, select, sort_by, text_eq,
  arith,
}
use chmabapay.Base.Results.{result_or}
use chmabapay.Base.Money.{money_to_str}
use chmabapay.Model.{
  Db, Plan, Store, StoreStatus, Payment, PaymentStatus, PlanInvoice, SubscriptionStatus,
}
use chmabapay.Billing.{
  is_lapsed, day, is_live, period_month_for, find_open_invoice, find_invoice_for_window,
  issue_invoice,
}
use chmabapay.Billing.Live.{HasOneLive}
use chmabapay.Billing.Hq.{resolve_hq_store, hq_store_name}
use chmabapay.Payments.{get_payment, confirm, is_synthetic, mark_paid}
use chmabapay.Payments.Mint.{mint_qr, session_of}
use chmabapay.Payments.Reissue.{reissue_payment, newest_successor}
use chmabapay.Portal.ChangePlan.{
  ChangePlanOut, get_active_sub, move_to_free, buy, buy_beside, change_to, change_offered,
  change_plan,
}
use chmabapay.Portal.Chosen.{change_plan-HasOneLive}
use chmabapay.Portal.Purchase.{change_plan-unpaid}
use chmabapay.Portal.Bought.{IsBought, change_plan-settle_invoice}
use chmabapay.Portal.InvoiceCode.{
  invoice_payment, invoice_payment_from, invoice_code, get_invoice_khqr,
}
use chmabapay.Portal.LateFee.{get_invoice_khqr-late}
use chmabapay.Examples.Data.{
  merchant, starter, a_subscription, an_invoice, a_db, a_store, a_payment, hq_store, settings, shop,
}
use chmabapay.Examples.Orders.{rail, checkout, payway}

abbrev pro : Plan
pro = record starter { id = 8; code = codes "pro"; monthly_fee_cents = 5999; max_stores = none }

abbrev free : Plan
free = record starter { id = 6; code = codes "free"; monthly_fee_cents = 0; max_stores = some 1 }

-- An account on the starter plan.
abbrev on_starter : Db
on_starter =
    record (a_db (a_store 1 none StoreStatus.active ∷ a_store 2 none StoreStatus.active ∷ [])
      (a_subscription 1 SubscriptionStatus.active ∷ []) []) { plans = free ∷ starter ∷ pro ∷ [] }

on_starter-HasOneLive : HasOneLive on_starter
on_starter-HasOneLive = record {
  keys = λ k. ground arith;
  fresh = refl;
  one_live = λ account. ground arith;
}

abbrev nothing : Db × ChangePlanOut
nothing = (
  on_starter,
  record {
    subscription = a_subscription 1 SubscriptionStatus.active;
    payment_required = false;
    invoice = none;
  },
)

abbrev downgraded : Db × ChangePlanOut
downgraded = result_or nothing (change_plan on_starter merchant (codes "free") (80 * day))

abbrev upgraded : Db × ChangePlanOut
upgraded = result_or nothing (change_plan on_starter merchant (codes "pro") (80 * day))

change_plan-HasOneLive_example : HasOneLive downgraded.0
unfolding change_plan change_offered get_active_sub change_to move_to_free
change_plan-HasOneLive_example =
    change_plan-HasOneLive on_starter merchant (codes "free") (80 * day) downgraded
      on_starter-HasOneLive (refl, tt) refl

change_plan-unpaid_example :
    ((b : ℕ)
      → select (is_live b) upgraded.0.subscriptions ≡ select (is_live b) on_starter.subscriptions)
    × (upgraded.0.accounts ≡ on_starter.accounts)
    × (upgraded.0.stores ≡ on_starter.stores)
unfolding change_plan change_offered get_active_sub change_to buy_beside buy find_open_invoice
    issue_invoice find_invoice_for_window period_month_for sort_by
change_plan-unpaid_example =
    change_plan-unpaid on_starter merchant (codes "pro") (80 * day) upgraded (refl, tt) refl refl
      refl

change_plan-settle_invoice_example :
    (plan : Plan) × (find_by (λ p. text_eq p.code (codes "pro")) on_starter.plans ≡ some plan)
    × IsBought settings (some 5) (81 * day) (82 * day) (codes "khqr") (80 * day) plan upgraded
unfolding change_plan change_offered get_active_sub change_to buy_beside buy find_open_invoice
    issue_invoice find_invoice_for_window period_month_for sort_by is_lapsed
change_plan-settle_invoice_example =
    change_plan-settle_invoice on_starter merchant (codes "pro") (80 * day) upgraded settings
      (some 5) (81 * day) (82 * day) (codes "khqr") on_starter-HasOneLive (refl, tt) (refl, refl)
      refl refl refl refl

abbrev expired_fee : Payment
expired_fee = record (a_payment 5 9 PaymentStatus.expired) {
  gateway_status_raw = some (record { payway_hosted = some (session_of checkout); evidence = [] });
}

abbrev hq : Store
hq = record hq_store { name = hq_store_name; account_id = 3 }

abbrev unpaid_fee : PlanInvoice
unpaid_fee = an_invoice 11 1 (some 5)

abbrev billed : Db
billed = record (shop (expired_fee ∷ [])) {
  accounts = merchant ∷ record merchant { id = 3; is_platform_admin = true } ∷ [];
  stores = hq ∷ [];
  payment_links = payway ∷ [];
  subscriptions = a_subscription 1 SubscriptionStatus.active ∷ [];
  invoices = unpaid_fee ∷ [];
  next_payment = 6;
}

abbrev code_shown : Db × Payment
code_shown =
    result_or (billed, expired_fee)
      (get_invoice_khqr rail settings billed merchant 11 (codes "new") (101 * day))

abbrev late_row : Payment
late_row = elim (get_payment code_shown.0 5) [ none ↦ expired_fee | some p ↦ p ]

get_invoice_khqr-late_example :
    let late = (mark_paid code_shown.0 settings (b'p' ∷ b'5' ∷ []) none none (102 * day)).0 in
    (find_by (λ p. text_eq p.public_id (b'p' ∷ b'5' ∷ [])) late.payments
      ≡ some (confirm none none (102 * day) late_row))
    × (late.invoices ≡ code_shown.0.invoices)
    × (late.subscriptions ≡ code_shown.0.subscriptions)
unfolding get_invoice_khqr invoice_code invoice_payment invoice_payment_from resolve_hq_store
    reissue_payment newest_successor mint_qr is_synthetic money_to_str sort_by
get_invoice_khqr-late_example =
    get_invoice_khqr-late rail settings billed merchant 11 (codes "new") (b'p' ∷ b'5' ∷ [])
      (101 * day) (102 * day) unpaid_fee expired_fee late_row code_shown.0 code_shown.1 hq none none
      refl refl (omega arith) refl refl refl refl refl refl refl refl
