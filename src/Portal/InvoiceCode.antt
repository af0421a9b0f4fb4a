-- ===== src/Portal/InvoiceCode.antt =====
-- `_get_hq_store`, `_invoice_payment` and `get_invoice_khqr` of routers/billing.py.
use chmabapay.Base.{
  ℕ, Bool, true, false, not, is_some_eq, ◌&&◌, Option, none, some, [], ◌++◌, find_by, ◌==◌,
  if◌then◌else◌, Text, codes, decimal, padded, Result, refuse, and_then,
}
use chmabapay.Base.Results.{ok, err}
use chmabapay.Model.{Instant, Account, Store, Payment, PlanInvoice, InvoiceStatus, Db, Settings}
use chmabapay.Billing.{is_paid, update_invoice}
use chmabapay.Billing.Hq.{HqStoreResolution, resolve_hq_store}
use chmabapay.Payments.{get_payment}
use chmabapay.Payments.Mint.{SaleError, Rail}
use chmabapay.Payments.Create.{Order, create_payment}
use chmabapay.Payments.Reissue.{is_dead, reissue_payment}

pub data CodeError : Type 0 where
  invoice_not_found invoice_already_paid billing_not_open multiple_stores : CodeError
  refused : SaleError → CodeError

abbrev pub as_code : {A : Type 0} → Result SaleError A → Result CodeError A
as_code (ok a) = ok a
as_code (err e) = err (refused e)

abbrev pub hq_store_of : Option HqStoreResolution → Result CodeError Store
hq_store_of none = err multiple_stores
hq_store_of (some resolution) = elim resolution.store [
  | none ↦ err billing_not_open
  | some store ↦ ok store
]

-- `f"INV-{invoice.id}-{invoice.period_month}"`
abbrev pub invoice_reference : PlanInvoice → Text
invoice_reference i =
    codes "INV-"
    ++ decimal i.id
    ++ codes "-"
    ++ padded 4 i.period_month.0 []
    ++ codes "-"
    ++ padded 2 i.period_month.1 []

abbrev pub invoice_order : PlanInvoice → Order
invoice_order i = record {
  amount_cents = i.total_due_cents;
  reference_id = some (invoice_reference i);
  metadata = some (record {
    synthetic = false;
    entries = codes "source=billing_invoice,invoice_id=" ++ decimal i.id;
  });
  idempotency_key = some (invoice_reference i);
  currency = none;
  hosted_qr = none;
}

-- The payment that the invoice refers to.
abbrev pub stored_payment : Db → Option ℕ → Option Payment
stored_payment db none = none
stored_payment db (some id) = get_payment db id

-- The code of the invoice: the stored one, its replacement where it is dead, or a new one.
unfoldable pub invoice_payment_from :
    Rail
    → Settings
    → Db
    → PlanInvoice
    → Store
    → Text
    → Instant
    → Option Payment
    → Result SaleError (Db × (Payment × Bool))
invoice_payment_from rail settings db invoice store public_id now none =
    create_payment rail settings db store (invoice_order invoice) public_id now
invoice_payment_from rail settings db invoice store public_id now (some stored) =
    if is_dead stored.status
    then reissue_payment rail settings db stored public_id now
    else ok (db, (stored, false))

unfoldable pub invoice_payment :
    Rail
    → Settings
    → Db
    → PlanInvoice
    → Store
    → Text
    → Instant
    → Result SaleError (Db × (Payment × Bool))
unfolding invoice_payment_from
invoice_payment rail settings db invoice store public_id now =
    invoice_payment_from rail settings db invoice store public_id now
      (stored_payment db invoice.chmabapay_payment_id)

-- `LEGACY_UNPAID` becomes `INVOICE_OPEN`.
abbrev pub collectible : InvoiceStatus → InvoiceStatus
collectible InvoiceStatus.draft = InvoiceStatus.opened
collectible InvoiceStatus.issued = InvoiceStatus.opened
collectible status = status

abbrev pub is_legacy : InvoiceStatus → Bool
is_legacy InvoiceStatus.draft = true
is_legacy InvoiceStatus.issued = true
is_legacy _ = false

-- A row that does not change keeps its `updated_at`.
abbrev pub refer_to : ℕ → Instant → PlanInvoice → PlanInvoice
refer_to payment now i = record i {
  chmabapay_payment_id = some payment;
  status = collectible i.status;
  updated_at =
      if is_some_eq i.chmabapay_payment_id payment && not (is_legacy i.status)
      then i.updated_at
      else now;
}

abbrev pub referred :
    PlanInvoice → Instant → Db × (Payment × Bool) → Result CodeError (Db × Payment)
referred invoice now (db, (payment, created)) =
    ok (update_invoice invoice.id (refer_to payment.id now) db, payment)

unfoldable pub invoice_code :
    Rail → Settings → Db → Text → Instant → PlanInvoice → Result CodeError (Db × Payment)
unfolding invoice_payment
invoice_code rail settings db public_id now invoice =
    refuse (is_paid invoice.status) invoice_already_paid (
      and_then (hq_store_of (resolve_hq_store db settings)) (λ store.
        and_then (as_code (invoice_payment rail settings db invoice store public_id now))
          (referred invoice now)))

abbrev pub invoice_or :
    {A : Type 0} → Option PlanInvoice → (PlanInvoice → Result CodeError A) → Result CodeError A
invoice_or none f = err invoice_not_found
invoice_or (some invoice) f = f invoice

-- The new state and the payment whose code is shown.
unfoldable pub get_invoice_khqr :
    Rail → Settings → Db → Account → ℕ → Text → Instant → Result CodeError (Db × Payment)
unfolding invoice_code
get_invoice_khqr rail settings db account invoice_id public_id now =
    invoice_or (find_by (λ i. (i.id == invoice_id) && (i.account_id == account.id)) db.invoices)
      (invoice_code rail settings db public_id now)
