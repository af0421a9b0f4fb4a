-- ===== src/Payments/Create.antt =====
-- `create_payment` of services/payments.py, with the refusals of a store.
use chmabapay.Base.{
  ℕ, ◌+◌, ◌%◌, Bool, true, false, not, ◌&&◌, Option, none, some, [], ◌∷◌, ◌++◌, find_by, is_some,
  ltb, ◌==◌, Text, text_eq, is_some_text, codes, Result, refuse, and_then,
}
use chmabapay.Base.Results.{ok}
use chmabapay.Base.Money.{normalize_currency}
use chmabapay.Model.{
  Instant, Store, StoreStatus, PaymentLink, Payment, PaymentStatus, Metadata, Db, Settings,
}
use chmabapay.Payments.Expiry.{is_synthetic}
use chmabapay.Payments.Mint.{
  SaleError, store_disabled, store_billing_suspended, synthetic_payment_requires_internal_store,
  khr_amount_must_be_whole, amount_too_low, amount_too_high, Rail, Minted, load_active_link,
  mint_qr, gateway_of,
}

abbrev pub is_disabled : StoreStatus → Bool
is_disabled StoreStatus.disabled = true
is_disabled _ = false

-- `_refuse_unusable_store`, before the rest of the body
abbrev pub refuse_unusable_store : {A : Type 0} → Store → Result SaleError A → Result SaleError A
refuse_unusable_store store rest =
    refuse (is_disabled store.status) store_disabled
      (refuse (is_some store.billing_suspended_at) store_billing_suspended rest)

abbrev pub is_merchant_probe : Store → Option Text → Option Metadata → Bool
is_merchant_probe store reference_id metadata =
    not store.is_internal && is_synthetic reference_id metadata

-- `_refuse_synthetic_on_merchant_store`, before the rest of the body
abbrev pub refuse_synthetic :
    {A : Type 0} → Store → Option Text → Option Metadata → Result SaleError A → Result SaleError A
refuse_synthetic store reference_id metadata rest =
    refuse (is_merchant_probe store reference_id metadata) synthetic_payment_requires_internal_store
      rest

-- What a caller asks for.
pub record Order : Type 0 where
  pub amount_cents : ℕ
  pub reference_id : Option Text
  pub metadata : Option Metadata
  pub idempotency_key : Option Text
  pub currency : Option Text
  pub hosted_qr : Option Bool

abbrev pub find_replay : Db → ℕ → Option Text → Option Payment
find_replay db store none = none
find_replay db store (some []) = none
find_replay db store (some (c ∷ key)) =
    find_by (λ p. (p.store_id == store) && is_some_text p.idempotency_key (c ∷ key)) db.payments

abbrev pub is_above : ℕ → Option ℕ → Bool
is_above amount none = false
is_above amount (some most) = not (most == 0) && ltb most amount

abbrev pub refuse_amount : {A : Type 0} → ℕ → PaymentLink → Result SaleError A → Result SaleError A
refuse_amount amount link rest = refuse (ltb amount 1) amount_too_low (
    refuse (not (link.min_amount_cents == 0) && ltb amount link.min_amount_cents) amount_too_low
      (refuse (is_above amount link.max_amount_cents) amount_too_high rest))

abbrev pub new_payment : Db → Store → PaymentLink → Order → Text → Instant → Minted → Payment
new_payment db store link order public_id now minted = record {
  id = db.next_payment;
  public_id = public_id;
  store_id = store.id;
  payment_link_id = link.id;
  amount_cents = order.amount_cents;
  currency = normalize_currency (some link.currency);
  reference_id = order.reference_id;
  metadata = order.metadata;
  idempotency_key = order.idempotency_key;
  status = PaymentStatus.pending;
  qr_string = minted.qr_string;
  qr_md5 = minted.qr_md5;
  bill_number = public_id;
  expires_at = minted.expires_at;
  scanned_at = none;
  paid_at = none;
  approved_at = none;
  bakong_ref = none;
  reversed_at = none;
  reversal_reason = none;
  gateway_status_raw = gateway_of minted.hosted_session;
  attempt_history = [];
  reissued_from_id = none;
  created_at = now;
}

abbrev pub add_payment : Payment → Db → Db
add_payment p db = record db {
  payments = db.payments ++ p ∷ [];
  next_payment = db.next_payment + 1;
}

-- The row, once a code is minted.
abbrev pub insert_new :
    Db
    → Store
    → PaymentLink
    → Order
    → Text
    → Instant
    → Minted
    → Result SaleError (Db × (Payment × Bool))
insert_new db store link order public_id now minted =
    let payment = new_payment db store link order public_id now minted in
    ok (add_payment payment db, (payment, true))

abbrev pub minted_for :
    Rail → Settings → Store → PaymentLink → Order → Text → Instant → Result SaleError Minted
minted_for rail settings store link order public_id now =
    mint_qr rail settings store link order.amount_cents public_id now
      (some (normalize_currency (some link.currency))) order.hosted_qr

-- `resolved_currency == "KHR" and amount_cents % 100 != 0`
abbrev pub is_fractional_khr : PaymentLink → Order → Bool
is_fractional_khr link order =
    text_eq (normalize_currency (some link.currency)) (codes "KHR")
    && not (order.amount_cents % 100 == 0)

-- What follows the look-up of the link.
abbrev pub create_on :
    Rail
    → Settings
    → Db
    → Store
    → Order
    → Text
    → Instant
    → PaymentLink
    → Result SaleError (Db × (Payment × Bool))
create_on rail settings db store order public_id now link =
    refuse (is_fractional_khr link order) khr_amount_must_be_whole
      (elim (find_replay db store.id order.idempotency_key) [
        | some existing ↦ ok (db, (existing, false))
        | none ↦ refuse_amount order.amount_cents link (
            and_then (minted_for rail settings store link order public_id now)
              (insert_new db store link order public_id now))
      ])

-- The payment and whether it was created; an error leaves the database as it was.
unfoldable pub create_payment :
    Rail → Settings → Db → Store → Order → Text → Instant → Result SaleError (Db × (Payment × Bool))
create_payment rail settings db store order public_id now = refuse_unusable_store store (
    refuse_synthetic store order.reference_id order.metadata (
      and_then (load_active_link db store.id order.currency)
        (create_on rail settings db store order public_id now)))
