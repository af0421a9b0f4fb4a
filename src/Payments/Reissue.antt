-- ===== src/Payments/Reissue.antt =====
-- `reissue_payment` of services/payments.py.
use chmabapay.Base.{
  ℕ, Bool, true, false, not, ◌&&◌, Option, none, some, List, [], ◌∷◌, ◌++◌, reverse, select,
  find_by, sort_by, is_some_eq, ltb, ◌==◌, if◌then◌else◌, Text, Result, refuse, and_then,
}
use chmabapay.Base.Results.{ok, err}
use chmabapay.Model.{
  Instant, Store, PaymentLink, Payment, PaymentStatus, GatewayRaw, Attempt, Db, Settings,
}
use chmabapay.Payments.Confirm.{is_paid, is_reversed, is_payable, store_of, update_payment}
use chmabapay.Payments.Mint.{
  SaleError, store_disabled, payment_link_missing, payment_already_paid, payment_reversed,
  payment_not_expired, Rail, Minted, mint_qr, gateway_of,
}
use chmabapay.Payments.Create.{refuse_unusable_store, refuse_synthetic, add_payment}

-- `PAYMENT_EXPIRED, PAYMENT_FAILED`
abbrev pub is_dead : PaymentStatus → Bool
is_dead PaymentStatus.expired = true
is_dead PaymentStatus.failed = true
is_dead _ = false

abbrev pub is_live_successor : ℕ → Payment → Bool
is_live_successor parent p = is_some_eq p.reissued_from_id parent && is_payable p.status

abbrev pub first : List Payment → Option Payment
first [] = none
first (p ∷ ps) = some p

-- `ORDER BY id DESC`, the first
unfoldable pub newest_successor : Db → ℕ → Option Payment
newest_successor db parent =
    first (reverse (sort_by (λ p. p.id) (select (is_live_successor parent) db.payments)))

abbrev pub find_live : Option Payment → Instant → Option Payment
find_live none now = none
find_live (some p) now = if ltb now p.expires_at then some p else none

abbrev pub was_hosted : Option GatewayRaw → Bool
was_hosted none = false
was_hosted (some raw) = elim raw.payway_hosted [ none ↦ false | some session ↦ true ]

abbrev pub successor_of : Db → Payment → Text → Instant → Minted → Payment
successor_of db parent public_id now minted = record {
  id = db.next_payment;
  public_id = public_id;
  store_id = parent.store_id;
  payment_link_id = parent.payment_link_id;
  amount_cents = parent.amount_cents;
  currency = parent.currency;
  reference_id = parent.reference_id;
  metadata = parent.metadata;
  idempotency_key = none;
  status = PaymentStatus.pending;
  qr_string = minted.qr_string;
  qr_md5 = minted.qr_md5;
  bill_number = public_id;
  expires_at = minted.expires_at;
  scanned_at = none;
  paid_at = none;
  approved_at = none;
  bakong_ref = none;
  reversed_at = none;
  reversal_reason = none;
  gateway_status_raw = gateway_of minted.hosted_session;
  attempt_history = [];
  reissued_from_id = some parent.id;
  created_at = now;
}

abbrev pub note_successor : Text → Instant → Payment → Payment
note_successor public_id now p = record p {
  attempt_history = p.attempt_history ++ Attempt.reissued public_id now ∷ [];
}

abbrev pub store_or :
    {A : Type 0} → Option Store → (Store → Result SaleError A) → Result SaleError A
store_or none f = err store_disabled
store_or (some store) f = f store

abbrev pub link_or :
    {A : Type 0} → Option PaymentLink → (PaymentLink → Result SaleError A) → Result SaleError A
link_or none f = err payment_link_missing
link_or (some link) f = f link

-- The two writes of a reissue.
abbrev pub with_successor : Db → Payment → Text → Instant → Minted → Db
with_successor db parent public_id now minted =
    add_payment (successor_of db parent public_id now minted)
      (update_payment parent.id (note_successor public_id now) db)

abbrev pub insert_successor :
    Db → Payment → Text → Instant → Minted → Result SaleError (Db × (Payment × Bool))
insert_successor db parent public_id now minted = ok (
  with_successor db parent public_id now minted,
  (successor_of db parent public_id now minted, true),
)

abbrev pub reminted :
    Rail → Settings → Payment → Text → Instant → Store → PaymentLink → Result SaleError Minted
reminted rail settings parent public_id now store link =
    mint_qr rail settings store link parent.amount_cents public_id now (some parent.currency)
      (some (was_hosted parent.gateway_status_raw))

abbrev pub reissue_on :
    Rail
    → Settings
    → Db
    → Payment
    → Text
    → Instant
    → Store
    → PaymentLink
    → Result SaleError (Db × (Payment × Bool))
reissue_on rail settings db parent public_id now store link =
    and_then (reminted rail settings parent public_id now store link)
      (insert_successor db parent public_id now)

abbrev pub link_of : Db → Payment → Option PaymentLink
link_of db parent = find_by (λ l. l.id == parent.payment_link_id) db.payment_links

abbrev pub reissue_in :
    Rail
    → Settings
    → Db
    → Payment
    → Text
    → Instant
    → Store
    → Result SaleError (Db × (Payment × Bool))
reissue_in rail settings db parent public_id now store = refuse_unusable_store store (
    refuse_synthetic store parent.reference_id parent.metadata
      (link_or (link_of db parent) (reissue_on rail settings db parent public_id now store)))

-- The code that is handed out: a live one, or a fresh one.
abbrev pub reissue_live :
    Rail
    → Settings
    → Db
    → Payment
    → Text
    → Instant
    → Option Payment
    → Result SaleError (Db × (Payment × Bool))
reissue_live rail settings db parent public_id now (some live) = ok (db, (live, false))
reissue_live rail settings db parent public_id now none =
    store_or (store_of db parent.store_id) (reissue_in rail settings db parent public_id now)

unfoldable pub reissue_payment :
    Rail → Settings → Db → Payment → Text → Instant → Result SaleError (Db × (Payment × Bool))
unfolding newest_successor
reissue_payment rail settings db parent public_id now =
    refuse (is_paid parent.status) payment_already_paid (
      refuse (is_reversed parent.status) payment_reversed (
        refuse (not (is_dead parent.status)) payment_not_expired (
          reissue_live rail settings db parent public_id now
            (find_live (newest_successor db parent.id) now))))
