-- ===== src/Payments/Confirm.antt =====
-- `mark_scanned`, `_retire_successors`, `_find_double_charge`, `mark_paid` and `reverse_payment` of
-- services/payments.py.
use chmabapay.Base.{
  ℕ, Bool, true, false, not, ◌&&◌, Option, none, some, List, [], ◌∷◌, take, select, find_by,
  update_where, sort_by, is_some_eq, ◌==◌, if◌then◌else◌, Text, text_eq, is_some_text, codes, strip,
}
use chmabapay.Model.{Instant, Payment, PaymentStatus, Store, EventType, GatewayRaw, Db, Settings}
use chmabapay.Webhooks.{enqueue_event}
use chmabapay.Billing.{settle_invoice_for_payment}
use chmabapay.Payments.Ledger.{record_plan_ledger_entry}

-- The 409 answers, and the error of a payment whose store is missing, which rolls everything back.
pub data PaymentError : Type 0 where
  payment_already_reversed payment_not_paid missing_store : PaymentError

pub data PaymentResult (A : Type 0) : Type 0 where
  ok : A → PaymentResult A
  err : PaymentError → PaymentResult A

abbrev pub get_payment : Db → ℕ → Option Payment
get_payment db id = find_by (λ p. p.id == id) db.payments

abbrev pub store_of : Db → ℕ → Option Store
store_of db id = find_by (λ s. s.id == id) db.stores

-- An assignment to the fields of a loaded payment.
abbrev pub update_payment : ℕ → (Payment → Payment) → Db → Db
update_payment id f db = record db { payments = update_where (λ p. p.id == id) f db.payments }

abbrev pub is_pending : PaymentStatus → Bool
is_pending PaymentStatus.pending = true
is_pending _ = false

abbrev pub is_paid : PaymentStatus → Bool
is_paid PaymentStatus.paid = true
is_paid _ = false

abbrev pub is_reversed : PaymentStatus → Bool
is_reversed PaymentStatus.reversed = true
is_reversed _ = false

-- `PAYMENT_PENDING, PAYMENT_SCANNED`
abbrev pub is_payable : PaymentStatus → Bool
is_payable PaymentStatus.pending = true
is_payable PaymentStatus.scanned = true
is_payable _ = false

-- `PAYMENT_PAID, PAYMENT_FAILED, PAYMENT_REVERSED`: no credit is taken any more.
abbrev pub is_terminal : PaymentStatus → Bool
is_terminal PaymentStatus.paid = true
is_terminal PaymentStatus.failed = true
is_terminal PaymentStatus.reversed = true
is_terminal _ = false

abbrev pub set_payment_status : PaymentStatus → Payment → Payment
set_payment_status status p = record p { status = status }

abbrev pub scan : Instant → Payment → Payment
scan now p = record p { status = PaymentStatus.scanned; scanned_at = some now }

unfoldable pub mark_scanned : Db → ℕ → Instant → Db × PaymentResult (Option Payment)
mark_scanned db id now = elim (get_payment db id) [
  | none ↦ (db, ok none)
  | some payment ↦
      if is_pending payment.status
      then (elim (store_of db payment.store_id) [
        | none ↦ (db, err missing_store)
        | some store ↦ (
          enqueue_event (update_payment id (scan now) db) (scan now payment) store
              EventType.scanned,
          ok (some (scan now payment)),
        )
      ])
      else (db, ok none)
]

abbrev is_open_code : PaymentStatus → Bool
is_open_code PaymentStatus.pending = true
is_open_code PaymentStatus.scanned = true
is_open_code PaymentStatus.expired = true
is_open_code _ = false

-- An open or expired code that was reissued from the payment.
abbrev pub is_successor : ℕ → Payment → Bool
is_successor id p = is_some_eq p.reissued_from_id id && is_open_code p.status

unfoldable pub retire_each : List Payment → Store → Db → Db
retire_each [] store db = db
retire_each (p ∷ retired) store db = retire_each retired store (
    enqueue_event (update_payment p.id (set_payment_status PaymentStatus.superseded) db)
      (set_payment_status PaymentStatus.superseded p) store EventType.superseded)

unfoldable pub retire_successors : Db → ℕ → Store → Db
unfolding retire_each
retire_successors db id store = retire_each (select (is_successor id) db.payments) store db

abbrev pub is_same_sale : Payment → Text → Payment → Bool
is_same_sale payment reference p =
    (p.store_id == payment.store_id)
    && (is_some_text p.reference_id reference && (is_paid p.status && not (p.id == payment.id)))

abbrev find_sale : Db → Payment → Option Text → Option Payment
find_sale db payment none = none
find_sale db payment (some []) = none
find_sale db payment (some (c ∷ reference)) =
    find_by (is_same_sale payment (c ∷ reference)) (sort_by (λ p. p.id) db.payments)

-- Another paid payment of the store for the same reference.
unfoldable pub find_double_charge : Db → Payment → Option Payment
find_double_charge db payment = find_sale db payment payment.reference_id

abbrev pub confirm : Option Text → Option GatewayRaw → Instant → Payment → Payment
confirm bakong_ref gateway_raw now p = record p {
  status = PaymentStatus.paid;
  paid_at = some now;
  approved_at = some now;
  bakong_ref = bakong_ref;
  gateway_status_raw = gateway_raw;
}

-- The writes of a confirmation, once the payment and its store are loaded.
unfoldable pub settle_payment :
    Db → Settings → Payment → Store → Option Text → Option GatewayRaw → Instant → Db
unfolding retire_successors
settle_payment db settings payment store bakong_ref gateway_raw now =
    let paid = confirm bakong_ref gateway_raw now payment in
    let credited = update_payment payment.id (confirm bakong_ref gateway_raw now) db in
    let counted =
      if store.is_internal
      then credited
      else record_plan_ledger_entry credited store.account_id paid false now in
    let settled =
      (settle_invoice_for_payment counted settings payment.id now (codes "khqr") now).0 in
    enqueue_event (retire_successors settled payment.id store) paid store EventType.completed

-- `none` where there is nothing to confirm.
unfoldable pub mark_paid :
    Db
    → Settings
    → Text
    → Option Text
    → Option GatewayRaw
    → Instant
    → Db × PaymentResult (Option Payment)
unfolding settle_payment
mark_paid db settings public_id bakong_ref gateway_raw now =
    elim (find_by (λ p. text_eq p.public_id public_id) db.payments) [
      | none ↦ (db, ok none)
      | some payment ↦
          if is_terminal payment.status
          then (db, ok none)
          else elim (store_of db payment.store_id) [
            | none ↦ (db, err missing_store)
            | some store ↦ (
              settle_payment db settings payment store bakong_ref gateway_raw now,
              ok (some (confirm bakong_ref gateway_raw now payment)),
            )
          ]
    ]

abbrev cleaned : Option Text → Option Text
cleaned none = none
cleaned (some reason) = elim (take 255 (strip reason)) [ [] ↦ none | c ∷ r ↦ some (c ∷ r) ]

abbrev pub give_back : Option Text → Instant → Payment → Payment
give_back reason now p = record p {
  status = PaymentStatus.reversed;
  reversed_at = some now;
  reversal_reason = cleaned reason;
}

unfoldable pub reverse_payment : Db → Payment → Option Text → Instant → Db × PaymentResult Payment
reverse_payment db payment reason now =
    if is_reversed payment.status
    then (db, err payment_already_reversed)
    else if not (is_paid payment.status)
    then (db, err payment_not_paid)
    else elim (store_of db payment.store_id) [
      | none ↦ (db, err missing_store)
      | some store ↦
          let given_back = give_back reason now payment in
          let written = update_payment payment.id (give_back reason now) db in
          (
            enqueue_event (record_plan_ledger_entry written store.account_id given_back true now)
                given_back store EventType.reversed,
            ok given_back,
          )
    ]
