-- ===== src/Payments/Expiry.antt =====
-- `_is_synthetic` and `expire_due_payments` of services/payments.py.
use chmabapay.Base.{
  Bool, false, ◌&&◌, ◌||◌, Option, none, some, List, [], ◌∷◌, map, take, select, sort_by, leb,
  ◌>>=◌, if◌then◌else◌, Text, codes, starts_with, strip, lower,
}
use chmabapay.Model.{Instant, Payment, PaymentStatus, Metadata, EventType, Db}
use chmabapay.Webhooks.{enqueue_event}
use chmabapay.Payments.Confirm.{
  PaymentResult, ok, err, missing_store, store_of, update_payment, is_payable, set_payment_status,
}

abbrev pub synthetic_reference_prefix : Text
synthetic_reference_prefix = codes "health-smoke:"

abbrev has_probe_reference : Option Text → Bool
has_probe_reference none = false
has_probe_reference (some reference) =
    starts_with synthetic_reference_prefix (lower (strip reference))

abbrev has_probe_flag : Option Metadata → Bool
has_probe_flag none = false
has_probe_flag (some metadata) = metadata.synthetic

-- An operational probe rather than a sale.
unfoldable pub is_synthetic : Option Text → Option Metadata → Bool
is_synthetic reference metadata = has_probe_reference reference || has_probe_flag metadata

abbrev pub is_expired_by : Instant → Payment → Bool
is_expired_by now p = is_payable p.status && leb p.expires_at now

unfoldable pub due_payments : Db → Instant → List Payment
due_payments db now = take 200 (sort_by (λ p. p.id) (select (is_expired_by now) db.payments))

-- One payment of the sweep; `none` where its store is missing, which rolls the sweep back.
unfoldable pub expire_one : Db → Payment → Option Db
unfolding is_synthetic
expire_one db p =
    let gone = set_payment_status PaymentStatus.expired p in
    let written = update_payment p.id (set_payment_status PaymentStatus.expired) db in
    if is_synthetic p.reference_id p.metadata then some written else elim (store_of db p.store_id) [
      | none ↦ none
      | some store ↦ some (enqueue_event written gone store EventType.expired)
    ]

unfoldable pub expire_each_payment : List Payment → Db → Option Db
unfolding expire_one
expire_each_payment [] db = some db
expire_each_payment (p ∷ due) db = do db' ← expire_one db p; expire_each_payment due db'

abbrev swept : Db → List Payment → Option Db → Db × PaymentResult (List Payment)
swept db due none = (db, err missing_store)
swept db due (some db') = (db', ok (map (set_payment_status PaymentStatus.expired) due))

unfoldable pub expire_due_payments : Db → Instant → Db × PaymentResult (List Payment)
unfolding due_payments expire_each_payment
expire_due_payments db now =
    let due = due_payments db now in swept db due (expire_each_payment due db)
