-- ===== src/Payments/Repeat.antt =====
-- A payment that is confirmed again.
use mathlib.Core.Path.{subst}
use chmabapay.Base.{
  ℕ, map, ◌≡◌, refl, sym, ap, ◌∙◌, Bool, true, false, Option, none, some, List, [], ◌∷◌, All,
  find_by, find_by-update, select, update_where, Option-cases, Bool-cases, inl, inr, ◌==◌,
  if◌then◌else◌, Text, text_eq, codes, arith,
}
use chmabapay.Model.{
  Instant, Payment, PaymentStatus, Store, WebhookEndpoint, EventType, GatewayRaw, Db, Settings,
}
use chmabapay.Stores.Swap.{unheld}
use chmabapay.Webhooks.{
  schedule, enqueue_event, target_endpoints, add_delivery, new_delivery, add_event, new_event,
}
use chmabapay.Billing.{settle_invoice_for_payment}
use chmabapay.Billing.Untouched.{KeepsPayments, settle_invoice_for_payment-Keeps}
use chmabapay.Payments.Ledger.{record_plan_ledger_entry}
use chmabapay.Payments.Confirm.{
  ok, store_of, update_payment, set_payment_status, is_terminal, is_successor, retire_each,
  retire_successors, confirm, settle_payment, mark_paid,
}

schedule-Keeps :
    (endpoints : List WebhookEndpoint) (event_type : EventType) (id : ℕ) (db : Db)
    → KeepsPayments db (schedule endpoints event_type id db)
unfolding schedule
schedule-Keeps [] event_type id db = (refl, refl, refl)
schedule-Keeps (e ∷ endpoints) event_type id db = ground (
  arith,
  schedule-Keeps endpoints event_type id db,
  schedule-Keeps endpoints event_type id (add_delivery (new_delivery db id e.id) db),
)

pub enqueue_event-Keeps :
    (db : Db) (payment : Payment) (store : Store) (event_type : EventType)
    → KeepsPayments db (enqueue_event db payment store event_type)
unfolding enqueue_event
enqueue_event-Keeps db payment store event_type =
    schedule-Keeps (target_endpoints db store.account_id) event_type db.next_event
      (add_event (new_event db payment store event_type) db)

-- A look-up of a row that an update misses.
pub find_by-missed :
    (p m : Payment → Bool) (f : Payment → Payment) (xs : List Payment) (x : Payment)
    → ((y : Payment) → p (f y) ≡ p y)
    → find_by p xs ≡ some x
    → m x ≡ false
    → find_by p (update_where m f xs) ≡ some x
find_by-missed p m f [] x keep found miss = ground arith
find_by-missed p m f (y ∷ xs) x keep found miss =
    ground (arith, keep y, find_by-missed p m f xs x keep)

-- Retiring other payments keeps a payment, and the ledger.
retire_each-find :
    (retired : List Payment) (store : Store) (db : Db) (p : Payment → Bool) (x : Payment)
    → ((y : Payment) → p (set_payment_status PaymentStatus.superseded y) ≡ p y)
    → All (λ s. (x.id == s.id) ≡ false) retired
    → find_by p db.payments ≡ some x
    → (find_by p (retire_each retired store db).payments ≡ some x)
      × ((retire_each retired store db).ledger ≡ db.ledger)
      × (map unheld (retire_each retired store db).stores ≡ map unheld db.stores)
unfolding retire_each
retire_each-find [] store db p x keep apart found = (found, refl, refl)
retire_each-find (s ∷ retired) store db p x keep (here, apart) found =
    let over = set_payment_status PaymentStatus.superseded in
    let written = update_payment s.id over db in
    let (payments, ledger, stores) =
      enqueue_event-Keeps written (over s) store EventType.superseded in
    let (kept, same, whole) =
      retire_each-find retired store (enqueue_event written (over s) store EventType.superseded) p x
        keep apart
        (ap (find_by p) payments
          ∙ find_by-missed p (λ y. y.id == s.id) over db.payments x keep found here) in
    (kept, same ∙ ledger, whole ∙ stores)

-- After a payment has been confirmed no successor has its key.
confirmed-apart :
    (id : ℕ) (ref : Option Text) (raw : Option GatewayRaw) (now : Instant) (xs : List Payment)
    → All
        (λ s. (id == s.id) ≡ false)
        (select (is_successor id) (update_where (λ p. p.id == id) (confirm ref raw now) xs))
confirmed-apart id ref raw now [] = tt
confirmed-apart id ref raw now (x ∷ xs) = ground (arith, confirmed-apart id ref raw now xs)

-- The payment and the ledger once a confirmation has been written.
pub settle_payment-find :
    (db : Db) (settings : Settings) (payment : Payment) (store : Store) (ref : Option Text)
    (raw : Option GatewayRaw) (now : Instant) (p : Payment → Bool)
    → ((y : Payment) → p (confirm ref raw now y) ≡ p y)
    → ((y : Payment) → p (set_payment_status PaymentStatus.superseded y) ≡ p y)
    → find_by p db.payments ≡ some payment
    → let db' = settle_payment db settings payment store ref raw now in
      (find_by p db'.payments ≡ some (confirm ref raw now payment))
      × (db'.ledger ≡ (
          if store.is_internal
          then db.ledger
          else (record_plan_ledger_entry db store.account_id
              (confirm ref raw now payment)
              false
              now).ledger))
      × (map unheld db'.stores ≡ map unheld db.stores)
unfolding settle_payment retire_successors record_plan_ledger_entry
settle_payment-find db settings payment store ref raw now p keep keep' found =
    let paid = confirm ref raw now payment in
    let credited = update_payment payment.id (confirm ref raw now) db in
    let counted : Db =
      if store.is_internal
      then credited
      else record_plan_ledger_entry credited store.account_id paid false now in
    let settled : Db =
      (settle_invoice_for_payment counted settings payment.id now (codes "khqr") now).0 in
    let same : counted.payments ≡ credited.payments = ground arith in
    let rows : counted.stores ≡ db.stores = ground arith in
    let entries : counted.ledger ≡ (
        if store.is_internal
        then db.ledger
        else (record_plan_ledger_entry db store.account_id paid false now).ledger) =
      ground arith in
    let (payments, ledger, stores) =
      settle_invoice_for_payment-Keeps counted settings payment.id now (codes "khqr") now in
    let moved : settled.payments ≡ credited.payments = payments ∙ same in
    let written : find_by p credited.payments ≡ some paid =
      find_by-update p (λ y. y.id == payment.id) (confirm ref raw now) db.payments payment keep
        found (ground arith) in
    let (kept, retired, whole) =
      retire_each-find (select (is_successor payment.id) settled.payments) store settled p paid
        keep'
        (subst (λ xs. All (λ s. (payment.id == s.id) ≡ false) (select (is_successor payment.id) xs))
          (sym moved) (confirmed-apart payment.id ref raw now db.payments))
        (ap (find_by p) moved ∙ written) in
    let (payments', ledger', stores') =
      enqueue_event-Keeps (retire_successors settled payment.id store) paid store
        EventType.completed in
    (
      ap (find_by p) payments' ∙ kept,
      ledger' ∙ retired ∙ ledger ∙ entries,
      stores' ∙ whole ∙ stores ∙ ap (map unheld) rows,
    )

abbrev pub has_public_id : Text → Payment → Bool
has_public_id public_id p = text_eq p.public_id public_id

terminal-again :
    (db : Db) (settings : Settings) (public_id : Text) (ref : Option Text) (raw : Option GatewayRaw)
    (now : Instant) (payment : Payment)
    → find_by (has_public_id public_id) db.payments ≡ some payment
    → is_terminal payment.status ≡ true
    → mark_paid db settings public_id ref raw now ≡ (db, ok none)
unfolding mark_paid
terminal-again db settings public_id ref raw now payment found done =
    rw (found, mark_paid, done) refl

-- Once a confirmation of a payment has been taken, every later confirmation under the same
-- public identifier, with any reference and evidence, is a no-op: nothing is returned and the
-- database stays as it is, so that no second ledger entry, event or plan window is written.
pub mark_paid-again :
    (db : Db) (settings : Settings) (public_id : Text) (ref ref' : Option Text)
    (raw raw' : Option GatewayRaw) (now later : Instant) (payment : Payment)
    → (mark_paid db settings public_id ref raw now).1 ≡ ok (some payment)
    → let db' = (mark_paid db settings public_id ref raw now).0 in
      mark_paid db' settings public_id ref' raw' later ≡ (db', ok none)
unfolding mark_paid
mark_paid-again db settings public_id ref ref' raw raw' now later payment taken =
    elim (Option-cases (find_by (has_public_id public_id) db.payments)) [
      | inl gone ↦ absurd (ground (arith, gone))
      | inr (row, found) ↦ elim (Bool-cases (is_terminal row.status)) [
        | inl done ↦ absurd (ground (arith, found))
        | inr live ↦ elim (Option-cases (store_of db row.store_id)) [
          | inl gone ↦ absurd (ground (arith, found))
          | inr (store, owner) ↦
              let db' = settle_payment db settings row store ref raw now in
              let first : (mark_paid db settings public_id ref raw now).0 ≡ db' =
                rw (found, mark_paid, live, owner) refl in
              let kept =
                (settle_payment-find db settings row store ref raw now (has_public_id public_id)
                  (λ y. refl) (λ y. refl) found).0 in
              subst (λ d. mark_paid d settings public_id ref' raw' later ≡ (d, ok none)) (sym first)
                (terminal-again db' settings public_id ref' raw' later (confirm ref raw now row)
                  kept refl)
        ]
      ]
    ]
