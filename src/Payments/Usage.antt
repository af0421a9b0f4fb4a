-- ===== src/Payments/Usage.antt =====
-- What a confirmation and its reversal leave in the usage ledger.
use chmabapay.Base.{
  ℕ, ◌≡◌, refl, ap, ◌∙◌, true, false, Option, some, [], ◌∷◌, ◌++◌, find_by, count_where, Text,
  text_eq, arith,
}
use chmabapay.Base.Int.{pos, ◌+ℤ◌, ◌-ℤ◌}
use chmabapay.Model.{Instant, PeriodMonth, Payment, Store, EventType, GatewayRaw, Db, Settings}
use chmabapay.Billing.{period_month_for, period_usage, is_period}
use chmabapay.Payments.Ledger.{ledger_entry, insert_entry, record_plan_ledger_entry}
use chmabapay.Payments.Confirm.{
  store_of, is_terminal, confirm, give_back, update_payment, settle_payment, mark_paid,
  reverse_payment,
}
use chmabapay.Payments.Repeat.{enqueue_event-Keeps, settle_payment-find, has_public_id}
use chmabapay.Payments.Net.{
  store-kept, insert_entry-new, no_entry, usage-appended, usage-net, usage-ledger,
}

reverse_payment-ledger :
    (db : Db) (payment : Payment) (store : Store) (ref : Option Text) (raw : Option GatewayRaw)
    (now : Instant) (reason : Option Text) (later : Instant)
    → store_of db payment.store_id ≡ some store
    → (reverse_payment db (confirm ref raw now payment) reason later).0.ledger
      ≡ (record_plan_ledger_entry db store.account_id payment true later).ledger
unfolding reverse_payment record_plan_ledger_entry
reverse_payment-ledger db payment store ref raw now reason later found =
    let gone = give_back reason later (confirm ref raw now payment) in
    let written = update_payment payment.id (give_back reason later) db in
    rw (found, reverse_payment)
      (enqueue_event-Keeps (record_plan_ledger_entry written store.account_id gone true later) gone
        store EventType.reversed).1

entered :
    (db db' : Db) (owner owner' : ℕ) (payment : Payment) (later : Instant)
    → db'.ledger ≡ db.ledger
    → owner' ≡ owner
    → (record_plan_ledger_entry db' owner' payment true later).ledger
      ≡ (record_plan_ledger_entry db owner payment true later).ledger
unfolding record_plan_ledger_entry
entered db db' owner owner' payment later ledger same =
    ap (insert_entry (ledger_entry owner' payment true later)) ledger
    ∙ ap (λ k. insert_entry (ledger_entry k payment true later) db.ledger) same

pub mark_paid-settles :
    (db : Db) (settings : Settings) (public_id : Text) (payment : Payment) (store : Store)
    (ref : Option Text) (raw : Option GatewayRaw) (now : Instant)
    → find_by (has_public_id public_id) db.payments ≡ some payment
    → is_terminal payment.status ≡ false
    → store_of db payment.store_id ≡ some store
    → (mark_paid db settings public_id ref raw now).0
      ≡ settle_payment db settings payment store ref raw now
unfolding mark_paid
mark_paid-settles db settings public_id payment store ref raw now found live owner =
    rw (found, mark_paid, live, owner) refl

-- Confirming a payment of a store that is not internal and reversing it in the same calendar
-- month leaves the usage of every account and month, both the number of payments and the volume,
-- as it was before. It assumes that the ledger has no entry of the payment before the
-- confirmation.
pub reverse_payment-net :
    (db : Db) (settings : Settings) (public_id : Text) (payment : Payment) (store : Store)
    (ref : Option Text) (raw : Option GatewayRaw) (reason : Option Text) (now later : Instant)
    (account : ℕ) (label : PeriodMonth)
    → find_by (has_public_id public_id) db.payments ≡ some payment
    → is_terminal payment.status ≡ false
    → store_of db payment.store_id ≡ some store
    → store.is_internal ≡ false
    → count_where (λ e. text_eq payment.public_id e.resource_id) db.ledger ≡ 0
    → period_month_for now ≡ period_month_for later
    → let confirmed = (mark_paid db settings public_id ref raw now).0 in
      let reversed = (reverse_payment confirmed (confirm ref raw now payment) reason later).0 in
      period_usage reversed account label ≡ period_usage db account label
unfolding record_plan_ledger_entry
reverse_payment-net db settings public_id payment store ref raw reason now later account label found
      live owner merchant fresh month =
    let settled = settle_payment db settings payment store ref raw now in
    let (kept, ledger, stores) =
      settle_payment-find db settings payment store ref raw now (has_public_id public_id)
        (λ y. refl) (λ y. refl) found in
    let (here, there, same) =
      store-kept payment.store_id db.stores settled.stores store stores owner in
    let credited = record_plan_ledger_entry db store.account_id payment false now in
    let counted : settled.ledger ≡ credited.ledger = ledger ∙ (rw merchant refl) in
    let back : (reverse_payment settled (confirm ref raw now payment) reason later).0.ledger
        ≡ (record_plan_ledger_entry credited store.account_id payment true later).ledger =
      reverse_payment-ledger settled payment here ref raw now reason later there
      ∙ entered credited settled store.account_id here.account_id payment later counted same in
    ap
      (λ d.
        period_usage (reverse_payment d (confirm ref raw now payment) reason later).0 account label)
      (mark_paid-settles db settings public_id payment store ref raw now found live owner)
    ∙ usage-ledger (record_plan_ledger_entry credited store.account_id payment true later)
        (reverse_payment settled (confirm ref raw now payment) reason later).0 account label back
    ∙ usage-net db store.account_id payment now later account label fresh month

-- Confirming a payment of an internal store and reversing it leaves the usage of the account of
-- the store, in the month of the reversal, one payment and the amount of the payment below what
-- it was before. It assumes that the ledger has no entry of the payment before.
pub reverse_payment-internal :
    (db : Db) (settings : Settings) (public_id : Text) (payment : Payment) (store : Store)
    (ref : Option Text) (raw : Option GatewayRaw) (reason : Option Text) (now later : Instant)
    → find_by (has_public_id public_id) db.payments ≡ some payment
    → is_terminal payment.status ≡ false
    → store_of db payment.store_id ≡ some store
    → store.is_internal ≡ true
    → count_where (λ e. text_eq payment.public_id e.resource_id) db.ledger ≡ 0
    → let confirmed = (mark_paid db settings public_id ref raw now).0 in
      let reversed = (reverse_payment confirmed (confirm ref raw now payment) reason later).0 in
      let before = period_usage db store.account_id (period_month_for later) in
      period_usage reversed store.account_id (period_month_for later)
      ≡ (before.0 +ℤ (pos 0 -ℤ pos 1), before.1 +ℤ (pos 0 -ℤ pos payment.amount_cents))
unfolding record_plan_ledger_entry
reverse_payment-internal db settings public_id payment store ref raw reason now later found live
      owner own fresh =
    let settled = settle_payment db settings payment store ref raw now in
    let label = period_month_for later in
    let debit = ledger_entry store.account_id payment true later in
    let (kept, ledger, stores) =
      settle_payment-find db settings payment store ref raw now (has_public_id public_id)
        (λ y. refl) (λ y. refl) found in
    let (here, there, same) =
      store-kept payment.store_id db.stores settled.stores store stores owner in
    let counted : settled.ledger ≡ db.ledger = ledger ∙ (rw own refl) in
    let back : (reverse_payment settled (confirm ref raw now payment) reason later).0.ledger
        ≡ db.ledger ++ debit ∷ [] =
      reverse_payment-ledger settled payment here ref raw now reason later there
      ∙ entered db settled store.account_id here.account_id payment later counted same
      ∙ insert_entry-new debit db.ledger (no_entry debit db.ledger fresh) in
    let mine : is_period store.account_id label debit ≡ true = ground arith in
    ap
      (λ d.
        period_usage (reverse_payment d (confirm ref raw now payment) reason later).0
          store.account_id label)
      (mark_paid-settles db settings public_id payment store ref raw now found live owner)
    ∙ usage-ledger (record db { ledger = db.ledger ++ debit ∷ [] })
        (reverse_payment settled (confirm ref raw now payment) reason later).0 store.account_id
        label back
    ∙ usage-appended db debit store.account_id label
    ∙ rw mine refl
