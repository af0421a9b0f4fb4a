-- ===== src/Portal/Unsettled.antt =====
-- A confirmation of a payment that no plan invoice refers to: `mark_paid` of services/payments.py.
use chmabapay.Base.{
  ℕ, ◌≡◌, refl, ap, ◌∙◌, false, Option, none, List, [], ◌∷◌, select, find_by, is_some_eq,
  if◌then◌else◌, Text, codes, arith,
}
use chmabapay.Model.{
  Instant, Store, Payment, PaymentStatus, WebhookEndpoint, EventType, GatewayRaw, Db, Settings,
}
use chmabapay.Webhooks.{
  schedule, enqueue_event, target_endpoints, add_delivery, new_delivery, add_event, new_event,
}
use chmabapay.Billing.{settle_invoice_for_payment}
use chmabapay.Payments.{
  update_payment, set_payment_status, is_successor, retire_each, retire_successors, confirm,
  settle_payment, record_plan_ledger_entry,
}

-- The invoices and the subscriptions are the same.
abbrev pub KeepsBilling : Db → Db → Type 0
KeepsBilling db db' = (db'.invoices ≡ db.invoices) × (db'.subscriptions ≡ db.subscriptions)

schedule-KeepsBilling :
    (endpoints : List WebhookEndpoint) (event_type : EventType) (id : ℕ) (db : Db)
    → KeepsBilling db (schedule endpoints event_type id db)
unfolding schedule
schedule-KeepsBilling [] event_type id db = (refl, refl)
schedule-KeepsBilling (e ∷ endpoints) event_type id db = ground (
  arith,
  schedule-KeepsBilling endpoints event_type id db,
  schedule-KeepsBilling endpoints event_type id (add_delivery (new_delivery db id e.id) db),
)

enqueue_event-KeepsBilling :
    (db : Db) (payment : Payment) (store : Store) (event_type : EventType)
    → KeepsBilling db (enqueue_event db payment store event_type)
unfolding enqueue_event
enqueue_event-KeepsBilling db payment store event_type =
    schedule-KeepsBilling (target_endpoints db store.account_id) event_type db.next_event
      (add_event (new_event db payment store event_type) db)

retire_each-KeepsBilling :
    (retired : List Payment) (store : Store) (db : Db)
    → KeepsBilling db (retire_each retired store db)
unfolding retire_each
retire_each-KeepsBilling [] store db = (refl, refl)
retire_each-KeepsBilling (p ∷ retired) store db =
    let over = set_payment_status PaymentStatus.superseded in
    let written = update_payment p.id over db in
    let told = enqueue_event written (over p) store EventType.superseded in
    let (invoices, subscriptions) =
      enqueue_event-KeepsBilling written (over p) store EventType.superseded in
    let (invoices', subscriptions') = retire_each-KeepsBilling retired store told in
    (invoices' ∙ invoices, subscriptions' ∙ subscriptions)

-- A payment that no invoice refers to settles none.
pub settle_payment-KeepsBilling :
    (db : Db) (settings : Settings) (payment : Payment) (store : Store) (ref : Option Text)
    (raw : Option GatewayRaw) (now : Instant)
    → find_by (λ i. is_some_eq i.chmabapay_payment_id payment.id) db.invoices ≡ none
    → KeepsBilling db (settle_payment db settings payment store ref raw now)
unfolding settle_payment retire_successors record_plan_ledger_entry settle_invoice_for_payment
settle_payment-KeepsBilling db settings payment store ref raw now gone =
    let paid = confirm ref raw now payment in
    let credited = update_payment payment.id (confirm ref raw now) db in
    let counted : Db =
      if store.is_internal
      then credited
      else record_plan_ledger_entry credited store.account_id paid false now in
    let invoices : counted.invoices ≡ db.invoices = ground arith in
    let subscriptions : counted.subscriptions ≡ db.subscriptions = ground arith in
    let settled : Db =
      (settle_invoice_for_payment counted settings payment.id now (codes "khqr") now).0 in
    let unsettled : settled ≡ counted =
      rw
        (
          settle_invoice_for_payment,
          ap (find_by (λ i. is_some_eq i.chmabapay_payment_id payment.id)) invoices ∙ gone,
        )
        refl in
    let retired = retire_each (select (is_successor payment.id) settled.payments) store settled in
    let (invoices', subscriptions') =
      retire_each-KeepsBilling (select (is_successor payment.id) settled.payments) store settled in
    let (invoices'', subscriptions'') =
      enqueue_event-KeepsBilling retired paid store EventType.completed in
    (
      invoices'' ∙ invoices' ∙ ap (λ d. d.invoices) unsettled ∙ invoices,
      subscriptions'' ∙ subscriptions' ∙ ap (λ d. d.subscriptions) unsettled ∙ subscriptions,
    )
