-- ===== src/Webhooks/Outbox.antt =====
-- `build_event_payload`, `_target_endpoints`, `_endpoint_wants` and `enqueue_event` of webhooks.py.
use chmabapay.Base.{
  ℕ, ◌+◌, Bool, true, false, ◌&&◌, ◌||◌, Option, none, some, List, [], ◌∷◌, ◌++◌, select, any_of,
  ltb, ◌==◌, if◌then◌else◌, Text, codes, text_eq,
}
use chmabapay.Base.Money.{money_to_str}
use chmabapay.Model.{
  Instant, Payment, Store, WebhookEndpoint, Event, EventType, EventPayload, EventDelivery,
  DeliveryStatus, Db,
}

-- `event_type in FINANCIAL_EVENTS`
abbrev pub is_financial : EventType → Bool
is_financial EventType.completed = true
is_financial EventType.reversed = true
is_financial _ = false

abbrev pub event_text : EventType → Text
event_text EventType.completed = codes "payment.completed"
event_text EventType.scanned = codes "payment.scanned"
event_text EventType.expired = codes "payment.expired"
event_text EventType.failed = codes "payment.failed"
event_text EventType.superseded = codes "payment.superseded"
event_text EventType.reversed = codes "payment.reversed"

-- `paid_at and expires_at and paid_at > expires_at`
abbrev pub is_settled_late : Option Instant → Instant → Bool
is_settled_late none expires_at = false
is_settled_late (some paid_at) expires_at = ltb expires_at paid_at

-- The identifier, the type and the time stamp of the payload are those of the event.
unfoldable pub build_event_payload : EventType → Payment → Store → EventPayload
build_event_payload event_type payment store = record {
  financial = is_financial event_type;
  payment_id = payment.public_id;
  payment_status = payment.status;
  amount = money_to_str payment.amount_cents payment.currency;
  currency = payment.currency;
  reference_id = payment.reference_id;
  metadata = payment.metadata;
  created_at = payment.created_at;
  expires_at = payment.expires_at;
  approved_at = payment.approved_at;
  paid_at = payment.paid_at;
  reversed_at = payment.reversed_at;
  settled_late = is_settled_late payment.paid_at payment.expires_at;
  store_id = store.public_id;
  store_name = store.name;
  redirect_success_url = store.redirect_success_url;
  external_id = store.external_id;
}

abbrev pub is_target : ℕ → WebhookEndpoint → Bool
is_target account e = e.is_active && (e.account_id == account)

unfoldable pub target_endpoints : Db → ℕ → List WebhookEndpoint
target_endpoints db account = select (is_target account) db.endpoints

abbrev wants : Option (List Text) → EventType → Bool
wants none event_type = true
wants (some []) event_type = true
wants (some (e ∷ events)) event_type =
    any_of (λ t. text_eq t (codes "*")) (e ∷ events)
    || any_of (λ t. text_eq t (event_text event_type)) (e ∷ events)

unfoldable pub endpoint_wants : WebhookEndpoint → EventType → Bool
endpoint_wants endpoint event_type = wants endpoint.events event_type

abbrev pub new_delivery : Db → ℕ → ℕ → EventDelivery
new_delivery db event_id endpoint_id = record {
  id = db.next_delivery;
  event_id = event_id;
  endpoint_id = endpoint_id;
  status = DeliveryStatus.pending;
  attempts = 0;
  next_attempt_at = none;
  last_response_status = none;
  last_error = none;
}

abbrev pub add_delivery : EventDelivery → Db → Db
add_delivery d db = record db {
  deliveries = db.deliveries ++ d ∷ [];
  next_delivery = db.next_delivery + 1;
}

abbrev pub is_delivery_of : ℕ → ℕ → EventDelivery → Bool
is_delivery_of event_id endpoint_id d = (d.event_id == event_id) && (d.endpoint_id == endpoint_id)

unfoldable pub schedule : List WebhookEndpoint → EventType → ℕ → Db → Db
unfolding endpoint_wants
schedule [] event_type event_id db = db
schedule (e ∷ endpoints) event_type event_id db = schedule endpoints event_type event_id (
    if endpoint_wants e event_type
    then (if any_of (is_delivery_of event_id e.id) db.deliveries
        then db
        else add_delivery (new_delivery db event_id e.id) db)
    else db)

abbrev pub new_event : Db → Payment → Store → EventType → Event
new_event db payment store event_type = record {
  id = db.next_event;
  account_id = store.account_id;
  store_id = store.id;
  payment_id = payment.id;
  type = event_type;
  payload = build_event_payload event_type payment store;
}

abbrev pub add_event : Event → Db → Db
add_event e db = record db { events = db.events ++ e ∷ []; next_event = db.next_event + 1 }

-- A counter stands for the random identifiers; the jobs for the sender are enqueued elsewhere.
unfoldable pub enqueue_event : Db → Payment → Store → EventType → Db
unfolding schedule
enqueue_event db payment store event_type =
    schedule (target_endpoints db store.account_id) event_type db.next_event
      (add_event (new_event db payment store event_type) db)
