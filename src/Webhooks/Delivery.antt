-- ===== src/Webhooks/Delivery.antt =====
-- `_process_one`, `_fanout_scan_and_send` and `_deliver_one` of workers/w2_webhook_sender.py.
use chmabapay.Base.{
  ℕ, ◌+◌, ◌*◌, ◌^◌, Bool, true, false, not, ◌&&◌, Option, none, some, List, [], ◌∷◌, find_by,
  update_where, take, select, ltb, leb, min, ◌==◌, if◌then◌else◌, Text, codes, decimal, sort_by,
  ◌++◌, max,
}
use chmabapay.Model.{
  Instant, Event, EventPayload, WebhookEndpoint, EventDelivery, DeliveryStatus, Db, Settings,
}

-- What the merchant's endpoint answers: a status, or a failure with `str(exc) or type(exc).__name__`.
pub data Reply : Type 0 where
  status : ℕ → Reply
  failure : Text → Reply

-- `timedelta(seconds=1)`
abbrev pub second : ℕ
second = 1_000_000

-- `min(2 ** attempts, 3600)`
abbrev pub backoff : ℕ → ℕ
backoff attempts = min (2 ^ attempts) 3600

abbrev pub is_2xx : ℕ → Bool
is_2xx code = leb 200 code && ltb code 300

-- The except branch, after the attempt has been counted.
unfoldable pub record_failure : Settings → Text → Instant → EventDelivery → EventDelivery
record_failure settings error now d =
    let noted = record d { last_error = some (take 2000 error) } in
    if leb settings.webhook_max_attempts d.attempts
    then record noted { status = DeliveryStatus.failed; next_attempt_at = none }
    else record noted {
      status = DeliveryStatus.retrying;
      next_attempt_at = some (now + backoff d.attempts * second);
    }

-- The body of the `try` and its `except` branch.
unfoldable pub deliver : Settings → Reply → Instant → EventDelivery → EventDelivery
unfolding record_failure
deliver settings (status code) now d =
    let sent = record d { attempts = d.attempts + 1; last_response_status = some code } in
    if is_2xx code
    then record sent { status = DeliveryStatus.success; last_error = none; next_attempt_at = none }
    else record_failure settings (codes "non_2xx:" ++ decimal code) now sent
deliver settings (failure error) now d =
    record_failure settings error now (record d { attempts = d.attempts + 1 })

abbrev pub orphaned : EventDelivery → EventDelivery
orphaned d = record d {
  status = DeliveryStatus.failed;
  last_error = some (codes "missing event/endpoint");
}

-- What a delivery becomes. `post` is the endpoint's answer to a signed payload at its URL.
unfoldable pub sent_with :
    Settings
    → (Text → EventPayload → Reply)
    → Option Event
    → Option WebhookEndpoint
    → Instant
    → EventDelivery
    → EventDelivery
unfolding deliver
sent_with settings post (some event) (some endpoint) now d =
    deliver settings (post endpoint.url event.payload) now d
sent_with settings post (some event) none now d = orphaned d
sent_with settings post none endpoint now d = orphaned d

unfoldable pub deliver_one :
    Db → Settings → (Text → EventPayload → Reply) → Instant → EventDelivery → Db
unfolding sent_with
deliver_one db settings post now delivery =
    let event = find_by (λ e. e.id == delivery.event_id) db.events in
    let endpoint = find_by (λ e. e.id == delivery.endpoint_id) db.endpoints in
    record db {
      deliveries =
          update_where (λ d. d.id == delivery.id) (sent_with settings post event endpoint now)
            db.deliveries;
    }

-- `status in (pending, retrying)`
abbrev pub is_open : DeliveryStatus → Bool
is_open DeliveryStatus.pending = true
is_open DeliveryStatus.retrying = true
is_open DeliveryStatus.success = false
is_open DeliveryStatus.failed = false

abbrev pub is_success : DeliveryStatus → Bool
is_success DeliveryStatus.success = true
is_success _ = false

-- `next_attempt_at is None or next_attempt_at <= now`
abbrev pub is_time : Option Instant → Instant → Bool
is_time none now = true
is_time (some t) now = leb t now

abbrev is_active_endpoint : Option WebhookEndpoint → Bool
is_active_endpoint none = false
is_active_endpoint (some e) = e.is_active

abbrev pub is_due : Db → Instant → EventDelivery → Bool
is_due db now d =
    is_active_endpoint (find_by (λ e. e.id == d.endpoint_id) db.endpoints)
    && (is_open d.status && is_time d.next_attempt_at now)

unfoldable pub due_deliveries : Db → ℕ → Instant → List EventDelivery
due_deliveries db batch_size now =
    take (max 1 batch_size) (sort_by (λ d. d.id) (select (is_due db now) db.deliveries))

unfoldable pub deliver_each :
    List EventDelivery → Settings → (Text → EventPayload → Reply) → Instant → Db → Db
unfolding deliver_one
deliver_each [] settings post now db = db
deliver_each (d ∷ due) settings post now db =
    deliver_each due settings post now (deliver_one db settings post now d)

-- One scan at a time: the flag of a scan in flight belongs to the concurrent calls.
unfoldable pub fanout_scan_and_send :
    Db → Settings → (Text → EventPayload → Reply) → ℕ → Instant → Db
unfolding deliver_each due_deliveries
fanout_scan_and_send db settings post batch_size now =
    deliver_each (due_deliveries db batch_size now) settings post now db

pub data Sent : Type 0 where
  delivery_not_found already_success not_yet_due delivered : Sent

-- A job that names a delivery; `force` sends before the time.
unfoldable pub process_one :
    Db → Settings → (Text → EventPayload → Reply) → ℕ → Bool → Instant → Db × Sent
unfolding deliver_one
process_one db settings post delivery_id force now =
    elim (find_by (λ d. d.id == delivery_id) db.deliveries) [
      | none ↦ (db, Sent.delivery_not_found)
      | some d ↦
          if is_success d.status
          then (db, Sent.already_success)
          else if not (is_time d.next_attempt_at now) && not force
          then (db, Sent.not_yet_due)
          else (deliver_one db settings post now d, Sent.delivered)
    ]
