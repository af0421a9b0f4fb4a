-- ===== src/Examples/Outbox.antt =====
-- Events and deliveries at concrete data.
use chmabapay.Base.{
  ℕ, ◌*◌, true, false, some, HasUniqueKeys, ◌+◌, ◌≡◌, ◌<◌, refl, ◌&&◌, none, List, [], ◌∷◌,
  count_where, if◌then◌else◌, codes, arith,
}
use chmabapay.Model.{Event, Db, DeliveryStatus, EventType, PaymentStatus, Payment, StoreStatus}
use chmabapay.Webhooks.{
  second, Reply, deliver, record_failure, enqueue_event, is_delivery_of, is_target, endpoint_wants,
}
use chmabapay.Webhooks.Retries.{IsSoon, deliver-open}
use chmabapay.Webhooks.Scans.{Scan, scan_each, IsWithinLimit, scan_each-IsWithinLimit}
use chmabapay.Webhooks.Exhausted.{IsGivenUp, scan_each-exhausted}
use chmabapay.Webhooks.Fanout.{enqueue_event-deliveries}
use chmabapay.Examples.Data.{settings, a_delivery, a_payment, a_store, an_endpoint, shop}

abbrev unavailable : Reply
unavailable = Reply.status 503

deliver-open_example :
    let d' = deliver settings unavailable 7 a_delivery in
    (d'.attempts ≡ a_delivery.attempts + 1)
    × (d'.attempts < settings.webhook_max_attempts)
    × IsSoon 7 d'.next_attempt_at
unfolding deliver record_failure
deliver-open_example = deliver-open settings unavailable 7 a_delivery refl

abbrev an_event : Event
an_event = record {
  id = 1;
  account_id = 1;
  store_id = 1;
  payment_id = 1;
  type = EventType.completed;
  payload = record {
    financial = true;
    payment_id = codes "p1";
    payment_status = PaymentStatus.paid;
    amount = codes "2.50";
    currency = codes "USD";
    reference_id = none;
    metadata = none;
    created_at = 1;
    expires_at = 2;
    approved_at = none;
    paid_at = some 2;
    reversed_at = none;
    settled_late = false;
    store_id = codes "s1";
    store_name = [];
    redirect_success_url = none;
    external_id = none;
  };
}

-- Two deliveries of the event wait, and one has failed.
abbrev outbox : Db
outbox = record (shop []) {
  events = an_event ∷ [];
  deliveries =
      a_delivery
      ∷ record a_delivery { id = 2; endpoint_id = 2 }
      ∷ record a_delivery { id = 3; status = DeliveryStatus.failed; attempts = 6 }
      ∷ [];
}

outbox-keys : HasUniqueKeys (λ d. d.id) outbox.deliveries
outbox-keys k = ground arith

-- The scan of the hour `n`, while the endpoints are down.
abbrev hourly : ℕ → Scan
hourly n = record { post = λ url payload. unavailable; batch_size = 20; now = n * 3600 * second }

abbrev day_of_scans : List Scan
day_of_scans = hourly 1 ∷ hourly 2 ∷ hourly 3 ∷ hourly 4 ∷ hourly 5 ∷ hourly 6 ∷ hourly 7 ∷ []

scan_each-exhausted_example : IsGivenUp settings 1 (scan_each settings day_of_scans outbox)
scan_each-exhausted_example =
    scan_each-exhausted settings day_of_scans outbox a_delivery an_event (an_endpoint 1 none) 0
      outbox-keys refl refl refl refl refl refl (omega arith) (omega arith)
      ((
        omega arith,
        omega arith,
        (
          omega arith,
          omega arith,
          (
            omega arith,
            omega arith,
            (
              omega arith,
              omega arith,
              (
                omega arith,
                omega arith,
                (omega arith, omega arith, (omega arith, omega arith, tt)),
              ),
            ),
          ),
        ),
      ))
      (refl, (refl, (refl, (refl, (refl, (refl, (refl, tt)))))))

scan_each-IsWithinLimit_example : IsWithinLimit settings (scan_each settings day_of_scans outbox)
scan_each-IsWithinLimit_example =
    scan_each-IsWithinLimit settings day_of_scans outbox outbox-keys refl

abbrev sale : Payment
sale = a_payment 1 1 PaymentStatus.paid

enqueue_event-deliveries_example :
    count_where
      (is_delivery_of 1 1)
      (enqueue_event
        (shop [])
        sale
        (a_store 1 none StoreStatus.active)
        EventType.completed).deliveries
    ≡ (if is_target 1 (an_endpoint 1 none)
          && endpoint_wants (an_endpoint 1 none) EventType.completed
        then 1
        else 0)
enqueue_event-deliveries_example =
    enqueue_event-deliveries (shop []) sale (a_store 1 none StoreStatus.active) EventType.completed
      (an_endpoint 1 none) 1 refl (λ k. ground arith) refl
