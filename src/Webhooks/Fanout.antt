-- ===== src/Webhooks/Fanout.antt =====
-- Which deliveries an event gives rise to.
use chmabapay.Base.{
  ℕ, ◌+◌, ◌≤◌, ◌≡◌, refl, Bool, ◌&&◌, some, List, [], ◌∷◌, find_by, select, any_of, count_where,
  count_where-append, count_where-select, count_where_unique, count_where-ext, count_where_mono,
  HasUniqueKeys, min, leb, ◌==◌, if◌then◌else◌, arith,
}
use chmabapay.Model.{Payment, Store, WebhookEndpoint, EventType, EventDelivery, Db}
use chmabapay.Webhooks.Outbox.{
  is_target, target_endpoints, endpoint_wants, new_delivery, is_delivery_of, schedule,
  enqueue_event, add_delivery, add_event, new_event,
}

-- Every delivery belongs to an event that was written before.
abbrev pub HasFreshDeliveries : Db → Type 0
HasFreshDeliveries db = count_where (λ d. leb db.next_event d.event_id) db.deliveries ≡ 0

at_most_one : (b : Bool) → (if b then 1 else 0) ≤ 1
at_most_one b = ground arith

any_of-count :
    (p : EventDelivery → Bool) (xs : List EventDelivery) → any_of p xs ≡ leb 1 (count_where p xs)
any_of-count p [] = refl
any_of-count p (x ∷ xs) = ground (arith, any_of-count p xs)

abbrev is_wanted_by : ℕ → EventType → WebhookEndpoint → Bool
is_wanted_by k event_type e = (e.id == k) && endpoint_wants e event_type

schedule-count :
    (endpoints : List WebhookEndpoint) (event_type : EventType) (id k : ℕ) (db : Db)
    → count_where (is_delivery_of id k) db.deliveries ≤ 1
    → count_where (is_delivery_of id k) (schedule endpoints event_type id db).deliveries
      ≡ min 1 (
          count_where (is_delivery_of id k) db.deliveries
          + count_where (is_wanted_by k event_type) endpoints)
unfolding schedule
schedule-count [] event_type id k db one = omega arith
schedule-count (e ∷ endpoints) event_type id k db one = ground (
  arith,
  schedule-count endpoints event_type id k db one,
  schedule-count endpoints event_type id k (add_delivery (new_delivery db id e.id) db),
  any_of-count (is_delivery_of id e.id) db.deliveries,
  count_where-append (is_delivery_of id k) db.deliveries (new_delivery db id e.id ∷ []),
)

-- An event is scheduled for an endpoint exactly once where the endpoint is an active one of the
-- account of the store and subscribes to the type of the event, and not at all otherwise. It
-- assumes that endpoint keys are unique and that every earlier delivery belongs to an earlier
-- event.
pub enqueue_event-deliveries :
    (db : Db) (payment : Payment) (store : Store) (event_type : EventType)
    (endpoint : WebhookEndpoint) (k : ℕ)
    → HasFreshDeliveries db
    → HasUniqueKeys (λ e. e.id) db.endpoints
    → find_by (λ e. e.id == k) db.endpoints ≡ some endpoint
    → count_where
        (is_delivery_of db.next_event k)
        (enqueue_event db payment store event_type).deliveries
      ≡ (if is_target store.account_id endpoint && endpoint_wants endpoint event_type then 1 else 0)
unfolding enqueue_event target_endpoints
enqueue_event-deliveries db payment store event_type endpoint k fresh keys found =
    let q = λ (e : WebhookEndpoint). is_target store.account_id e && endpoint_wants e event_type in
    let id = db.next_event in
    let absent : count_where (is_delivery_of id k) db.deliveries ≤ 0 = omega (
      arith,
      fresh,
      count_where_mono (is_delivery_of id k) (λ d. leb id d.event_id) db.deliveries
          (λ d h. ground arith),
    ) in
    let one : (if q endpoint then 1 else 0) ≤ 1 = at_most_one (q endpoint) in
    omega (
      arith,
      absent,
      one,
      schedule-count (select (is_target store.account_id) db.endpoints) event_type id k
          (add_event (new_event db payment store event_type) db) (omega (arith, absent)),
      count_where-select (is_target store.account_id) (is_wanted_by k event_type) db.endpoints,
      count_where-ext (λ e. is_target store.account_id e && is_wanted_by k event_type e)
          (λ e. (e.id == k) && q e) db.endpoints (λ e. ground arith),
      count_where_unique (λ e. e.id) k q db.endpoints endpoint keys found,
    )
