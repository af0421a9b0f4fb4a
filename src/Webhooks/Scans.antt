-- ===== src/Webhooks/Scans.antt =====
-- How often the scans of workers/w2_webhook_sender.py send a delivery.
use chmabapay.Base.{
  sym, ℕ, ◌+◌, ◌≤◌, ◌≡◌, refl, ap, ◌∙◌, Bool, true, false, not, ◌&&◌, ◌||◌, Option, none, some,
  List, [], ◌∷◌, select, sort_by, max, HasUniqueKeys, occ, count_where, count_where-take,
  count_where-sort, count_where-select, count_where-split, count_where-update,
  count_where-update_same, count_where-ext, count_where_mono, count_where_le_add, find_by,
  update_where, leb, ltb, ◌==◌, if◌then◌else◌, Text, Bool-cases, inl, inr, arith,
}
use chmabapay.Model.{Instant, Event, EventPayload, WebhookEndpoint, EventDelivery, Db, Settings}
use chmabapay.Webhooks.Delivery.{
  Reply, deliver, record_failure, sent_with, deliver_one, is_open, is_due, due_deliveries,
  deliver_each, fanout_scan_and_send,
}
use chmabapay.Webhooks.Retries.{deliver-attempts, deliver-open}

-- One scan: what the endpoints answer, the size of a batch, and the instant.
pub record Scan : Type 0 where
  pub post : Text → EventPayload → Reply
  pub batch_size : ℕ
  pub now : Instant

-- The scans of a worker, one after another.
unfoldable pub scan_each : Settings → List Scan → Db → Db
unfolding fanout_scan_and_send
scan_each settings [] db = db
scan_each settings (scan ∷ scans) db =
    scan_each settings scans (fanout_scan_and_send db settings scan.post scan.batch_size scan.now)

-- More attempts than the maximum, or open with none left.
abbrev pub is_over : Settings → EventDelivery → Bool
is_over settings d =
    ltb settings.webhook_max_attempts d.attempts
    || (is_open d.status && leb settings.webhook_max_attempts d.attempts)

abbrev pub IsWithinLimit : Settings → Db → Type 0
IsWithinLimit settings db = count_where (is_over settings) db.deliveries ≡ 0

abbrev is_closed : ℕ → EventDelivery → Bool
is_closed k d = (d.id == k) && not (is_open d.status)

-- Each delivery still to be sent is open, and none comes twice.
abbrev AreWaiting : List EventDelivery → Db → Type 0
AreWaiting due db = (k : ℕ) → occ (λ d. d.id) k due + count_where (is_closed k) db.deliveries ≤ 1

module _ (settings : Settings) (post : Text → EventPayload → Reply) (event : Option Event)
    (endpoint : Option WebhookEndpoint) (now : Instant) where
  pub sent_with-id : (d : EventDelivery) → (sent_with settings post event endpoint now d).id ≡ d.id
  unfolding sent_with deliver record_failure
  sent_with-id d = ground arith

  deliver-over :
      (reply : Reply) (d : EventDelivery)
      → is_open d.status ≡ true
      → is_over settings d ≡ false
      → is_over settings (deliver settings reply now d) ≡ false
  deliver-over reply d waits room =
      let sent = deliver settings reply now d in
      let count = deliver-attempts settings reply now d in
      elim (Bool-cases (is_open sent.status)) [
        | inl more ↦
            let (_, left, _) = deliver-open settings reply now d more in ground (arith, left)
        | inr closed ↦ ground (arith, closed, count)
      ]

  sent_with-over :
      (d : EventDelivery)
      → is_open d.status ≡ true
      → is_over settings d ≡ false
      → is_over settings (sent_with settings post event endpoint now d) ≡ false
  unfolding sent_with
  sent_with-over d waits room = go event endpoint
    where
      go :
          (e : Option Event) (p : Option WebhookEndpoint)
          → is_over settings (sent_with settings post e p now d) ≡ false
      go (some e) (some p) = deliver-over (post p.url e.payload) d waits room
      go (some e) none = ground (arith, waits, room)
      go none p = ground (arith, waits, room)

  sent_with-over_le :
      (d : EventDelivery)
      → (if is_over settings (sent_with settings post event endpoint now d) then 1 else 0)
        ≤ (if is_over settings d then 1 else 0) + (if not (is_open d.status) then 1 else 0)
  sent_with-over_le d = ground (arith, sent_with-over d)

module _ (settings : Settings) (post : Text → EventPayload → Reply) (now : Instant) where
  module _ (db : Db) (d : EventDelivery) (due : List EventDelivery)
      (unique : HasUniqueKeys (λ x. x.id) db.deliveries) (waiting : AreWaiting (d ∷ due) db) where
    abbrev send : EventDelivery → EventDelivery
    send =
        sent_with settings post (find_by (λ e. e.id == d.event_id) db.events)
          (find_by (λ e. e.id == d.endpoint_id) db.endpoints) now

    send-id : (x : EventDelivery) → (send x).id ≡ x.id
    send-id =
        sent_with-id settings post (find_by (λ e. e.id == d.event_id) db.events)
          (find_by (λ e. e.id == d.endpoint_id) db.endpoints) now

    deliver_one-deliveries :
        (deliver_one db settings post now d).deliveries
        ≡ update_where (λ x. x.id == d.id) send db.deliveries
    unfolding deliver_one
    deliver_one-deliveries = refl

    once : (occ (λ x. x.id) d.id due ≡ 0) × (count_where (is_closed d.id) db.deliveries ≡ 0)
    once = (ground (arith, waiting d.id), ground (arith, waiting d.id))

    deliver_one-occ :
        (k : ℕ)
        → occ (λ x. x.id) k (deliver_one db settings post now d).deliveries
          ≡ occ (λ x. x.id) k db.deliveries
    deliver_one-occ k =
        ap (occ (λ x. x.id) k) deliver_one-deliveries
        ∙ count_where-update_same (λ x. x.id == k) (λ x. x.id == d.id) send db.deliveries
            (λ x. ap (λ i. i == k) (send-id x))

    deliver_one-waiting : AreWaiting due (deliver_one db settings post now d)
    deliver_one-waiting k =
        let after = (deliver_one db settings post now d).deliveries in
        elim (Bool-cases (d.id == k)) [
          | inl here ↦
              let own : d.id ≡ k = ground (arith, here) in
              let gone : occ (λ x. x.id) k due ≡ 0 =
                ap (λ j. occ (λ x. x.id) j due) (sym own) ∙ once.0 in
              omega (
                arith,
                gone,
                unique k,
                deliver_one-occ k,
                count_where_mono (is_closed k) (λ x. x.id == k) after (λ x h. ground (arith, h)),
              )
          | inr there ↦
              let same : count_where (is_closed k) after ≡ count_where (is_closed k) db.deliveries =
                ap (count_where (is_closed k)) deliver_one-deliveries
                ∙ count_where-update (is_closed k) (λ x. x.id == d.id) send db.deliveries
                ∙ count_where-ext
                    (λ x. if x.id == d.id then is_closed k (send x) else is_closed k x)
                    (is_closed k) db.deliveries (λ x. ground (arith, there, send-id x)) in
              ground (arith, waiting k, same, there)
        ]

    deliver_one-IsWithinLimit :
        IsWithinLimit settings db → IsWithinLimit settings (deliver_one db settings post now d)
    deliver_one-IsWithinLimit fine = omega (
      arith,
      fine,
      once.1,
      ap (count_where (is_over settings)) deliver_one-deliveries,
      count_where-update (is_over settings) (λ x. x.id == d.id) send db.deliveries,
      count_where_le_add
          (λ x. if x.id == d.id then is_over settings (send x) else is_over settings x)
          (is_over settings) (is_closed d.id) db.deliveries
          (λ x. ground (
            arith,
            sent_with-over_le settings post (find_by (λ e. e.id == d.event_id) db.events)
                (find_by (λ e. e.id == d.endpoint_id) db.endpoints) now x,
          )),
    )

  deliver_each-IsWithinLimit :
      (due : List EventDelivery) (db : Db)
      → HasUniqueKeys (λ x. x.id) db.deliveries
      → AreWaiting due db
      → IsWithinLimit settings db
      → HasUniqueKeys (λ x. x.id) (deliver_each due settings post now db).deliveries
        × IsWithinLimit settings (deliver_each due settings post now db)
  unfolding deliver_each
  deliver_each-IsWithinLimit [] db unique waiting fine = (unique, fine)
  deliver_each-IsWithinLimit (d ∷ due) db unique waiting fine =
      deliver_each-IsWithinLimit due (deliver_one db settings post now d)
        (λ k. omega (arith, unique k, deliver_one-occ db d due unique waiting k))
        (deliver_one-waiting db d due unique waiting)
        (deliver_one-IsWithinLimit db d due unique waiting fine)

  due_deliveries-waiting :
      (db : Db) (batch_size : ℕ)
      → HasUniqueKeys (λ x. x.id) db.deliveries
      → AreWaiting (due_deliveries db batch_size now) db
  unfolding due_deliveries
  due_deliveries-waiting db batch_size unique k =
      let has = λ (x : EventDelivery). x.id == k in
      let rows = select (is_due db now) db.deliveries in
      omega (
        arith,
        unique k,
        count_where-take has (max 1 batch_size) (sort_by (λ x. x.id) rows),
        count_where-sort has (λ x. x.id) rows,
        count_where-select (is_due db now) has db.deliveries,
        count_where_mono (λ x. is_due db now x && has x) (λ x. has x && is_open x.status)
            db.deliveries (λ x h. ground (arith, h)),
        count_where-split has (λ x. is_open x.status) db.deliveries,
      )

  fanout_scan_and_send-IsWithinLimit :
      (db : Db) (batch_size : ℕ)
      → HasUniqueKeys (λ x. x.id) db.deliveries
      → IsWithinLimit settings db
      → HasUniqueKeys (λ x. x.id) (fanout_scan_and_send db settings post batch_size now).deliveries
        × IsWithinLimit settings (fanout_scan_and_send db settings post batch_size now)
  unfolding fanout_scan_and_send
  fanout_scan_and_send-IsWithinLimit db batch_size unique fine =
      deliver_each-IsWithinLimit (due_deliveries db batch_size now) db unique
        (due_deliveries-waiting db batch_size unique) fine

-- Scans alone, at any instants, of any size and whatever the endpoints answer, never send a
-- delivery more often than the maximal number of attempts: where no delivery is beyond it
-- before, and each open one has attempts left, this holds after them. It assumes unique keys,
-- and says nothing of a job that names a delivery.
pub scan_each-IsWithinLimit :
    (settings : Settings) (scans : List Scan) (db : Db)
    → HasUniqueKeys (λ x. x.id) db.deliveries
    → IsWithinLimit settings db
    → IsWithinLimit settings (scan_each settings scans db)
unfolding scan_each
scan_each-IsWithinLimit settings [] db unique fine = fine
scan_each-IsWithinLimit settings (scan ∷ scans) db unique fine =
    let (keys, kept) =
      fanout_scan_and_send-IsWithinLimit settings scan.post scan.now db scan.batch_size unique
        fine in
    scan_each-IsWithinLimit settings scans
      (fanout_scan_and_send db settings scan.post scan.batch_size scan.now) keys kept
