-- ===== src/Webhooks/Exhausted.antt =====
-- A delivery whose endpoint refuses it in every scan: `_fanout_scan_and_send` of
-- workers/w2_webhook_sender.py.
use mathlib.Core.Path.{subst}
use chmabapay.Base.{
  ℕ, ◌+◌, ◌*◌, ◌≤◌, ◌<◌, ◌≡◌, refl, sym, ap, ◌∙◌, true, false, Option, none, some, List, [], ◌∷◌,
  length, All, HasUniqueKeys, find_by, leb, ◌==◌, Bool-cases, inl, inr, arith,
}
use chmabapay.Model.{Instant, Event, WebhookEndpoint, EventDelivery, DeliveryStatus, Db, Settings}
use chmabapay.Webhooks.Delivery.{
  record_failure, Reply, second, deliver, sent_with, is_open, is_time, is_due, due_deliveries,
  fanout_scan_and_send,
}
use chmabapay.Webhooks.Retries.{
  is_refusal, IsSoon, deliver-attempts, deliver-open, refused-last, refused-again,
}
use chmabapay.Webhooks.Scans.{Scan, scan_each}
use chmabapay.Webhooks.Batch.{
  deliver_each-absent, deliver_each-find, due_deliveries-present, due_deliveries-once,
  due_deliveries-absent, deliver_each-frame,
}

is_time-later :
    (next : Option Instant) (t now : Instant)
    → is_time next t ≡ true
    → t ≤ now
    → is_time next now ≡ true
is_time-later none t now ready later = refl
is_time-later (some at) t now ready later = ground (arith, ready, later)

is_time-soon :
    (next : Option Instant) (now : Instant)
    → IsSoon now next
    → is_time next (now + 3600 * second) ≡ true
is_time-soon none now soon = absurd soon
is_time-soon (some at) now (_, soon) = ground (arith, soon)

-- Each scan comes an hour after the one before, the first not before `t`, and takes `n` rows.
abbrev pub AreSpaced : ℕ → Instant → List Scan → Type 0
AreSpaced n t [] = Unit
AreSpaced n t (scan ∷ scans) =
    (t ≤ scan.now) × (n ≤ scan.batch_size) × AreSpaced n (scan.now + 3600 * second) scans

module _ (settings : Settings) (scan : Scan) (db : Db) (d : EventDelivery)
    (unique : HasUniqueKeys (λ x. x.id) db.deliveries)
    (found : find_by (λ x. x.id == d.id) db.deliveries ≡ some d) where
  abbrev scanned : Db
  scanned = fanout_scan_and_send db settings scan.post scan.batch_size scan.now

  scan-frame :
      (scanned.events ≡ db.events)
      × (scanned.endpoints ≡ db.endpoints)
      × (length scanned.deliveries ≡ length db.deliveries)
      × HasUniqueKeys (λ x. x.id) scanned.deliveries
  unfolding fanout_scan_and_send
  scan-frame =
      let (events, endpoints, size, keys) =
        deliver_each-frame settings scan.post scan.now (due_deliveries db scan.batch_size scan.now)
          db in
      (events, endpoints, size, λ k. omega (arith, unique k, keys k))

  scan-closed : is_open d.status ≡ false → find_by (λ x. x.id == d.id) scanned.deliveries ≡ some d
  unfolding fanout_scan_and_send
  scan-closed closed =
      deliver_each-absent settings scan.post scan.now (due_deliveries db scan.batch_size scan.now)
        db d.id
        (due_deliveries-absent settings scan.post scan.now db scan.batch_size d unique found closed)
      ∙ found

  scan-sent :
      (event : Event) (endpoint : WebhookEndpoint)
      → length db.deliveries ≤ scan.batch_size
      → find_by (λ e. e.id == d.event_id) db.events ≡ some event
      → find_by (λ e. e.id == d.endpoint_id) db.endpoints ≡ some endpoint
      → endpoint.is_active ≡ true
      → is_open d.status ≡ true
      → is_time d.next_attempt_at scan.now ≡ true
      → find_by (λ x. x.id == d.id) scanned.deliveries
        ≡ some (deliver settings (scan.post endpoint.url event.payload) scan.now d)
  unfolding fanout_scan_and_send sent_with
  scan-sent event endpoint fits told target active waits ready =
      let due = due_deliveries db scan.batch_size scan.now in
      let ready_row : is_due db scan.now d ≡ true = ground (arith, target, active, waits, ready) in
      deliver_each-find settings scan.post scan.now d due db
        (due_deliveries-once settings scan.post scan.now db scan.batch_size d.id unique)
        (due_deliveries-present settings scan.post scan.now d db scan.batch_size fits unique found
          ready_row)
        found
      ∙ (λ i. some (sent_with settings scan.post (told i) (target i) scan.now d))

scan_each-closed :
    (settings : Settings) (scans : List Scan) (db : Db) (d : EventDelivery)
    → HasUniqueKeys (λ x. x.id) db.deliveries
    → find_by (λ x. x.id == d.id) db.deliveries ≡ some d
    → is_open d.status ≡ false
    → find_by (λ x. x.id == d.id) (scan_each settings scans db).deliveries ≡ some d
unfolding scan_each
scan_each-closed settings [] db d unique found closed = found
scan_each-closed settings (scan ∷ scans) db d unique found closed =
    let (_, _, _, keys) = scan-frame settings scan db d unique found in
    scan_each-closed settings scans (scanned settings scan db d unique found) d keys
      (scan-closed settings scan db d unique found closed) closed

deliver-keys :
    (settings : Settings) (reply : Reply) (now : Instant) (d : EventDelivery)
    → let sent = deliver settings reply now d in
      (sent.id ≡ d.id) × (sent.event_id ≡ d.event_id) × (sent.endpoint_id ≡ d.endpoint_id)
unfolding deliver record_failure
deliver-keys settings reply now d = (ground arith, ground arith, ground arith)

-- The delivery has failed, after exactly the maximal number of attempts.
abbrev pub IsGivenUp : Settings → ℕ → Db → Type 0
IsGivenUp settings k db =
    (last : EventDelivery) × (find_by (λ x. x.id == k) db.deliveries ≡ some last)
    × (last.status ≡ DeliveryStatus.failed)
    × (last.attempts ≡ settings.webhook_max_attempts)

-- A delivery that is open, has attempts left and names an event and an active endpoint is
-- failed, after exactly the maximal number of attempts, once there have been at least as many
-- scans as attempts were left, where the endpoint refuses in each of them. It assumes unique
-- keys, that the delivery is due at the first scan, that a scan comes an hour or more after the
-- one before, and that a batch has room for all deliveries.
pub scan_each-exhausted :
    (settings : Settings) (scans : List Scan) (db : Db) (d : EventDelivery) (event : Event)
    (endpoint : WebhookEndpoint) (t : Instant)
    → HasUniqueKeys (λ x. x.id) db.deliveries
    → find_by (λ x. x.id == d.id) db.deliveries ≡ some d
    → find_by (λ e. e.id == d.event_id) db.events ≡ some event
    → find_by (λ e. e.id == d.endpoint_id) db.endpoints ≡ some endpoint
    → endpoint.is_active ≡ true
    → is_open d.status ≡ true
    → is_time d.next_attempt_at t ≡ true
    → d.attempts < settings.webhook_max_attempts
    → settings.webhook_max_attempts ≤ d.attempts + length scans
    → AreSpaced (length db.deliveries) t scans
    → All (λ (s : Scan). is_refusal (s.post endpoint.url event.payload) ≡ true) scans
    → IsGivenUp settings d.id (scan_each settings scans db)
unfolding scan_each
scan_each-exhausted settings [] db d event endpoint t unique found told target active waits ready
      room enough spaced refused =
    absurd (omega (arith, room, enough))
scan_each-exhausted settings (scan ∷ scans) db d event endpoint t unique found told target active
      waits ready room enough (late, fits, spaced) (first, refused) =
    let reply = scan.post endpoint.url event.payload in
    let sent = deliver settings reply scan.now d in
    let next = scanned settings scan db d unique found in
    let (events, endpoints, size, keys) = scan-frame settings scan db d unique found in
    let (id, event_id, endpoint_id) = deliver-keys settings reply scan.now d in
    let count = deliver-attempts settings reply scan.now d in
    let held =
      ap (λ k. find_by (λ x. x.id == k) next.deliveries) id
      ∙ scan-sent settings scan db d unique found event endpoint fits told target active waits
          (is_time-later d.next_attempt_at t scan.now ready late) in
    subst (λ k. IsGivenUp settings k (scan_each settings scans next)) id
      (elim (Bool-cases (leb settings.webhook_max_attempts (d.attempts + 1))) [
        | inl last ↦
            let gone = refused-last settings reply scan.now d first (ground (arith, last)) in
            (
              sent,
              scan_each-closed settings scans next sent keys held (rw gone refl),
              gone,
              ground (arith, count, last, room),
            )
        | inr more ↦
            let again = refused-again settings reply scan.now d first (ground (arith, more)) in
            let still : is_open sent.status ≡ true = rw again refl in
            let (_, left, soon) = deliver-open settings reply scan.now d still in
            scan_each-exhausted settings scans next sent event endpoint (scan.now + 3600 * second)
              keys held ((λ i. find_by (λ e. e.id == event_id i) (events i)) ∙ told)
              ((λ i. find_by (λ e. e.id == endpoint_id i) (endpoints i)) ∙ target) active still
              (is_time-soon sent.next_attempt_at scan.now soon) left (omega (arith, count, enough))
              (subst (λ n. AreSpaced n (scan.now + 3600 * second) scans) (sym size) spaced) refused
      ])
