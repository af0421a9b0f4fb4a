-- ===== src/Webhooks/Retries.antt =====
-- How often a delivery is tried, and when.
use native.Mathlib.Nat.{one-le-pow}
use chmabapay.Base.{
  ℕ, ◌+◌, ◌*◌, ◌≤◌, ◌<◌, ◌≡◌, Bool, true, false, Option, none, some, arith, if◌then◌else◌, ◌^◌,
}
use chmabapay.Model.{Instant, EventDelivery, DeliveryStatus, Settings}
use chmabapay.Webhooks.Delivery.{Reply, second, is_2xx, deliver, record_failure, is_open}

-- An answer that is not a success.
abbrev pub is_refusal : Reply → Bool
is_refusal (Reply.status code) = if is_2xx code then false else true
is_refusal (Reply.failure error) = true

-- The time of the next attempt lies between one second and one hour after `now`.
abbrev pub IsSoon : Instant → Option Instant → Type 0
IsSoon now none = ⊥
IsSoon now (some t) = (now + second ≤ t) × (t ≤ now + 3600 * second)

pub deliver-attempts :
    (settings : Settings) (reply : Reply) (now : Instant) (d : EventDelivery)
    → (deliver settings reply now d).attempts ≡ d.attempts + 1
unfolding deliver record_failure
deliver-attempts settings reply now d = ground arith

pub refused-last :
    (settings : Settings) (reply : Reply) (now : Instant) (d : EventDelivery)
    → is_refusal reply ≡ true
    → settings.webhook_max_attempts ≤ d.attempts + 1
    → (deliver settings reply now d).status ≡ DeliveryStatus.failed
unfolding deliver record_failure
refused-last settings (Reply.status code) now d refused last = ground arith
refused-last settings (Reply.failure error) now d refused last = ground arith

pub refused-again :
    (settings : Settings) (reply : Reply) (now : Instant) (d : EventDelivery)
    → is_refusal reply ≡ true
    → d.attempts + 1 < settings.webhook_max_attempts
    → (deliver settings reply now d).status ≡ DeliveryStatus.retrying
unfolding deliver record_failure
refused-again settings (Reply.status code) now d refused more = ground arith
refused-again settings (Reply.failure error) now d refused more = ground arith

one_le_power : (n : ℕ) → 1 ≤ 2 ^ n
one_le_power n = one-le-pow n 2 (omega arith)

-- Where a delivery is still open after an attempt, the attempt was counted, attempts are left,
-- and the next one is due at least one second and at most one hour later.
pub deliver-open :
    (settings : Settings) (reply : Reply) (now : Instant) (d : EventDelivery)
    → is_open (deliver settings reply now d).status ≡ true
    → let d' = deliver settings reply now d in
      (d'.attempts ≡ d.attempts + 1)
      × (d'.attempts < settings.webhook_max_attempts)
      × IsSoon now d'.next_attempt_at
unfolding deliver record_failure
deliver-open settings (Reply.status code) now d more = ground (arith, one_le_power (d.attempts + 1))
deliver-open settings (Reply.failure error) now d more =
    ground (arith, one_le_power (d.attempts + 1))
