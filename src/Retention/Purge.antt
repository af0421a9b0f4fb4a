-- ===== src/Retention/Purge.antt =====
-- `purge_gateway_payloads` of services/retention.py.
use chmabapay.Base.{
  ℕ, ◌+◌, ◌*◌, Bool, ◌&&◌, none, count_where, update_where, is_some, ltb, if◌then◌else◌,
}
use chmabapay.Base.Int.{ℤ, leb_ℤ, pos, pos_part}
use chmabapay.Model.{Instant, Payment, Db}
use chmabapay.Billing.{day}

-- `created_at < now - timedelta(days=older_than_days)`, with a payload
abbrev pub is_stale : ℕ → Instant → Payment → Bool
is_stale older_than_days now p =
    ltb (p.created_at + older_than_days * day) now && is_some p.gateway_status_raw

abbrev pub purged : Payment → Payment
purged p = record p { gateway_status_raw = none }

-- The new state and the number of rows that were cleared.
unfoldable pub purge_gateway_payloads : Db → ℤ → Instant → Db × ℕ
purge_gateway_payloads db older_than_days now =
    let days = pos_part older_than_days in
    if leb_ℤ older_than_days (pos 0) then (db, 0) else (
      record db { payments = update_where (is_stale days now) purged db.payments },
      count_where (is_stale days now) db.payments,
    )
