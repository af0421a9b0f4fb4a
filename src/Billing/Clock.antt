-- ===== src/Billing/Clock.antt =====
-- The periods of services/billing.py, and the calendar fields that it reads of a `datetime`.
use chmabapay.Base.{ℕ, ◌+◌, ◌-◌, ◌*◌, ◌/◌, ◌%◌, ltb, leb, if◌then◌else◌}
use chmabapay.Base.Int.{ℤ, pos, negsuc, pos_part}
use chmabapay.Model.{Instant, PeriodMonth, Settings}

-- `timedelta(days=1)`, in microseconds
abbrev pub day : ℕ
day = 86_400_000_000

-- `CREDIT_PERIOD`
abbrev pub credit_period : ℕ
credit_period = 30 * day

unfoldable pub grace_period : Settings → ℕ
grace_period settings = pos_part settings.billing_grace_days * day

-- Year, month and day of the month of an instant in UTC.
abbrev pub civil : Instant → ℕ × ℕ × ℕ
civil moment =
    let z = moment / day + 719468 in
    let doe = z % 146097 in
    let yoe = (doe - doe / 1460 + doe / 36524 - doe / 146096) / 365 in
    let doy = doe - (365 * yoe + yoe / 4 - yoe / 100) in
    let mp = (5 * doy + 2) / 153 in
    let month = if ltb mp 10 then mp + 3 else mp - 9 in
    (yoe + z / 146097 * 400 + (if leb month 2 then 1 else 0), month, doy - (153 * mp + 2) / 5 + 1)

-- `YYYY-MM`
unfoldable pub period_month_for : Instant → PeriodMonth
period_month_for moment = let (y, m, d) = civil moment in (y, m)

-- `(later - earlier).days`, rounded down
abbrev pub days_between : Instant → Instant → ℤ
days_between earlier later =
    if leb earlier later
    then pos ((later - earlier) / day)
    else negsuc ((earlier - later - 1) / day)
