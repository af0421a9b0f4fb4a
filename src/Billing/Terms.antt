-- ===== src/Billing/Terms.antt =====
-- The states of an invoice and the dunning table of services/billing.py.
use chmabapay.Base.{
  ℕ, ◌+◌, ◌-◌, ◌*◌, Bool, true, false, Option, none, some, List, [], ◌∷◌, leb, if◌then◌else◌,
}
use chmabapay.Base.Int.{ℤ, pos, negsuc, pos_part, neg_part}
use chmabapay.Model.{
  Instant, Account, AccountStatus, PlanInvoice, InvoiceStatus, SubscriptionStatus,
}
use chmabapay.Billing.Clock.{day}

-- `status in UNPAID_STATUSES`
abbrev pub is_unpaid : InvoiceStatus → Bool
is_unpaid InvoiceStatus.opened = true
is_unpaid InvoiceStatus.draft = true
is_unpaid InvoiceStatus.issued = true
is_unpaid InvoiceStatus.paid = false
is_unpaid InvoiceStatus.void = false

abbrev pub is_void : InvoiceStatus → Bool
is_void InvoiceStatus.void = true
is_void _ = false

abbrev pub is_paid : InvoiceStatus → Bool
is_paid InvoiceStatus.paid = true
is_paid _ = false

abbrev pub is_pending : SubscriptionStatus → Bool
is_pending SubscriptionStatus.pending = true
is_pending _ = false

-- What a merchant can be told: the tiers, and the two states that are derived.
pub data Notice : Type 0 where
  issuance due_3 due_1 due_today overdue_1 overdue_3 overdue_final frozen : Notice

-- `timedelta(days=-n)`
abbrev days_before : ℕ → ℤ
days_before n = negsuc (n * day - 1)

-- `TIER_OFFSETS`
abbrev pub tier_offsets : List (Notice × ℤ)
tier_offsets =
    (due_3, days_before 3)
    ∷ (due_1, days_before 1)
    ∷ (due_today, pos 0)
    ∷ (overdue_1, pos (1 * day))
    ∷ (overdue_3, pos (3 * day))
    ∷ (overdue_final, pos (6 * day))
    ∷ []

-- The position in `NOTICE_ORDER`.
abbrev pub rank : Notice → ℕ
rank issuance = 0
rank due_3 = 1
rank due_1 = 2
rank due_today = 3
rank overdue_1 = 4
rank overdue_3 = 5
rank overdue_final = 6
rank frozen = 7

-- `now >= due_at + offset`
abbrev pub has_reached : Instant → ℤ → Instant → Bool
has_reached due_at offset now = leb (due_at + pos_part offset) (now + neg_part offset)

abbrev pub last_reached : Notice → List (Notice × ℤ) → Instant → Instant → Notice
last_reached state [] due_at now = state
last_reached state ((tier, offset) ∷ tiers) due_at now =
    last_reached (if has_reached due_at offset now then tier else state) tiers due_at now

abbrev clock_state : Option Instant → Instant → Option Notice
clock_state none now = none
clock_state (some due_at) now = some (last_reached issuance tier_offsets due_at now)

abbrev state_for : AccountStatus → Option Instant → Instant → Option Notice
state_for AccountStatus.suspended due_at now = none
state_for AccountStatus.restricted due_at now = some frozen
state_for AccountStatus.active due_at now = clock_state due_at now

unfoldable pub derived_state : Option Account → PlanInvoice → Instant → Option Notice
derived_state none invoice now = none
derived_state (some account) invoice now =
    if is_unpaid invoice.status then state_for account.status invoice.due_at now else none
