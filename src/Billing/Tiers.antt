-- ===== src/Billing/Tiers.antt =====
-- What `derived_state` says at each instant of the dunning clock.
use chmabapay.Base.{ℕ, suc, ◌≤◌, ◌≡◌, Option, none, some, leb, All, arith}
use chmabapay.Model.{Instant, Account, AccountStatus, PlanInvoice}
use chmabapay.Billing.Terms.{
  Notice, issuance, tier_offsets, rank, has_reached, last_reached, derived_state,
}

last_reached-rank :
    (due_at now : Instant)
    → All
        (λ t.
          leb (rank t.0) (rank (last_reached issuance tier_offsets due_at now))
          ≡ has_reached due_at t.1 now)
        tier_offsets
last_reached-rank due_at now = ground arith

-- For an active account and an invoice with a due date about which a notice is shown, a tier of
-- the dunning table ranks at or below that notice exactly when the instant of the tier has come.
pub derived_state-tiers :
    (account : Account) (invoice : PlanInvoice) (now due_at : Instant) (state : Notice)
    → account.status ≡ AccountStatus.active
    → invoice.due_at ≡ some due_at
    → derived_state (some account) invoice now ≡ some state
    → All (λ t. leb (rank t.0) (rank state) ≡ has_reached due_at t.1 now) tier_offsets
unfolding derived_state
derived_state-tiers account invoice now due_at state active due h =
    ground (arith, last_reached-rank due_at now)

-- How urgent an answer of `derived_state` is; silence is the least.
abbrev pub urgency : Option Notice → ℕ
urgency none = 0
urgency (some state) = suc (rank state)

-- As time passes the notice about an invoice neither vanishes nor becomes less urgent, for any
-- account and invoice that stay the same.
pub derived_state-monotone :
    (account : Option Account) (invoice : PlanInvoice) (now later : Instant)
    → now ≤ later
    → urgency (derived_state account invoice now) ≤ urgency (derived_state account invoice later)
unfolding derived_state
derived_state-monotone account invoice now later le = ground arith
