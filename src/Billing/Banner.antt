-- ===== src/Billing/Banner.antt =====
-- `derive_notices`, `_notice_rank` and `_render_notice` of services/billing.py, without the texts.
use chmabapay.Base.{
  ℕ, Bool, not, ◌&&◌, ◌||◌, Option, none, some, List, [], ◌∷◌, select, find_by, sort_by, is_some,
  ltb, ◌==◌, if◌then◌else◌,
}
use chmabapay.Base.Int.{ℤ, pos, leb_ℤ}
use chmabapay.Model.{Instant, Account, Plan, PlanInvoice, PlanSubscription, Db}
use chmabapay.Stores.{in_force}
use chmabapay.Billing.Clock.{days_between}
use chmabapay.Billing.Terms.{
  Notice, issuance, due_3, due_1, due_today, overdue_1, overdue_3, overdue_final, frozen, rank,
  is_unpaid, derived_state,
}
use chmabapay.Billing.Coverage.{is_restricted}
use chmabapay.Billing.Grace.{subscription_row, due_key}

pub data Level : Type 0 where
  info warning critical : Level

-- `NOTICE_LEVELS`
abbrev pub notice_level : Notice → Level
notice_level issuance = info
notice_level due_3 = info
notice_level due_1 = info
notice_level due_today = warning
notice_level overdue_1 = warning
notice_level overdue_3 = warning
notice_level overdue_final = critical
notice_level frozen = critical

abbrev pub BannerRow : Type 0
BannerRow = PlanInvoice × Plan

pub record Banner : Type 0 where
  pub state : Notice
  pub level : Level
  pub row : Option BannerRow
  pub due_at : Option Instant
  pub days_until_due : Option ℤ

abbrev pub due_of : Option BannerRow → Option Instant
due_of none = none
due_of (some (i, plan)) = i.due_at

abbrev pub days_to : Option Instant → Instant → Option ℤ
days_to none now = none
days_to (some due_at) now = some (days_between now due_at)

abbrev pub render_notice : Notice → Option BannerRow → Instant → Banner
render_notice state row now = record {
  state = state;
  level = notice_level state;
  row = row;
  due_at = due_of row;
  days_until_due = days_to (due_of row) now;
}

abbrev pub plan_row : Db → PlanInvoice → Option PlanSubscription → Option BannerRow
plan_row db i none = none
plan_row db i (some s) =
    if in_force s.status
    then (elim (find_by (λ p. p.id == s.plan_id) db.plans) [
      | none ↦ none
      | some plan ↦ some (i, plan)
    ])
    else none

-- The inner joins with the subscription in force and its plan.
unfoldable pub banner_rows : Db → List PlanInvoice → List BannerRow
banner_rows db [] = []
banner_rows db (i ∷ invoices) =
    let rest = banner_rows db invoices in
    elim (plan_row db i (subscription_row db i.subscription_id)) [ none ↦ rest | some r ↦ r ∷ rest ]

abbrev pub is_owed : ℕ → BannerRow → Bool
is_owed account (i, plan) = (i.account_id == account) && (is_unpaid i.status && is_some i.due_at)

-- `ORDER BY due_at`
unfoldable pub owed_rows : Db → ℕ → List BannerRow
unfolding banner_rows
owed_rows db account =
    sort_by (λ r. due_key r.0.due_at) (select (is_owed account) (banner_rows db db.invoices))

-- `-(int(days) if isinstance(days, int) else 0)`, negated once more
abbrev pub days_or : Option ℤ → ℤ
days_or none = pos 0
days_or (some days) = days

-- `_notice_rank(a) > _notice_rank(b)`
abbrev pub outranks : Banner → Banner → Bool
outranks a b =
    ltb (rank b.state) (rank a.state)
    || ((rank a.state == rank b.state)
        && not (leb_ℤ (days_or b.days_until_due) (days_or a.days_until_due)))

abbrev pub better : Option Banner → Banner → Banner
better none notice = notice
better (some best) notice = if outranks notice best then notice else best

abbrev pub noticed : Option Notice → BannerRow → Instant → Option Banner → Option Banner
noticed none r now best = best
noticed (some state) r now best = some (better best (render_notice state (some r) now))

unfoldable pub most_urgent : Account → Instant → List BannerRow → Option Banner → Option Banner
most_urgent account now [] best = best
most_urgent account now (r ∷ rows) best =
    most_urgent account now rows (noticed (derived_state (some account) r.0 now) r now best)

abbrev pub first_row : List BannerRow → Option BannerRow
first_row [] = none
first_row (r ∷ rows) = some r

-- At most one notice.
unfoldable pub derive_notices : Db → Account → Instant → Option Banner
unfolding owed_rows most_urgent
derive_notices db account now =
    let rows = owed_rows db account.id in
    if is_restricted account.status
    then some (render_notice frozen (first_row rows) now)
    else most_urgent account now rows none
