-- ===== src/Billing/Oldest.antt =====
-- The notice that is shown is about the oldest debt: `derive_notices` of services/billing.py.
use mathlib.Core.Path.{subst}
use chmabapay.Base.{
  ℕ, ◌≤◌, ◌⊎◌, ◌≡◌, refl, sym, ap, ◌∙◌, true, false, Option, none, some, List, [], ◌∷◌, All,
  All-sort, IsSorted, sort_by-IsSorted, is_some, sort_by, select, Bool-cases, Option-cases, inl,
  inr, arith,
}
use chmabapay.Base.Int.{leb_ℤ}
use chmabapay.Model.{Instant, Account, AccountStatus, Db}
use chmabapay.Billing.Clock.{days_between}
use chmabapay.Billing.Terms.{
  Notice, issuance, tier_offsets, rank, is_unpaid, last_reached, derived_state,
}
use chmabapay.Billing.Coverage.{is_restricted}
use chmabapay.Billing.Grace.{due_key}
use chmabapay.Billing.Banner.{
  BannerRow, Banner, render_notice, is_owed, owed_rows, outranks, noticed, most_urgent, banner_rows,
  derive_notices,
}

later-rank :
    (due due' now : Instant)
    → due ≤ due'
    → rank (last_reached issuance tier_offsets due' now)
      ≤ rank (last_reached issuance tier_offsets due now)
later-rank due due' now le = ground arith

later-days :
    (due due' now : Instant)
    → due ≤ due'
    → leb_ℤ (days_between now due) (days_between now due') ≡ true
later-days due due' now le = ground arith

abbrev due_of_row : BannerRow → ℕ
due_of_row r = due_key r.0.due_at

-- A row that the query returns: unpaid, with a due date.
abbrev IsOwed : BannerRow → Type 0
IsOwed r = (is_unpaid r.0.status ≡ true) × (is_some r.0.due_at ≡ true)

abbrev state_at : Instant → Instant → Notice
state_at due now = last_reached issuance tier_offsets due now

-- An active account is told about each of its rows, and a suspended one about none.
active-state :
    (account : Account) (r : BannerRow) (now due : Instant)
    → account.status ≡ AccountStatus.active
    → is_unpaid r.0.status ≡ true
    → r.0.due_at ≡ some due
    → derived_state (some account) r.0 now ≡ some (state_at due now)
unfolding derived_state
active-state account r now due active unpaid e = ground (arith, active, unpaid, e)

suspended-state :
    (account : Account) (r : BannerRow) (now : Instant)
    → account.status ≡ AccountStatus.suspended
    → derived_state (some account) r.0 now ≡ none
unfolding derived_state
suspended-state account r now suspended = ground (arith, suspended)

status-cases :
    (status : AccountStatus)
    → is_restricted status ≡ false
    → (status ≡ AccountStatus.active) ⊎ (status ≡ AccountStatus.suspended)
status-cases AccountStatus.active h = inl refl
status-cases AccountStatus.suspended h = inr refl
status-cases AccountStatus.restricted h = absurd (ground (arith, h))

-- A row that is due later does not outrank an earlier one.
later-outranked :
    (first later : BannerRow) (now due due' : Instant)
    → first.0.due_at ≡ some due
    → later.0.due_at ≡ some due'
    → due ≤ due'
    → outranks
        (render_notice (state_at due' now) (some later) now)
        (render_notice (state_at due now) (some first) now)
      ≡ false
later-outranked first later now due due' e e' le =
    rw (e, e') (ground (arith, later-rank due due' now le, later-days due due' now le))

module _ (account : Account) (now : Instant) where
  later-silent :
      (first : BannerRow) (due : Instant) (rows : List BannerRow)
      → account.status ≡ AccountStatus.active
      → first.0.due_at ≡ some due
      → All IsOwed rows
      → All (λ r. due ≤ due_key r.0.due_at) rows
      → let best = some (render_notice (state_at due now) (some first) now) in
        most_urgent account now rows best ≡ best
  unfolding most_urgent
  later-silent first due [] active e owed le = refl
  later-silent first due (r ∷ rows) active e ((unpaid, dated), owed) (here, le) =
      elim (Option-cases r.0.due_at) [
        | inl gone ↦ absurd (ground (arith, gone, dated))
        | inr (due', e') ↦
            let best = render_notice (state_at due now) (some first) now in
            let next = render_notice (state_at due' now) (some r) now in
            let told = active-state account r now due' active unpaid e' in
            let kept = later-outranked first r now due due' e e' (ground (arith, here, e')) in
            let same : noticed (derived_state (some account) r.0 now) r now (some best)
                ≡ some best =
              ap (λ s. noticed s r now (some best)) told ∙ rw kept refl in
            ap (most_urgent account now rows) same ∙ later-silent first due rows active e owed le
      ]

  suspended-silent :
      (rows : List BannerRow)
      → account.status ≡ AccountStatus.suspended
      → most_urgent account now rows none ≡ none
  unfolding most_urgent
  suspended-silent [] suspended = refl
  suspended-silent (r ∷ rows) suspended =
      ap (λ s. most_urgent account now rows (noticed s r now none))
        (suspended-state account r now suspended)
      ∙ suspended-silent rows suspended

-- The reference: only the row that is due first is looked at.
abbrev pub oldest_notice : Account → Instant → List BannerRow → Option Banner
oldest_notice account now [] = none
oldest_notice account now (r ∷ rows) = noticed (derived_state (some account) r.0 now) r now none

most_urgent-oldest :
    (account : Account) (now : Instant) (rows : List BannerRow)
    → is_restricted account.status ≡ false
    → All IsOwed rows
    → IsSorted due_of_row rows
    → most_urgent account now rows none ≡ oldest_notice account now rows
unfolding most_urgent
most_urgent-oldest account now [] free owed sorted = refl
most_urgent-oldest account now (r ∷ rows) free ((unpaid, dated), owed) (first, sorted) =
    elim (status-cases account.status free) [
      | inl active ↦ elim (Option-cases r.0.due_at) [
        | inl gone ↦ absurd (ground (arith, gone, dated))
        | inr (due, e) ↦
            let told = active-state account r now due active unpaid e in
            let start : Option Notice → Option Banner =
              λ s. most_urgent account now rows (noticed s r now none) in
            ap start told
            ∙ later-silent account now r due rows active e owed
                (subst (λ k. All (λ s. k ≤ due_key s.0.due_at) rows) (ap due_key e) first)
            ∙ ap (λ s. noticed s r now none) (sym told)
      ]
      | inr suspended ↦
          suspended-silent account now (r ∷ rows) suspended
          ∙ ap (λ s. noticed s r now none) (sym (suspended-state account r now suspended))
    ]

select-IsOwed : (account : ℕ) (rows : List BannerRow) → All IsOwed (select (is_owed account) rows)
select-IsOwed account [] = tt
select-IsOwed account (r ∷ rows) = elim (Bool-cases (is_owed account r)) [
  | inl e ↦ rw e ((ground (arith, e), ground (arith, e)), select-IsOwed account rows)
  | inr e ↦ rw e (select-IsOwed account rows)
]

-- For an account that is not restricted the search for the most urgent notice over all unpaid
-- invoices gives the same as looking only at the first of them by due date.
pub derive_notices-oldest :
    (db : Db) (account : Account) (now : Instant)
    → is_restricted account.status ≡ false
    → derive_notices db account now ≡ oldest_notice account now (owed_rows db account.id)
unfolding derive_notices
derive_notices-oldest db account now free =
    let chosen = select (is_owed account.id) (banner_rows db db.invoices) in
    let owed = select-IsOwed account.id (banner_rows db db.invoices) in
    rw (derive_notices, free)
      (most_urgent-oldest account now (sort_by due_of_row chosen) free
        (All-sort IsOwed due_of_row chosen owed) (sort_by-IsSorted due_of_row chosen))
