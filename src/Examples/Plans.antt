-- ===== src/Examples/Plans.antt =====
-- Renewals, the dunning clock and the freeze at concrete data.
use chmabapay.Base.{◌*◌, ◌≡◌, ◌≤◌, refl, true, none, some, [], ◌∷◌, arith, All, leb, sort_by}
use chmabapay.Model.{PlanInvoice, PlanSubscription, SubscriptionStatus, Db}
use chmabapay.Billing.{
  day, Notice, tier_offsets, rank, has_reached, derived_state, new_invoice, due_rows,
  issue_due_invoices, get_account, freeze_candidates, enforce_grace,
}
use chmabapay.Billing.Tiers.{urgency, derived_state-tiers, derived_state-monotone}
use chmabapay.Billing.Windows.{HasOneLiveInvoice, Keeps, IsClaimed, issue_due_invoices-sweep}
use chmabapay.Billing.Banner.{derive_notices, render_notice, owed_rows, banner_rows}
use chmabapay.Billing.Oldest.{derive_notices-oldest}
use chmabapay.Billing.Frozen.{is_frozen, enforce_grace-freezes}
use chmabapay.Examples.Data.{merchant, starter, a_subscription, an_invoice, a_db, settings}

abbrev bill : PlanInvoice
bill = an_invoice 11 1 none

derived_state-tiers_example :
    All
      (λ t. leb (rank t.0) (rank Notice.overdue_1) ≡ has_reached (100 * day) t.1 (101 * day))
      tier_offsets
unfolding derived_state
derived_state-tiers_example =
    derived_state-tiers merchant bill (101 * day) (100 * day) Notice.overdue_1 refl refl refl

derived_state-monotone_example :
    urgency (derived_state (some merchant) bill (99 * day))
    ≤ urgency (derived_state (some merchant) bill (107 * day))
derived_state-monotone_example =
    derived_state-monotone (some merchant) bill (99 * day) (107 * day) (omega arith)

abbrev current : PlanSubscription
current = a_subscription 1 SubscriptionStatus.active

abbrev unbilled : Db
unbilled = a_db [] (current ∷ []) []

abbrev raised : PlanInvoice
raised = new_invoice unbilled current starter (100 * day) (130 * day) (100 * day) (95 * day)

issue_due_invoices-sweep_example :
    let db' = (issue_due_invoices unbilled settings (95 * day) 500).0 in
    Keeps unbilled db'
    × HasOneLiveInvoice db'
    × All (IsClaimed db') (due_rows unbilled settings (95 * day) 500)
issue_due_invoices-sweep_example =
    issue_due_invoices-sweep unbilled settings (95 * day) 500 (λ id start. omega arith)

abbrev unpaid : Db
unpaid = a_db [] (current ∷ []) (bill ∷ [])

enforce_grace-freezes_example :
    All
      (λ r. is_frozen (get_account (enforce_grace unpaid settings (110 * day) 500).0 r.2.id) ≡ true)
      (freeze_candidates unpaid settings (110 * day) 500)
enforce_grace-freezes_example = enforce_grace-freezes unpaid settings (110 * day) 500 refl

-- Two debts, the second of which is raised first.
abbrev two_debts : Db
two_debts = a_db [] (current ∷ []) (record bill { id = 10; due_at = some (103 * day) } ∷ bill ∷ [])

derive_notices-oldest_example :
    derive_notices two_debts merchant (104 * day)
    ≡ some (render_notice Notice.overdue_3 (some (bill, starter)) (104 * day))
unfolding owed_rows banner_rows derived_state sort_by
derive_notices-oldest_example = derive_notices-oldest two_debts merchant (104 * day) refl
