-- ===== src/Billing/Windows.antt =====
-- One live invoice for each subscription and window, and what a sweep of renewals changes.
use chmabapay.Base.{
  ℕ, ◌+◌, ◌≤◌, ◌<◌, ◌≡◌, refl, true, false, some, List, [], ◌∷◌, find_by, count_where,
  count_where-append, find_by-none→count, find_by-append_none, Option-cases, inl, inr, arith, All,
  find_by-holds, find_by-counted,
}
use chmabapay.Model.{Instant, PlanInvoice, PlanSubscription, Plan, Db, Settings}
use chmabapay.Billing.Clock.{credit_period}
use chmabapay.Billing.Issue.{
  is_window, find_invoice_for_window, issue_invoice, issue_each, due_rows, issue_due_invoices,
  Sweep, new_invoice, tally,
}

-- The partial unique index: no two invoices that are not void claim one window.
abbrev pub HasOneLiveInvoice : Db → Type 0
HasOneLiveInvoice db =
    (subscription_id : ℕ) (period_start : Instant)
    → count_where (is_window subscription_id period_start) db.invoices ≤ 1

-- Everything but the table of invoices is as it was.
abbrev pub Keeps : Db → Db → Type 0
Keeps db db' = record db' { invoices = db.invoices; next_invoice = db.next_invoice } ≡ db

module _ (db : Db) (s : PlanSubscription) (plan : Plan) (start end due_at now : Instant) where
  -- Where raising an invoice for a window created it, raising one again for that window, at any
  -- later instant, returns that invoice as not created and leaves the database as it is.
  issue_invoice-again :
      {db' : Db} {invoice : PlanInvoice} (later : Instant)
      → issue_invoice db s plan start end due_at now ≡ (db', some invoice, true)
      → issue_invoice db' s plan start end due_at later ≡ (db', some invoice, false)
  unfolding issue_invoice find_invoice_for_window
  issue_invoice-again later h = elim (Option-cases (find_by (is_window s.id start) db.invoices)) [
    | inl fresh ↦ ground (
      arith,
      find_by-append_none (is_window s.id start) db.invoices
          (new_invoice db s plan start end due_at now ∷ []) fresh,
    )
    | inr (i, e) ↦ ground arith
  ]

  issue_invoice-HasOneLiveInvoice :
      HasOneLiveInvoice db → HasOneLiveInvoice (issue_invoice db s plan start end due_at now).0
  unfolding issue_invoice find_invoice_for_window
  issue_invoice-HasOneLiveInvoice one id window = ground (
    arith,
    one id window,
    find_by-none→count (is_window s.id start) db.invoices,
    count_where-append (is_window id window) db.invoices
        (new_invoice db s plan start end due_at now ∷ []),
  )

  -- Nothing but the invoices changes, and their rows stay.
  issue_invoice-Keeps : Keeps db (issue_invoice db s plan start end due_at now).0
  unfolding issue_invoice
  issue_invoice-Keeps = ground arith

  issue_invoice-claims :
      0 < plan.monthly_fee_cents
      → 1
        ≤ count_where
            (is_window s.id start)
            (issue_invoice db s plan start end due_at now).0.invoices
  unfolding issue_invoice find_invoice_for_window
  issue_invoice-claims paid = elim (Option-cases (find_by (is_window s.id start) db.invoices)) [
    | inl fresh ↦ ground (
      arith,
      count_where-append (is_window s.id start) db.invoices
          (new_invoice db s plan start end due_at now ∷ []),
    )
    | inr (i, e) ↦ ground (
      arith,
      find_by-holds (is_window s.id start) db.invoices i e,
      find_by-counted (is_window s.id start) (is_window s.id start) db.invoices i e,
    )
  ]

  issue_invoice-grows :
      (id : ℕ) (window : Instant)
      → count_where (is_window id window) db.invoices
        ≤ count_where
            (is_window id window)
            (issue_invoice db s plan start end due_at now).0.invoices
  unfolding issue_invoice
  issue_invoice-grows id window = ground (
    arith,
    count_where-append (is_window id window) db.invoices
        (new_invoice db s plan start end due_at now ∷ []),
  )

Keeps-trans : (a b c : Db) → Keeps a b → Keeps b c → Keeps a c
Keeps-trans a b c h k = ground arith

issue_each-Keeps :
    (due : List (PlanSubscription × Plan)) (now : Instant) (db : Db) (t : Sweep)
    → Keeps db (issue_each due now db t).0
unfolding issue_each
issue_each-Keeps [] now db t = refl
issue_each-Keeps ((s, plan) ∷ due) now db t =
    let end = s.next_billing_at + credit_period in
    let (db', invoice, created) =
      issue_invoice db s plan s.next_billing_at end s.next_billing_at now in
    Keeps-trans db db' (issue_each due now db' (tally (invoice, created) plan t)).0
      (issue_invoice-Keeps db s plan s.next_billing_at end s.next_billing_at now)
      (issue_each-Keeps due now db' (tally (invoice, created) plan t))

issue_each-HasOneLiveInvoice :
    (due : List (PlanSubscription × Plan)) (now : Instant) (db : Db) (t : Sweep)
    → HasOneLiveInvoice db
    → HasOneLiveInvoice (issue_each due now db t).0
unfolding issue_each
issue_each-HasOneLiveInvoice [] now db t one = one
issue_each-HasOneLiveInvoice ((s, plan) ∷ due) now db t one =
    let end = s.next_billing_at + credit_period in
    let (db', invoice, created) =
      issue_invoice db s plan s.next_billing_at end s.next_billing_at now in
    issue_each-HasOneLiveInvoice due now db' (tally (invoice, created) plan t)
      (issue_invoice-HasOneLiveInvoice db s plan s.next_billing_at end s.next_billing_at now one)

issue_each-grows :
    (due : List (PlanSubscription × Plan)) (now : Instant) (db : Db) (t : Sweep) (id : ℕ)
    (window : Instant)
    → count_where (is_window id window) db.invoices
      ≤ count_where (is_window id window) (issue_each due now db t).0.invoices
unfolding issue_each
issue_each-grows [] now db t id window = omega arith
issue_each-grows ((s, plan) ∷ due) now db t id window =
    let end = s.next_billing_at + credit_period in
    let (db', invoice, created) =
      issue_invoice db s plan s.next_billing_at end s.next_billing_at now in
    omega (
      arith,
      issue_invoice-grows db s plan s.next_billing_at end s.next_billing_at now id window,
      issue_each-grows due now db' (tally (invoice, created) plan t) id window,
    )

-- The window of a paid plan's subscription is claimed by a live invoice.
abbrev pub IsClaimed : Db → PlanSubscription × Plan → Type 0
IsClaimed db (s, plan) =
    0 < plan.monthly_fee_cents → 1 ≤ count_where (is_window s.id s.next_billing_at) db.invoices

issue_each-claims :
    (due : List (PlanSubscription × Plan)) (now : Instant) (db : Db) (t : Sweep)
    → All (IsClaimed (issue_each due now db t).0) due
unfolding issue_each
issue_each-claims [] now db t = tt
issue_each-claims ((s, plan) ∷ due) now db t =
    let end = s.next_billing_at + credit_period in
    let (db', invoice, created) =
      issue_invoice db s plan s.next_billing_at end s.next_billing_at now in
    let t' = tally (invoice, created) plan t in
    (
      λ paid. omega (
        arith,
        issue_invoice-claims db s plan s.next_billing_at end s.next_billing_at now paid,
        issue_each-grows due now db' t' s.id s.next_billing_at,
      ),
      issue_each-claims due now db' t',
    )

-- A sweep of renewals changes nothing but the invoices, so that no period end moves; it keeps at
-- most one invoice that is not void for each subscription and window; and afterwards the window
-- of each subscription of a paid plan that it took is claimed by such an invoice.
pub issue_due_invoices-sweep :
    (db : Db) (settings : Settings) (now : Instant) (limit : ℕ)
    → HasOneLiveInvoice db
    → let db' = (issue_due_invoices db settings now limit).0 in
      Keeps db db' × HasOneLiveInvoice db' × All (IsClaimed db') (due_rows db settings now limit)
unfolding issue_due_invoices
issue_due_invoices-sweep db settings now limit one =
    let due = due_rows db settings now limit in
    let t : Sweep = record { invoices = 0; nothing_to_bill = 0; raised = [] } in
    (
      issue_each-Keeps due now db t,
      issue_each-HasOneLiveInvoice due now db t one,
      issue_each-claims due now db t,
    )
