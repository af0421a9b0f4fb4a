-- ===== src/Billing/Freeze.antt =====
-- Whom the freeze reaches.
use mathlib.Core.Path.{subst}
use chmabapay.Base.{
  length, All-map, All-select, All-take, All-sort, sym, ℕ, ◌≡◌, refl, ap, ◌∙◌, Bool, true, false,
  not, ◌&&◌, Option, none, some, List, [], ◌∷◌, take, select, sort_by, find_by, find_by-holds,
  find_by-update_ne, All, ◌==◌, if◌then◌else◌, Option-cases, Bool-cases, inl, inr, arith,
}
use chmabapay.Model.{Instant, Account, PlanInvoice, PlanSubscription, Db, Settings}
use chmabapay.Billing.Coverage.{get_account}
use chmabapay.Billing.Grace.{
  Row, joined, join_row, subscription_row, is_active, is_overdue, due_key, has_clock,
  unpaid_invoice_query, freeze_candidates, restrict, freeze_each, expire_each, is_abandoned,
  expire_abandoned_purchases, enforce_grace,
}

-- An account that the freeze must not reach: suspended or restricted, or the platform's own.
abbrev pub IsExempt : Account → Type 0
IsExempt a = (is_active a.status && not a.is_platform_admin) ≡ false

-- A row of the query: its account is the one of the table, is active, and is not the platform's.
abbrev pub IsFreezable : Db → Row → Type 0
IsFreezable db (i, s, a) =
    (get_account db a.id ≡ some a) × ((is_active a.status && not a.is_platform_admin) ≡ true)

abbrev HasAccount : Db → Row → Type 0
HasAccount db (i, s, a) = get_account db a.id ≡ some a

join_row-HasAccount :
    (db : Db) (i : PlanInvoice) (o : Option PlanSubscription) (rest : List Row)
    → All (HasAccount db) rest
    → All
        (HasAccount db)
        (elim (join_row i o (get_account db i.account_id)) [ none ↦ rest | some row ↦ row ∷ rest ])
join_row-HasAccount db i none rest h = h
join_row-HasAccount db i (some s) rest h = elim (Option-cases (get_account db i.account_id)) [
  | inl e ↦ rw (e, join_row) h
  | inr (a, e) ↦
      let same : a.id ≡ i.account_id =
        ground (arith, find_by-holds (λ b. b.id == i.account_id) db.accounts a e) in
      rw (e, join_row) (subst (λ k. get_account db k ≡ some a) (sym same) e, h)
]

joined-HasAccount :
    (db : Db) (invoices : List PlanInvoice) → All (HasAccount db) (joined db invoices)
unfolding joined
joined-HasAccount db [] = tt
joined-HasAccount db (i ∷ invoices) =
    join_row-HasAccount db i (subscription_row db i.subscription_id) (joined db invoices)
      (joined-HasAccount db invoices)

pub freeze_candidates-IsFreezable :
    (db : Db) (settings : Settings) (now : Instant) (limit : ℕ)
    → All (IsFreezable db) (freeze_candidates db settings now limit)
unfolding freeze_candidates unpaid_invoice_query
freeze_candidates-IsFreezable db settings now limit =
    let rows = joined db db.invoices in
    let guarded = λ (r : Row). HasAccount db r × (has_clock true r ≡ true) in
    let sorted = sort_by (λ r. due_key r.0.due_at) (select (has_clock true) rows) in
    All-map (λ r. guarded r × (is_overdue settings now r.0.due_at ≡ true)) (IsFreezable db)
      (select (λ r. is_overdue settings now r.0.due_at) (take limit sorted))
      (λ r h. (h.0.0, ground (arith, h.0.1)))
      (All-select guarded (λ r. is_overdue settings now r.0.due_at) (take limit sorted)
        (All-take guarded limit sorted (
          All-sort guarded (λ r. due_key r.0.due_at) (select (has_clock true) rows)
            (All-select (HasAccount db) (has_clock true) rows (joined-HasAccount db db.invoices)))))

one_account : {a b : Account} {o : Option Account} → o ≡ some a → o ≡ some b → a ≡ b
one_account h k = ground arith

-- No row of the freeze is about an exempt account.
apart-exempt :
    (db : Db) (r : Row) (k : ℕ) (a : Account)
    → IsFreezable db r
    → get_account db k ≡ some a
    → IsExempt a
    → (k == r.2.id) ≡ false
apart-exempt db (i, s, b) k a (there, reached) here exempt = elim (Bool-cases (k == b.id)) [
  | inl same ↦
      let same_id : b.id ≡ k = ground arith in
      let row : a ≡ b = one_account here (subst (λ n. get_account db n ≡ some b) same_id there) in
      absurd (
        is_both exempt
          (subst (λ c. (is_active c.status && not c.is_platform_admin) ≡ true) (sym row) reached))
  | inr other ↦ other
]
  where
    is_both : {x : Bool} → x ≡ false → x ≡ true → ⊥
    is_both h e = ground arith

freeze_each-exempt :
    (due : List Row) (now : Instant) (db db' : Db) (k : ℕ) (a : Account)
    → All (IsFreezable db) due
    → get_account db k ≡ some a
    → IsExempt a
    → get_account db' k ≡ some a
    → get_account (freeze_each due now db') k ≡ some a
unfolding freeze_each
freeze_each-exempt [] now db db' k a ok here exempt h = h
freeze_each-exempt ((i, s, b) ∷ due) now db db' k a ok here exempt h =
    freeze_each-exempt due now db _ k a ok.1 here exempt (
      find_by-update_ne (λ c. c.id == k) (λ c. c.id == b.id) (restrict now) db'.accounts (λ c. refl)
        (λ c e. ground (arith, apart-exempt db (i, s, b) k a ok.0 here exempt))
      ∙ h)

expire_each-accounts :
    (parked : List PlanSubscription) (now : Instant) (db : Db)
    → (expire_each parked now db).accounts ≡ db.accounts
unfolding expire_each
expire_each-accounts [] now db = refl
expire_each-accounts (s ∷ parked) now db = expire_each-accounts parked now _

pub expire_abandoned_purchases-accounts :
    (db : Db) (now : Instant) (limit : ℕ)
    → (expire_abandoned_purchases db now limit).0.accounts ≡ db.accounts
unfolding expire_abandoned_purchases
expire_abandoned_purchases-accounts db now limit =
    expire_each-accounts (take limit (select (is_abandoned now) db.subscriptions)) now db

-- An enforcement sweep leaves the row of an account as it is where the account is suspended,
-- already restricted, or the account of the platform.
enforce_grace-exempt :
    (db : Db) (settings : Settings) (now : Instant) (limit k : ℕ) (a : Account)
    → get_account db k ≡ some a
    → IsExempt a
    → get_account (enforce_grace db settings now limit).0 k ≡ some a
unfolding enforce_grace
enforce_grace-exempt db settings now limit k a here exempt =
    let due = freeze_candidates db settings now limit in
    ap (find_by (λ c. c.id == k)) (
      expire_abandoned_purchases-accounts
        (if settings.billing_enforce_enabled then freeze_each due now db else db) now 500)
    ∙ either settings.billing_enforce_enabled (λ d. get_account d k ≡ some a)
        (freeze_each-exempt due now db db k a (freeze_candidates-IsFreezable db settings now limit)
          here exempt here)
        here
  where
    either : {x y : Db} (on : Bool) (P : Db → Type 0) → P x → P y → P (if on then x else y)
    either true P hx hy = hx
    either false P hx hy = hy

-- With enforcement switched off a sweep leaves every account as it is, reports no account as
-- frozen, and still reports how many are due.
enforce_grace-off :
    (db : Db) (settings : Settings) (now : Instant) (limit : ℕ)
    → settings.billing_enforce_enabled ≡ false
    → let (db', report) = enforce_grace db settings now limit in
      (db'.accounts ≡ db.accounts)
      × (report.frozen ≡ 0)
      × (report.due ≡ length (freeze_candidates db settings now limit))
unfolding enforce_grace
enforce_grace-off db settings now limit off =
    rw (off, enforce_grace) (expire_abandoned_purchases-accounts db now 500, refl, refl)
