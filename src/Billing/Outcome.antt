-- ===== src/Billing/Outcome.antt =====
-- What a settlement does to the invoice, to the subscription and to the account.
use chmabapay.Base.{
  ℕ, ◌≡◌, refl, ap, ◌∙◌, false, Option, none, some, Text, find_by, find_by-holds, find_by-update,
  find_by-update_ne, update_where, ◌==◌, if◌then◌else◌, Bool-cases, inl, inr, arith,
}
use chmabapay.Model.{Instant, Account, PlanInvoice, PlanSubscription, Plan, Db, Settings}
use chmabapay.Stores.Swap.{apply_store_cap-unheld}
use chmabapay.Billing.Terms.{is_pending, is_paid}
use chmabapay.Billing.Coverage.{
  get_account, is_restricted, lift_billing_hold, bill_next, put_in_force, is_replaced, cancel,
  activate_subscription, extend_to,
}
use chmabapay.Billing.Receipt.{IsReceipt, IsCovered}
use chmabapay.Billing.Settle.{
  update_invoice, pay, is_lapsed, settle_on_time, settle_subscription, cap_to_plan, welcome_back,
  subscription_of, settle_invoice,
}

-- Everything but the accounts and the stores is as it was.
abbrev with_accounts_of : Db → Db → Db
with_accounts_of db db' = record db' { accounts = db.accounts; stores = db.stores }

abbrev OnlyWelcomes : Db → Db → Type 0
OnlyWelcomes db db' = with_accounts_of db db' ≡ db

cap_to_plan-OnlyWelcomes :
    (db : Db) (account : ℕ) (plan : Option Plan) (now : Instant)
    → OnlyWelcomes db (cap_to_plan db account plan now)
unfolding cap_to_plan
cap_to_plan-OnlyWelcomes db account none now = refl
cap_to_plan-OnlyWelcomes db account (some plan) now =
    ap (with_accounts_of db) (apply_store_cap-unheld db account plan.max_stores now).1

lift-OnlyWelcomes :
    (db : Db) (account : Option Account) (now : Instant)
    → OnlyWelcomes db (lift_billing_hold db account now).0
unfolding lift_billing_hold
lift-OnlyWelcomes db none now = refl
lift-OnlyWelcomes db (some account) now = elim (Bool-cases (is_restricted account.status)) [
  | inl e ↦ rw (e, lift_billing_hold)
  | inr e ↦ rw (e, lift_billing_hold)
]

welcome_back-OnlyWelcomes :
    (db : Db) (account : Option Account) (plan : ℕ) (now : Instant)
    → OnlyWelcomes db (welcome_back db account plan now)
unfolding welcome_back
welcome_back-OnlyWelcomes db none plan now = refl
welcome_back-OnlyWelcomes db (some account) plan now =
    let lifted = (lift_billing_hold db (some account) now).0 in
    ap (with_accounts_of db)
      (cap_to_plan-OnlyWelcomes lifted account.id (find_by (λ p. p.id == plan) db.plans) now)
    ∙ lift-OnlyWelcomes db (some account) now

-- A row of the invoices after the payment of another.
find-settled :
    (invoice : PlanInvoice) (f : PlanInvoice → PlanInvoice) (db : Db)
    → ((i : PlanInvoice) → (f i).id ≡ i.id)
    → find_by (λ i. i.id == invoice.id) db.invoices ≡ some invoice
    → find_by (λ i. i.id == invoice.id) (update_invoice invoice.id f db).invoices ≡ some (f invoice)
find-settled invoice f db keep found =
    find_by-update (λ i. i.id == invoice.id) (λ i. i.id == invoice.id) f db.invoices invoice
      (λ i. ground (arith, keep i)) found (ground arith)

-- The subscription that a timely settlement extends.
abbrev pub extended : PlanSubscription → Instant → Instant → PlanSubscription
extended s end now = bill_next end now (if is_pending s.status then put_in_force now s else s)

extend-find :
    (db : Db) (k : ℕ) (s : PlanSubscription) (end now : Instant)
    → find_by (λ t. t.id == k) db.subscriptions ≡ some s
    → find_by (λ t. t.id == k) (extend_to db (some end) (some k) now).subscriptions
      ≡ some (bill_next end now s)
unfolding extend_to
extend-find db k s end now found =
    find_by-update (λ t. t.id == k) (λ t. t.id == k) (bill_next end now) db.subscriptions s
      (λ t. refl) found (find_by-holds (λ t. t.id == k) db.subscriptions s found)

extend-invoices :
    (db : Db) (end : Option Instant) (id : Option ℕ) (now : Instant)
    → (extend_to db end id now).invoices ≡ db.invoices
unfolding extend_to
extend-invoices db none id now = refl
extend-invoices db (some end) none now = refl
extend-invoices db (some end) (some id) now = refl

activate-invoices :
    (db : Db) (id : ℕ) (now : Instant) → (activate_subscription db id now).0.invoices ≡ db.invoices
unfolding activate_subscription
activate-invoices db id now = ground arith

activate-find :
    (db : Db) (s : PlanSubscription) (now : Instant)
    → find_by (λ t. t.id == s.id) db.subscriptions ≡ some s
    → find_by (λ t. t.id == s.id) (activate_subscription db s.id now).0.subscriptions
      ≡ some (if is_pending s.status then put_in_force now s else s)
unfolding activate_subscription
activate-find db s now found = elim (Bool-cases (is_pending s.status)) [
  | inr n ↦ rw (found, activate_subscription, n) found
  | inl p ↦
      rw (found, activate_subscription, p)
        (find_by-update (λ t. t.id == s.id) (λ t. t.id == s.id) (put_in_force now)
          (update_where (is_replaced s) (cancel now) db.subscriptions) s (λ t. refl)
          (find_by-update_ne (λ t. t.id == s.id) (is_replaced s) (cancel now) db.subscriptions
              (λ t. refl) (λ t h. ground arith)
            ∙ found)
          (ground arith))
]

pub settle_on_time-invoices :
    (db : Db) (invoice : PlanInvoice) (s : PlanSubscription) (paid_at now : Instant)
    → (settle_on_time db invoice s paid_at now).invoices
      ≡ (update_invoice invoice.id (pay paid_at now) db).invoices
unfolding settle_on_time
settle_on_time-invoices db invoice s paid_at now =
    let paid = update_invoice invoice.id (pay paid_at now) db in
    extend-invoices (activate_subscription paid s.id now).0 invoice.period_end
      invoice.subscription_id now
    ∙ activate-invoices paid s.id now

-- What a settlement within the grace period writes.
settle_on_time-find :
    (db : Db) (invoice : PlanInvoice) (s : PlanSubscription) (end paid_at now : Instant)
    → find_by (λ i. i.id == invoice.id) db.invoices ≡ some invoice
    → find_by (λ t. t.id == s.id) db.subscriptions ≡ some s
    → invoice.subscription_id ≡ some s.id
    → invoice.period_end ≡ some end
    → let db' = settle_on_time db invoice s paid_at now in
      (find_by (λ i. i.id == invoice.id) db'.invoices ≡ some (pay paid_at now invoice))
      × (find_by (λ t. t.id == s.id) db'.subscriptions ≡ some (extended s end now))
unfolding settle_on_time
settle_on_time-find db invoice s end paid_at now here found owner ends =
    let paid = update_invoice invoice.id (pay paid_at now) db in
    let active = (activate_subscription paid s.id now).0 in
    let same : settle_on_time db invoice s paid_at now
        ≡ extend_to active (some end) (some s.id) now =
      λ i. extend_to active (ends i) (owner i) now in
    (
      ap (find_by (λ i. i.id == invoice.id)) (settle_on_time-invoices db invoice s paid_at now)
          ∙ find-settled invoice (pay paid_at now) db (λ i. refl) here,
      ap (λ d. find_by (λ t. t.id == s.id) d.subscriptions) same
          ∙ extend-find active s.id (if is_pending s.status then put_in_force now s else s) end now
              (activate-find paid s now found),
    )

settle_invoice-found :
    (db : Db) (settings : Settings) (invoice : PlanInvoice) (s : PlanSubscription)
    (payment : Option ℕ) (paid_at : Instant) (source : Text) (now : Instant)
    → is_paid invoice.status ≡ false
    → subscription_of db invoice.subscription_id ≡ some s
    → let db' = settle_subscription db settings invoice s payment paid_at source now in
      settle_invoice db settings invoice payment paid_at source now
      ≡ (welcome_back db' (get_account db invoice.account_id) s.plan_id now, some invoice.id)
unfolding settle_invoice
settle_invoice-found db settings invoice s payment paid_at source now unpaid found =
    rw (unpaid, settle_invoice, found)

-- Behind the settlement of the subscription only the accounts and the stores change.
pub settle_invoice-tables :
    (db : Db) (settings : Settings) (invoice : PlanInvoice) (s : PlanSubscription)
    (payment : Option ℕ) (paid_at : Instant) (source : Text) (now : Instant)
    → is_paid invoice.status ≡ false
    → subscription_of db invoice.subscription_id ≡ some s
    → let db' = settle_subscription db settings invoice s payment paid_at source now in
      let done = (settle_invoice db settings invoice payment paid_at source now).0 in
      (done.invoices ≡ db'.invoices) × (done.subscriptions ≡ db'.subscriptions)
settle_invoice-tables db settings invoice s payment paid_at source now unpaid found =
    let db' = settle_subscription db settings invoice s payment paid_at source now in
    let same = settle_invoice-found db settings invoice s payment paid_at source now unpaid found in
    let kept = welcome_back-OnlyWelcomes db' (get_account db invoice.account_id) s.plan_id now in
    (
      ap (λ r. r.0.invoices) same ∙ ap (λ d. d.invoices) kept,
      ap (λ r. r.0.subscriptions) same ∙ ap (λ d. d.subscriptions) kept,
    )

pub settle_subscription-on_time :
    (db : Db) (settings : Settings) (invoice : PlanInvoice) (s : PlanSubscription)
    (payment : Option ℕ) (paid_at : Instant) (source : Text) (now : Instant)
    → is_lapsed settings invoice.due_at paid_at ≡ false
    → settle_subscription db settings invoice s payment paid_at source now
      ≡ settle_on_time db invoice s paid_at now
unfolding settle_subscription
settle_subscription-on_time db settings invoice s payment paid_at source now timely =
    rw (timely, settle_subscription)

-- The rows that a timely settlement writes.
pub settle_invoice-settle_on_time :
    (db : Db) (settings : Settings) (invoice : PlanInvoice) (s : PlanSubscription)
    (payment : Option ℕ) (end paid_at : Instant) (source : Text) (now : Instant)
    → is_paid invoice.status ≡ false
    → is_lapsed settings invoice.due_at paid_at ≡ false
    → find_by (λ i. i.id == invoice.id) db.invoices ≡ some invoice
    → find_by (λ t. t.id == s.id) db.subscriptions ≡ some s
    → invoice.subscription_id ≡ some s.id
    → invoice.period_end ≡ some end
    → let db' = (settle_invoice db settings invoice payment paid_at source now).0 in
      (find_by (λ i. i.id == invoice.id) db'.invoices ≡ some (pay paid_at now invoice))
      × (find_by (λ t. t.id == s.id) db'.subscriptions ≡ some (extended s end now))
settle_invoice-settle_on_time db settings invoice s payment end paid_at source now unpaid timely
      here found owner ends =
    let owned = ap (subscription_of db) owner ∙ found in
    let (invoices, subscriptions) =
      settle_invoice-tables db settings invoice s payment paid_at source now unpaid owned in
    let same =
      settle_subscription-on_time db settings invoice s payment paid_at source now timely in
    let (paid, covered) = settle_on_time-find db invoice s end paid_at now here found owner ends in
    (
      ap (find_by (λ i. i.id == invoice.id)) (invoices ∙ ap (λ d. d.invoices) same) ∙ paid,
      ap (find_by (λ t. t.id == s.id)) (subscriptions ∙ ap (λ d. d.subscriptions) same) ∙ covered,
    )

extended-IsCovered :
    (s : PlanSubscription) (end now : Instant) → IsCovered end s (extended s end now)
extended-IsCovered s end now = (refl, ground arith, ground arith, ground arith, ground arith)

-- Settling an unpaid invoice by a payment within the grace period makes it paid at the instant
-- of the payment, with its window, its amount and its owner as they were, and its subscription
-- is billed next at the end of that window: active if it was pending, and with the status it had
-- otherwise, on the same plan.
pub settle_invoice-on_time :
    (db : Db) (settings : Settings) (invoice : PlanInvoice) (s : PlanSubscription)
    (payment : Option ℕ) (end paid_at : Instant) (source : Text) (now : Instant)
    → is_paid invoice.status ≡ false
    → is_lapsed settings invoice.due_at paid_at ≡ false
    → find_by (λ i. i.id == invoice.id) db.invoices ≡ some invoice
    → find_by (λ t. t.id == s.id) db.subscriptions ≡ some s
    → invoice.subscription_id ≡ some s.id
    → invoice.period_end ≡ some end
    → let db' = (settle_invoice db settings invoice payment paid_at source now).0 in
      ((paid : PlanInvoice) × (find_by (λ i. i.id == invoice.id) db'.invoices ≡ some paid)
        × IsReceipt paid_at invoice paid)
      × (covered : PlanSubscription) × (find_by (λ t. t.id == s.id) db'.subscriptions
          ≡ some covered)
      × IsCovered end s covered
settle_invoice-on_time db settings invoice s payment end paid_at source now unpaid timely here found
      owner ends =
    let (paid, covered) =
      settle_invoice-settle_on_time db settings invoice s payment end paid_at source now unpaid
        timely here found owner ends in
    (
      (pay paid_at now invoice, paid, (refl, refl, refl, refl, refl, refl, refl, refl)),
      extended s end now,
      covered,
      extended-IsCovered s end now,
    )
