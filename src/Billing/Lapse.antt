-- ===== src/Billing/Lapse.antt =====
-- The settlement of a lapsed invoice, and of a payment that is confirmed twice.
use chmabapay.Base.{
  ℕ, ◌≤◌, ◌≡◌, refl, ap, ◌∙◌, Bool, true, false, not, ◌&&◌, Option, none, some, [], ◌∷◌, ◌++◌, Text,
  find_by, find_by-holds, find_by-counted, update_where-append, count_where-split, find_by-update,
  find_by-update_ne, find_by-append_none, find_by-append_some, count_where-zero→find_by,
  count_where, count_where-update, count_where_mono, count_where-ext, update_where, leb, is_some_eq,
  ◌==◌, if◌then◌else◌, arith,
}
use chmabapay.Model.{Instant, PlanInvoice, PlanSubscription, Db, Settings}
use chmabapay.Billing.Terms.{is_paid}
use chmabapay.Billing.Live.{HasOneLive, retire_live_subscriptions-HasOneLive}
use chmabapay.Billing.Coverage.{retire_live_subscriptions, is_live}
use chmabapay.Billing.Settle.{
  lapse, granted, reinstated, reinstate, is_lapsed, settle_subscription, subscription_of,
  settle_invoice,
}
use chmabapay.Billing.Receipt.{IsWrittenOff, IsFreshStart, IsFreshWindow}
use chmabapay.Billing.Outcome.{settle_invoice-tables}

-- Every invoice has a key below the next one.
abbrev pub HasFreshInvoices : Db → Type 0
HasFreshInvoices db = count_where (λ i. leb db.next_invoice i.id) db.invoices ≡ 0

pub settle_subscription-lapsed :
    (db : Db) (settings : Settings) (invoice : PlanInvoice) (s : PlanSubscription)
    (payment : Option ℕ) (paid_at : Instant) (source : Text) (now : Instant)
    → is_lapsed settings invoice.due_at paid_at ≡ true
    → settle_subscription db settings invoice s payment paid_at source now
      ≡ (reinstate db invoice s payment paid_at source now).0
unfolding settle_subscription
settle_subscription-lapsed db settings invoice s payment paid_at source now late =
    rw (late, settle_subscription)

-- The tables after a reinstatement.
reinstate-find :
    (db : Db) (invoice : PlanInvoice) (s : PlanSubscription) (payment : Option ℕ)
    (paid_at : Instant) (source : Text) (now : Instant)
    → HasFreshInvoices db
    → HasOneLive db
    → find_by (λ i. i.id == invoice.id) db.invoices ≡ some invoice
    → let db' = (reinstate db invoice s payment paid_at source now).0 in
      (find_by (λ i. i.id == invoice.id) db'.invoices ≡ some (lapse payment now invoice))
      × (find_by (λ i. i.id == db.next_invoice) db'.invoices
          ≡ some (granted db invoice payment paid_at now))
      × (find_by (is_live invoice.account_id) db'.subscriptions
          ≡ some (reinstated db invoice s paid_at now))
unfolding reinstate
reinstate-find db invoice s payment paid_at source now fresh valid here =
    let grant = granted db invoice payment paid_at now in
    let retired = retire_live_subscriptions-HasOneLive db invoice.account_id now valid in
    let this = λ (i : PlanInvoice). i.id == invoice.id in
    let next = λ (i : PlanInvoice). i.id == db.next_invoice in
    let absent : find_by next db.invoices ≡ none = count_where-zero→find_by next db.invoices (
      omega (
        arith,
        fresh,
        count_where_mono next (λ i. leb db.next_invoice i.id) db.invoices (λ i h. ground arith),
      )) in
    (
      find_by-update this this (lapse payment now) (db.invoices ++ grant ∷ []) invoice (λ i. refl)
          (find_by-append_some this db.invoices (grant ∷ []) invoice here) (ground arith),
      find_by-update_ne next this (lapse payment now) (db.invoices ++ grant ∷ []) (λ i. refl)
            (λ i h. ground (
              arith,
              fresh,
              find_by-counted this (λ i. leb db.next_invoice i.id) db.invoices invoice here,
            ))
          ∙ find_by-append_none next db.invoices (grant ∷ []) absent
          ∙ ground arith,
      find_by-append_none (is_live invoice.account_id)
            (retire_live_subscriptions db invoice.account_id now).subscriptions
            (reinstated db invoice s paid_at now ∷ [])
            (count_where-zero→find_by (is_live invoice.account_id)
              (retire_live_subscriptions db invoice.account_id now).subscriptions retired.1)
          ∙ ground arith,
    )

-- The rows that a late settlement writes.
settle_invoice-reinstate :
    (db : Db) (settings : Settings) (invoice : PlanInvoice) (s : PlanSubscription)
    (payment : Option ℕ) (paid_at : Instant) (source : Text) (now : Instant)
    → HasFreshInvoices db
    → HasOneLive db
    → is_paid invoice.status ≡ false
    → is_lapsed settings invoice.due_at paid_at ≡ true
    → find_by (λ i. i.id == invoice.id) db.invoices ≡ some invoice
    → subscription_of db invoice.subscription_id ≡ some s
    → let db' = (settle_invoice db settings invoice payment paid_at source now).0 in
      (find_by (λ i. i.id == invoice.id) db'.invoices ≡ some (lapse payment now invoice))
      × (find_by (λ i. i.id == db.next_invoice) db'.invoices
          ≡ some (granted db invoice payment paid_at now))
      × (find_by (is_live invoice.account_id) db'.subscriptions
          ≡ some (reinstated db invoice s paid_at now))
settle_invoice-reinstate db settings invoice s payment paid_at source now fresh valid unpaid late
      here found =
    let (invoices, subscriptions) =
      settle_invoice-tables db settings invoice s payment paid_at source now unpaid found in
    let same = settle_subscription-lapsed db settings invoice s payment paid_at source now late in
    let (old, new, live) =
      reinstate-find db invoice s payment paid_at source now fresh valid here in
    let moved = invoices ∙ ap (λ d. d.invoices) same in
    (
      ap (find_by (λ i. i.id == invoice.id)) moved ∙ old,
      ap (find_by (λ i. i.id == db.next_invoice)) moved ∙ new,
      ap (find_by (is_live invoice.account_id)) (subscriptions ∙ ap (λ d. d.subscriptions) same)
          ∙ live,
    )

-- Settling an unpaid invoice by a payment that came after its due date and the grace period
-- never marks it paid: the invoice becomes void, as grace_expired, and keeps having no instant
-- of payment; the subscription in force for the account is then an active one of the same plan
-- that started at the payment and is billed again thirty days later; and a new invoice of the
-- same amount, paid by that payment, covers these thirty days of it. It assumes that at most one
-- subscription of an account is in force before, that keys are unique, and that invoice keys are
-- below the next one.
pub settle_invoice-lapsed :
    (db : Db) (settings : Settings) (invoice : PlanInvoice) (s : PlanSubscription)
    (payment : Option ℕ) (paid_at : Instant) (source : Text) (now : Instant)
    → HasFreshInvoices db
    → HasOneLive db
    → is_paid invoice.status ≡ false
    → is_lapsed settings invoice.due_at paid_at ≡ true
    → find_by (λ i. i.id == invoice.id) db.invoices ≡ some invoice
    → subscription_of db invoice.subscription_id ≡ some s
    → let db' = (settle_invoice db settings invoice payment paid_at source now).0 in
      ((old : PlanInvoice) × (find_by (λ i. i.id == invoice.id) db'.invoices ≡ some old)
        × IsWrittenOff now invoice old)
      × (live : PlanSubscription) × (find_by (is_live invoice.account_id) db'.subscriptions
          ≡ some live)
      × IsFreshStart paid_at invoice s live
      × (new : PlanInvoice) × (find_by (λ i. i.id == db.next_invoice) db'.invoices ≡ some new)
      × IsFreshWindow payment paid_at invoice live new
settle_invoice-lapsed db settings invoice s payment paid_at source now fresh valid unpaid late here
      found =
    let (old, new, live) =
      settle_invoice-reinstate db settings invoice s payment paid_at source now fresh valid unpaid
        late here found in
    (
      (lapse payment now invoice, old, (refl, refl, refl, refl, refl, refl, refl)),
      reinstated db invoice s paid_at now,
      live,
      (refl, refl, refl, refl, refl, refl),
      granted db invoice payment paid_at now,
      new,
      (refl, refl, refl, refl, refl, refl, refl, refl),
    )

-- The invoice that a payment points at.
abbrev pub is_for : ℕ → PlanInvoice → Bool
is_for payment i = is_some_eq i.chmabapay_payment_id payment

-- The payment's only reference moves from the lapsed invoice to the granted one.
pub reinstate-reference :
    (db : Db) (invoice : PlanInvoice) (s : PlanSubscription) (payment : ℕ) (paid_at : Instant)
    (source : Text) (now : Instant)
    → HasFreshInvoices db
    → count_where (is_for payment) db.invoices ≤ 1
    → find_by (is_for payment) db.invoices ≡ some invoice
    → find_by (is_for payment) (reinstate db invoice s (some payment) paid_at source now).0.invoices
      ≡ some (granted db invoice (some payment) paid_at now)
unfolding reinstate
reinstate-reference db invoice s payment paid_at source now fresh one found =
    let grant = granted db invoice (some payment) paid_at now in
    let this = λ (i : PlanInvoice). i.id == invoice.id in
    let for = is_for payment in
    let gone = lapse (some payment) now in
    let none_left : find_by for (update_where this gone db.invoices) ≡ none =
      count_where-zero→find_by for (update_where this gone db.invoices) (
        omega (
          arith,
          one,
          count_where-update for this gone db.invoices,
          count_where-ext (λ i. if this i then for (gone i) else for i) (λ i. for i && not (this i))
              db.invoices (λ i. ground arith),
          count_where-split for this db.invoices,
          find_by-counted for (λ i. for i && this i) db.invoices invoice found
              (ground (arith, find_by-holds for db.invoices invoice found)),
        )) in
    ap (find_by for) (update_where-append this gone db.invoices (grant ∷ []))
    ∙ find_by-append_none for (update_where this gone db.invoices)
        (update_where this gone (grant ∷ [])) none_left
    ∙ ground (
      arith,
      fresh,
      find_by-counted for (λ i. leb db.next_invoice i.id) db.invoices invoice found,
    )
