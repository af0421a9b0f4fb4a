-- ===== src/Payments/Net.antt =====
-- How the usage of an account and month changes with the entries of the ledger.
use chmabapay.Base.{
  ℕ, ◌≡◌, refl, sym, ap, ◌∙◌, Bool, true, false, none, some, List, [], ◌∷◌, ◌++◌, map, find_by,
  select, any_of, count_where, Option-cases, Bool-cases, inl, inr, ◌==◌, if◌then◌else◌, text_eq,
  arith,
}
use chmabapay.Base.Int.{ℤ, pos, ◌+ℤ◌, ◌-ℤ◌, add_assoc_ℤ, add_zero_ℤ, zero_add_ℤ, add_sub_ℤ}
use chmabapay.Model.{Instant, PeriodMonth, Payment, Store, PlanLedgerEntry, Db}
use chmabapay.Stores.Swap.{unheld}
use chmabapay.Billing.{period_month_for, period_usage, is_period, sum_count, sum_amount}
use chmabapay.Payments.Ledger.{ledger_entry, same_key, insert_entry, record_plan_ledger_entry}

find-unheld :
    (k : ℕ) (xs : List Store)
    → find_by (λ s. s.id == k) (map unheld xs)
      ≡ elim (find_by (λ s. s.id == k) xs) [ none ↦ none | some s ↦ some (unheld s) ]
find-unheld k [] = refl
find-unheld k (x ∷ xs) = ground (arith, find-unheld k xs)

-- A store whose table has changed in its holds only keeps its account.
pub store-kept :
    (k : ℕ) (xs ys : List Store) (store : Store)
    → map unheld ys ≡ map unheld xs
    → find_by (λ s. s.id == k) xs ≡ some store
    → (s : Store) × (find_by (λ s. s.id == k) ys ≡ some s) × (s.account_id ≡ store.account_id)
store-kept k xs ys store same found =
    let here = λ (s : Store). s.id == k in
    let both : elim (find_by here ys) [ none ↦ none | some s ↦ some (unheld s) ]
        ≡ some (unheld store) =
      sym (find-unheld k ys) ∙ ap (find_by here) same ∙ find-unheld k xs ∙ rw found refl in
    elim (Option-cases (find_by here ys)) [
      | inl gone ↦ absurd (ground (arith, gone, both))
      | inr (s, e) ↦ (s, e, ground (arith, both, e))
    ]

sum_count-append :
    (p : PlanLedgerEntry → Bool) (xs : List PlanLedgerEntry) (e : PlanLedgerEntry)
    → sum_count (select p (xs ++ e ∷ []))
      ≡ sum_count (select p xs) +ℤ (if p e then e.total_payments_count else pos 0)
unfolding sum_count
sum_count-append p [] e = elim (Bool-cases (p e)) [
  | inl counted ↦
      rw counted (add_zero_ℤ e.total_payments_count ∙ sym (zero_add_ℤ e.total_payments_count))
  | inr other ↦ rw other (sym (zero_add_ℤ (pos 0)))
]
sum_count-append p (x ∷ xs) e = elim (Bool-cases (p x)) [
  | inl counted ↦ rw counted (
      ap (λ n. x.total_payments_count +ℤ n) (sum_count-append p xs e)
      ∙ sym (
          add_assoc_ℤ x.total_payments_count (sum_count (select p xs))
            (if p e then e.total_payments_count else pos 0)))
  | inr other ↦ rw other (sum_count-append p xs e)
]

sum_amount-append :
    (p : PlanLedgerEntry → Bool) (xs : List PlanLedgerEntry) (e : PlanLedgerEntry)
    → sum_amount (select p (xs ++ e ∷ []))
      ≡ sum_amount (select p xs) +ℤ (if p e then e.amount_cents_delta else pos 0)
unfolding sum_amount
sum_amount-append p [] e = elim (Bool-cases (p e)) [
  | inl counted ↦
      rw counted (add_zero_ℤ e.amount_cents_delta ∙ sym (zero_add_ℤ e.amount_cents_delta))
  | inr other ↦ rw other (sym (zero_add_ℤ (pos 0)))
]
sum_amount-append p (x ∷ xs) e = elim (Bool-cases (p x)) [
  | inl counted ↦ rw counted (
      ap (λ n. x.amount_cents_delta +ℤ n) (sum_amount-append p xs e)
      ∙ sym (
          add_assoc_ℤ x.amount_cents_delta (sum_amount (select p xs))
            (if p e then e.amount_cents_delta else pos 0)))
  | inr other ↦ rw other (sum_amount-append p xs e)
]

-- An entry whose key no entry has is appended.
pub insert_entry-new :
    (entry : PlanLedgerEntry) (ledger : List PlanLedgerEntry)
    → any_of (same_key entry) ledger ≡ false
    → insert_entry entry ledger ≡ ledger ++ entry ∷ []
unfolding insert_entry
insert_entry-new entry ledger fresh = ground arith

pub no_entry :
    (entry : PlanLedgerEntry) (ledger : List PlanLedgerEntry)
    → count_where (λ e. text_eq entry.resource_id e.resource_id) ledger ≡ 0
    → any_of (same_key entry) ledger ≡ false
no_entry entry [] none_left = refl
no_entry entry (e ∷ ledger) none_left = ground (arith, no_entry entry ledger)

reversal_entry :
    (entry other : PlanLedgerEntry) (ledger : List PlanLedgerEntry)
    → any_of (same_key entry) ledger ≡ false
    → same_key entry other ≡ false
    → any_of (same_key entry) (ledger ++ other ∷ []) ≡ false
reversal_entry entry other [] fresh apart = ground arith
reversal_entry entry other (e ∷ ledger) fresh apart =
    ground (arith, reversal_entry entry other ledger)

-- The usage after one more entry.
pub usage-appended :
    (db : Db) (entry : PlanLedgerEntry) (account : ℕ) (label : PeriodMonth)
    → period_usage (record db { ledger = db.ledger ++ entry ∷ [] }) account label ≡ (
      (period_usage db account label).0
          +ℤ (if is_period account label entry then entry.total_payments_count else pos 0),
      (period_usage db account label).1
          +ℤ (if is_period account label entry then entry.amount_cents_delta else pos 0),
    )
unfolding period_usage
usage-appended db entry account label = ground (
  arith,
  sum_count-append (is_period account label) db.ledger entry,
  sum_amount-append (is_period account label) db.ledger entry,
)

taken_back :
    (u : ℤ × ℤ) (n : ℕ) (c d : Bool)
    → d ≡ c
    → (
      (u.0 +ℤ (if c then pos 1 else pos 0)) +ℤ (if d then pos 0 -ℤ pos 1 else pos 0),
      (u.1 +ℤ (if c then pos n else pos 0)) +ℤ (if d then pos 0 -ℤ pos n else pos 0),
    )
      ≡ u
taken_back u n true true same =
    ap (λ a. (a, (u.1 +ℤ pos n) +ℤ (pos 0 -ℤ pos n))) (add_sub_ℤ u.0 1)
    ∙ ap (λ b. (u.0, b)) (add_sub_ℤ u.1 n)
taken_back u n false false same =
    ap (λ a. (a, (u.1 +ℤ pos 0) +ℤ pos 0)) (add_zero_ℤ (u.0 +ℤ pos 0) ∙ add_zero_ℤ u.0)
    ∙ ap (λ b. (u.0, b)) (add_zero_ℤ (u.1 +ℤ pos 0) ∙ add_zero_ℤ u.1)
taken_back u n true false same = absurd (ground arith)
taken_back u n false true same = absurd (ground arith)

-- What a payment and its reversal in the same month leave of the usage.
pub usage-net :
    (db : Db) (owner : ℕ) (payment : Payment) (now later : Instant) (account : ℕ)
    (label : PeriodMonth)
    → count_where (λ e. text_eq payment.public_id e.resource_id) db.ledger ≡ 0
    → period_month_for now ≡ period_month_for later
    → let credited = record_plan_ledger_entry db owner payment false now in
      let given_back = record_plan_ledger_entry credited owner payment true later in
      period_usage given_back account label ≡ period_usage db account label
unfolding record_plan_ledger_entry
usage-net db owner payment now later account label fresh month =
    let credit = ledger_entry owner payment false now in
    let debit = ledger_entry owner payment true later in
    let absent = no_entry credit db.ledger fresh in
    let first : insert_entry credit db.ledger ≡ db.ledger ++ credit ∷ [] =
      insert_entry-new credit db.ledger absent in
    let second : insert_entry debit (db.ledger ++ credit ∷ [])
        ≡ (db.ledger ++ credit ∷ []) ++ debit ∷ [] =
      insert_entry-new debit (db.ledger ++ credit ∷ [])
        (reversal_entry debit credit db.ledger (no_entry debit db.ledger fresh) (ground arith)) in
    let credited = record db { ledger = db.ledger ++ credit ∷ [] } in
    let same : is_period account label debit ≡ is_period account label credit =
      ground (arith, month) in
    ap (λ xs. period_usage (record db { ledger = xs }) account label)
      (ap (insert_entry debit) first ∙ second)
    ∙ usage-appended credited debit account label
    ∙ ap
        (λ u. (
          u.0 +ℤ (if is_period account label debit then debit.total_payments_count else pos 0),
          u.1 +ℤ (if is_period account label debit then debit.amount_cents_delta else pos 0),
        ))
        (usage-appended db credit account label)
    ∙ taken_back (period_usage db account label) payment.amount_cents
        (is_period account label credit) (is_period account label debit) same

pub usage-ledger :
    (db db' : Db) (account : ℕ) (label : PeriodMonth)
    → db'.ledger ≡ db.ledger
    → period_usage db' account label ≡ period_usage db account label
unfolding period_usage
usage-ledger db db' account label same =
    ap
      (λ xs. (
        sum_count (select (is_period account label) xs),
        sum_amount (select (is_period account label) xs),
      ))
      same
