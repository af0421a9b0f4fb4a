-- ===== src/Stores/Slot.antt =====
-- `plan_max_stores`, `move_store_slot`, `disable_store` and `enable_store` of services/stores.py.
use chmabapay.Base.{
  ℕ, ◌-◌, Bool, true, false, not, ◌&&◌, Option, none, some, List, [], ◌∷◌, ◌++◌, map, length, take,
  select, find_by, update_where, ◌==◌, if◌then◌else◌, Text, text_eq,
}
use chmabapay.Model.{
  Store, StoreStatus, Db, Instant, PlanSubscription, SubscriptionStatus, AuditLog, AuditAction,
  PaymentLink,
}
use chmabapay.Stores.Cap.{is_held, hold, release, newest_first, is_one_of, stores_of}

-- The errors that these operations raise.
pub data StoreError : Type 0 where
  store_not_found store_disabled multiple_results : StoreError

pub data StoreResult (A : Type 0) : Type 0 where
  ok : A → StoreResult A
  err : StoreError → StoreResult A

-- `status.in_(["trial", "active"])`
abbrev pub in_force : SubscriptionStatus → Bool
in_force SubscriptionStatus.trial = true
in_force SubscriptionStatus.active = true
in_force SubscriptionStatus.pending = false
in_force SubscriptionStatus.canceled = false

-- The allowance of the plan in force, or `none`.
unfoldable pub plan_max_stores : Db → ℕ → Option ℕ
plan_max_stores db account =
    elim (find_by (λ (r : PlanSubscription). (r.account_id == account) && in_force r.status)
      db.subscriptions) [
        | none ↦ none
        | some sub ↦ elim (find_by (λ p. p.id == sub.plan_id) db.plans) [
          | none ↦ none
          | some plan ↦ plan.max_stores
        ]
      ]

abbrev pub get_store : Db → ℕ → Text → Option Store
get_store db account public_id =
    find_by (λ s. (s.account_id == account) && text_eq s.public_id public_id) db.stores

abbrev pub is_disabled : StoreStatus → Bool
is_disabled StoreStatus.disabled = true
is_disabled _ = false

abbrev pub set_stores : List Store → Db → Db
set_stores stores db = record db { stores = stores }

-- `audit.record`, with the account as the actor
abbrev pub audit_store : ℕ → AuditAction → ℕ → Db → Db
audit_store account action target db =
    let log : AuditLog = record {
      actor_account_id = some account;
      action = action;
      target_id = target;
    } in
    record db { audit_log = db.audit_log ++ log ∷ [] }

abbrev pub is_status : StoreStatus → StoreStatus → Bool
is_status StoreStatus.draft StoreStatus.draft = true
is_status StoreStatus.link_pending StoreStatus.link_pending = true
is_status StoreStatus.active StoreStatus.active = true
is_status StoreStatus.disabled StoreStatus.disabled = true
is_status _ _ = false

-- An assignment of the same value is no update, so that `onupdate=utcnow` does not fire.
abbrev pub set_status : StoreStatus → Instant → Store → Store
set_status status now s =
    if is_status status s.status then s else record s { status = status; updated_at = now }

unfoldable pub disable_store : Db → ℕ → Text → Instant → Db × StoreResult Store
disable_store db account public_id now = elim (get_store db account public_id) [
  | none ↦ (db, err store_not_found)
  | some store ↦ (
    audit_store account (AuditAction.store_disabled store.name) store.id (
        set_stores
          (update_where (λ s. s.id == store.id) (set_status StoreStatus.disabled now) db.stores)
          db),
    ok (set_status StoreStatus.disabled now store),
  )
]

-- `scalar_one_or_none()` over the links of the store: two rows raise `MultipleResultsFound`.
unfoldable pub restored_status : List PaymentLink → StoreResult StoreStatus
restored_status [] = ok StoreStatus.draft
restored_status (link ∷ []) = ok StoreStatus.active
restored_status (link ∷ other ∷ links) = err multiple_results

unfoldable pub enable_with :
    Db → ℕ → Store → Instant → StoreResult StoreStatus → Db × StoreResult Store
enable_with db account store now (err e) = (db, err e)
enable_with db account store now (ok restored) = (
  audit_store account (AuditAction.store_enabled store.name restored) store.id
      (set_stores (update_where (λ s. s.id == store.id) (set_status restored now) db.stores) db),
  ok (set_status restored now store),
)

unfoldable pub enable_store : Db → ℕ → Text → Instant → Db × StoreResult Store
unfolding restored_status enable_with
enable_store db account public_id now = elim (get_store db account public_id) [
  | none ↦ (db, err store_not_found)
  | some store ↦
      if is_disabled store.status
      then enable_with db account store now
          (restored_status (select (λ l. l.store_id == store.id) db.payment_links))
      else (db, ok store)
]

-- The result of one slot swap.
pub record StoreSlotMove : Type 0 where
  pub store : Store
  pub displaced : Option Store
  pub moved : Bool

-- The live stores but the chosen one, newest first, of which the surplus gives its slots up.
unfoldable pub victims : Db → ℕ → Option ℕ → Store → List Store
victims db account none store = []
victims db account (some max_stores) store =
    let live = select (λ s. not (is_held s)) (stores_of account db) in
    take (length live - max_stores) (newest_first (select (λ s. not (s.id == store.id)) live))

abbrev pub first : List Store → Option Store
first [] = none
first (s ∷ r) = some s

abbrev id_of : Option Store → Option ℕ
id_of none = none
id_of (some s) = some s.id

-- The row lock on the account serialises two calls; the calls of this model are one after another.
unfoldable pub move_store_slot : Db → ℕ → Text → Instant → Db × StoreResult StoreSlotMove
unfolding victims
move_store_slot db account public_id now = elim (get_store db account public_id) [
  | none ↦ (db, err store_not_found)
  | some store ↦
      if is_disabled store.status
      then (db, err store_disabled)
      else if not (is_held store)
      then (db, ok (record { store = store; displaced = none; moved = false }))
      else let back =
          set_stores (update_where (λ s. s.id == store.id) (release now) db.stores) db in
        let displaced = map (hold now) (victims back account (plan_max_stores db account) store) in
        (
          audit_store account (AuditAction.slot_moved store.name (id_of (first displaced))) store.id
              (set_stores (update_where (is_one_of displaced) (hold now) back.stores) back),
          ok (record { store = release now store; displaced = first displaced; moved = true }),
        )
]
