-- ===== src/Stores/Swap.antt =====
-- What `move_store_slot` and `apply_store_cap` do to the stores of an account.
use chmabapay.Base.{
  ℕ, ◌+◌, ◌-◌, ◌<◌, ◌≡◌, refl, Bool, true, false, not, ◌&&◌, Option, none, some, List, [], ◌∷◌, map,
  length, take, select, select-select, map-update_where, update_where, is_mem, ◌==◌, if◌then◌else◌,
  count_where, min, count_where-add, count_where-le, last_rows, count-last_rows, last_rows-absent,
  count_where-update, count_where-split, count_where-ext, arith, Text, ap, text_eq, find_by-holds,
  find_by-counted,
}
use chmabapay.Model.{Store, Db, Instant}
use chmabapay.Stores.Cap.{
  is_held, hold, release, newest_first, is_one_of, stores_of, apply_store_cap,
}
use chmabapay.Stores.Slot.{set_stores, get_store, is_disabled, plan_max_stores, move_store_slot}
use chmabapay.Stores.Allowance.{is_held_of, is_live_of, live_count, HasStoreKeys, length-part}

-- What the billing hold may not change of a store.
abbrev pub unheld : Store → Store
unheld s = record s { billing_suspended_at = none; updated_at = 0 }

-- The cap writes nothing but the hold flag and the time stamp of stores.
pub apply_store_cap-unheld :
    (db : Db) (account : ℕ) (cap : Option ℕ) (now : Instant)
    → let db' = (apply_store_cap db account cap now).0 in
      (map unheld db'.stores ≡ map unheld db.stores) × (db' ≡ set_stores db'.stores db)
unfolding apply_store_cap
apply_store_cap-unheld db account none now = (refl, refl)
apply_store_cap-unheld db account (some max_stores) now =
    let stores = stores_of account db in
    let free = select (λ s. not (is_held s)) stores in
    let held = select is_held stores in
    ground (
      arith,
      map-update_where unheld (is_one_of (take (length free - max_stores) (newest_first free)))
          (hold now) db.stores (λ s. refl),
      map-update_where unheld (is_one_of (take (max_stores - length free) (newest_first held)))
          (release now) db.stores (λ s. refl),
    )

map-hold :
    (now : Instant) (xs : List Store) → map (λ t. t.id) (map (hold now) xs) ≡ map (λ t. t.id) xs
map-hold now [] = refl
map-hold now (x ∷ xs) = ground (arith, map-hold now xs)

is_one_of-hold : (now : Instant) (xs : List Store) → is_one_of (map (hold now) xs) ≡ is_one_of xs
is_one_of-hold now xs = ap (λ ids. λ (s : Store). is_mem s.id ids) (map-hold now xs)

-- The stores that make room are held, beyond those that the update of the chosen store leaves live.
count-displaced :
    (account n : ℕ) (now : Instant) (chosen : Store) (db : Db)
    → HasStoreKeys db
    → let live = select (λ s. not (is_held s)) (stores_of account db) in
      let picked =
        map (hold now) (take n (newest_first (select (λ s. not (s.id == chosen.id)) live))) in
      count_where (is_live_of account) (update_where (is_one_of picked) (hold now) db.stores)
        + min n (count_where (λ s. is_live_of account s && not (s.id == chosen.id)) db.stores)
      ≡ live_count account db
count-displaced account n now chosen db keys =
    let other = λ (s : Store). not (s.id == chosen.id) in
    let free = λ (s : Store). not (is_held s) in
    let rows =
      last_rows (λ s. s.id) (λ s. s.account_id == account) (λ s. free s && other s) n db.stores in
    let chosen_rows = take n (newest_first (select other (select free (stores_of account db)))) in
    let held_by = λ (m : Store → Bool).
      count_where (is_live_of account) (update_where m (hold now) db.stores) in
    omega (
      arith,
      ap held_by (is_one_of-hold now chosen_rows),
      ap (λ xs. held_by (is_one_of (take n (newest_first xs))))
          (select-select free other (stores_of account db)),
      count_where-update (is_live_of account) (is_one_of rows) (hold now) db.stores,
      count_where-ext
          (λ s. if is_one_of rows s then is_live_of account (hold now s) else is_live_of account s)
          (λ s. is_live_of account s && not (is_one_of rows s)) db.stores (λ s. ground arith),
      count_where-ext (λ s. (s.account_id == account) && (free s && other s))
          (λ s. is_live_of account s && other s) db.stores (λ s. ground arith),
      count_where-split (is_live_of account) (is_one_of rows) db.stores,
      count_where-ext (λ s. ((s.account_id == account) && (free s && other s)) && is_one_of rows s)
          (λ s. is_live_of account s && is_one_of rows s) db.stores
          (λ s. ground (
            arith,
            last_rows-absent (λ s. s.id) (λ s. s.account_id == account) (λ s. free s && other s) n
                chosen.id s.id db.stores (λ t. ground arith),
          )),
      count-last_rows (λ s. s.id) (λ s. s.account_id == account) (λ s. free s && other s) n
          db.stores keys,
    )

-- An update that keeps the keys keeps them unique.
HasStoreKeys-update :
    (m : Store → Bool) (f : Store → Store) (db : Db)
    → ((s : Store) → (f s).id ≡ s.id)
    → HasStoreKeys db
    → HasStoreKeys (set_stores (update_where m f db.stores) db)
HasStoreKeys-update m f db h keys k = omega (
  arith,
  keys k,
  count_where-update (λ s. s.id == k) m f db.stores,
  count_where-ext (λ s. if m s then (f s).id == k else s.id == k) (λ s. s.id == k) db.stores
      (λ s. ground (arith, h s)),
)

-- Releasing one held store of the account makes one more live store.
count-one_released :
    (account : ℕ) (public_id : Text) (now : Instant) (db : Db) {store : Store}
    → HasStoreKeys db
    → get_store db account public_id ≡ some store
    → is_held store ≡ true
    → count_where
        (is_live_of account)
        (update_where (λ s. s.id == store.id) (release now) db.stores)
      ≡ live_count account db + 1
count-one_released account public_id now db {store} keys found held =
    let mine = λ (s : Store). (s.account_id == account) && text_eq s.public_id public_id in
    let here = λ (s : Store). is_held_of account s && (s.id == store.id) in
    let owner : (store.account_id == account) ≡ true =
      ground (arith, find_by-holds mine db.stores store found) in
    omega (
      arith,
      keys store.id,
      count_where-update (is_live_of account) (λ s. s.id == store.id) (release now) db.stores,
      count_where-add
          (λ s.
            if s.id == store.id then is_live_of account (release now s) else is_live_of account s)
          (is_live_of account) here db.stores (λ s. ground arith),
      count_where-le (is_held_of account) (λ s. s.id == store.id) db.stores,
      find_by-counted mine here db.stores store found (ground arith),
    )

plan_max_stores-set_stores :
    (stores : List Store) (db : Db) (account : ℕ)
    → plan_max_stores (set_stores stores db) account ≡ plan_max_stores db account
unfolding plan_max_stores
plan_max_stores-set_stores stores db account = refl

-- Moving a slot to a store that is on hold, under a plan that allows at least one store, leaves
-- the account with one more store that is not on hold, or with its allowance where that is
-- smaller. It assumes that store keys are unique and that the store is not disabled.
pub move_store_slot-allowance :
    (db : Db) (account max_stores : ℕ) (public_id : Text) (now : Instant) {store : Store}
    → HasStoreKeys db
    → get_store db account public_id ≡ some store
    → is_disabled store.status ≡ false
    → is_held store ≡ true
    → plan_max_stores db account ≡ some max_stores
    → 0 < max_stores
    → live_count account (move_store_slot db account public_id now).0
      ≡ min max_stores (live_count account db + 1)
unfolding move_store_slot
move_store_slot-allowance db account max_stores public_id now {store} keys found on held plan room =
    let back = set_stores (update_where (λ s. s.id == store.id) (release now) db.stores) db in
    let live = select (λ s. not (is_held s)) (stores_of account back) in
    let back_keys = HasStoreKeys-update (λ s. s.id == store.id) (release now) db (λ s. refl) keys in
    ground (
      arith,
      plan_max_stores-set_stores back.stores db account,
      back_keys store.id,
      count-one_released account public_id now db keys found held,
      length-part account (λ s. not (is_held s)) back,
      count_where-split (is_live_of account) (λ s. s.id == store.id) back.stores,
      count_where-le (is_live_of account) (λ s. s.id == store.id) back.stores,
      count-displaced account (length live - max_stores) now store back back_keys,
    )
