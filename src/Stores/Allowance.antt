-- ===== src/Stores/Allowance.antt =====
-- How many stores of an account stay live under a plan's allowance.
use chmabapay.Base.{
  ℕ, ◌+◌, ◌-◌, ◌≡◌, Bool, not, ◌&&◌, some, List, [], length, take, select, update_where, ◌==◌,
  if◌then◌else◌, count_where, HasUniqueKeys, min, length-select, count_where-select,
  count_where-sort, count_where-update, count_where-split, count_where-ext, arith, count_where-add,
  last_rows, count-last_rows, refl, ◌∙◌,
}
use chmabapay.Model.{Store, Db, Instant}
use chmabapay.Stores.Cap.{
  is_held, hold, release, newest_first, is_one_of, stores_of, apply_store_cap,
}

abbrev pub is_live_of : ℕ → Store → Bool
is_live_of account s = (s.account_id == account) && not (is_held s)

abbrev pub is_held_of : ℕ → Store → Bool
is_held_of account s = (s.account_id == account) && is_held s

-- How many stores of the account are not on hold, and how many it has.
abbrev pub live_count : ℕ → Db → ℕ
live_count account db = count_where (is_live_of account) db.stores

abbrev pub store_count : ℕ → Db → ℕ
store_count account db = count_where (λ s. s.account_id == account) db.stores

-- No two stores share a primary key.
abbrev pub HasStoreKeys : Db → Type 0
HasStoreKeys db = HasUniqueKeys (λ s. s.id) db.stores

pub length-part :
    (account : ℕ) (p : Store → Bool) (db : Db)
    → length (select p (stores_of account db))
      ≡ count_where (λ s. (s.account_id == account) && p s) db.stores
length-part account p db =
    length-select p (stores_of account db)
    ∙ count_where-sort p (λ s. s.id) (select (λ s. s.account_id == account) db.stores)
    ∙ count_where-select (λ s. s.account_id == account) p db.stores

store_count-split :
    (account : ℕ) (db : Db)
    → count_where (is_held_of account) db.stores + live_count account db ≡ store_count account db
store_count-split account db = count_where-split (λ s. s.account_id == account) is_held db.stores

-- The newest `n` of the account's stores with a property.
abbrev newest_of : ℕ → (Store → Bool) → ℕ → Db → List Store
newest_of account p n db = last_rows (λ s. s.id) (λ s. s.account_id == account) p n db.stores

count-held_down :
    (account n : ℕ) (now : Instant) (db : Db)
    → HasStoreKeys db
    → let picked = newest_of account (λ s. not (is_held s)) n db in
      count_where (is_live_of account) (update_where (is_one_of picked) (hold now) db.stores)
        + min n (live_count account db)
      ≡ live_count account db
count-held_down account n now db keys =
    let picked = newest_of account (λ s. not (is_held s)) n db in
    omega (
      arith,
      count_where-update (is_live_of account) (is_one_of picked) (hold now) db.stores,
      count_where-ext
          (λ s.
            if is_one_of picked s then is_live_of account (hold now s) else is_live_of account s)
          (λ s. is_live_of account s && not (is_one_of picked s)) db.stores (λ s. ground arith),
      count_where-split (is_live_of account) (is_one_of picked) db.stores,
      count-last_rows (λ s. s.id) (λ s. s.account_id == account) (λ s. not (is_held s)) n db.stores
          keys,
    )

count-released :
    (account n : ℕ) (now : Instant) (db : Db)
    → HasStoreKeys db
    → let picked = newest_of account is_held n db in
      count_where (is_live_of account) (update_where (is_one_of picked) (release now) db.stores)
      ≡ live_count account db + min n (count_where (is_held_of account) db.stores)
count-released account n now db keys =
    let picked = newest_of account is_held n db in
    omega (
      arith,
      count_where-update (is_live_of account) (is_one_of picked) (release now) db.stores,
      count_where-add
          (λ s.
            if is_one_of picked s then is_live_of account (release now s) else is_live_of account s)
          (is_live_of account) (λ s. is_held_of account s && is_one_of picked s) db.stores
          (λ s. ground arith),
      count-last_rows (λ s. s.id) (λ s. s.account_id == account) is_held n db.stores keys,
    )

-- Where store keys are unique, after the cap the account has as many stores that are not on hold
-- as the smaller of the allowance and the number of its stores.
pub apply_store_cap-allowance :
    (db : Db) (account max_stores : ℕ) (now : Instant)
    → HasStoreKeys db
    → live_count account (apply_store_cap db account (some max_stores) now).0
      ≡ min max_stores (store_count account db)
unfolding apply_store_cap
apply_store_cap-allowance db account max_stores now keys =
    let live = length (select (λ s. not (is_held s)) (stores_of account db)) in
    ground (
      arith,
      length-part account (λ s. not (is_held s)) db,
      length-part account is_held db,
      store_count-split account db,
      count-held_down account (live - max_stores) now db keys,
      count-released account (max_stores - live) now db keys,
    )

store_count-kept :
    (account : ℕ) (m : Store → Bool) (f : Store → Store) (db : Db)
    → ((s : Store) → (f s).account_id ≡ s.account_id)
    → count_where (λ s. s.account_id == account) (update_where m f db.stores)
      ≡ store_count account db
store_count-kept account m f db h =
    count_where-update (λ s. s.account_id == account) m f db.stores
    ∙ count_where-ext (λ s. if m s then (f s).account_id == account else s.account_id == account)
        (λ s. s.account_id == account) db.stores (λ s. ground (arith, h s))

apply_store_cap-store_count :
    (db : Db) (account max_stores : ℕ) (now : Instant)
    → store_count account (apply_store_cap db account (some max_stores) now).0
      ≡ store_count account db
unfolding apply_store_cap
apply_store_cap-store_count db account max_stores now =
    let stores = stores_of account db in
    let free = select (λ s. not (is_held s)) stores in
    let held = select is_held stores in
    ground (
      arith,
      store_count-kept account (is_one_of (take (length free - max_stores) (newest_first free)))
          (hold now) db (λ s. refl),
      store_count-kept account (is_one_of (take (max_stores - length free) (newest_first held)))
          (release now) db (λ s. refl),
    )

at_allowance :
    (db : Db) (account max_stores : ℕ) (now : Instant)
    → live_count account db ≡ min max_stores (store_count account db)
    → apply_store_cap db account (some max_stores) now ≡ (db, [])
unfolding apply_store_cap
at_allowance db account max_stores now h = ground (
  arith,
  length-part account (λ s. not (is_held s)) db,
  length-part account is_held db,
  store_count-split account db,
)

-- Where store keys are unique, applying the same cap a second time, at any instant, changes
-- nothing and puts no store on hold.
apply_store_cap-idempotent :
    (db : Db) (account max_stores : ℕ) (now later : Instant)
    → HasStoreKeys db
    → let db' = (apply_store_cap db account (some max_stores) now).0 in
      apply_store_cap db' account (some max_stores) later ≡ (db', [])
apply_store_cap-idempotent db account max_stores now later keys =
    at_allowance (apply_store_cap db account (some max_stores) now).0 account max_stores later (
      omega (
        arith,
        apply_store_cap-allowance db account max_stores now keys,
        apply_store_cap-store_count db account max_stores now,
      ))
