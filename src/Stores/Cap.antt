-- ===== src/Stores/Cap.antt =====
-- `apply_store_cap` of services/stores.py.
use chmabapay.Base.{
  ℕ, ◌-◌, Bool, not, ◌&&◌, Option, none, some, List, [], map, reverse, length, take, select,
  update_where, sort_by, is_mem, is_some, ltb, ◌==◌, if◌then◌else◌,
}
use chmabapay.Model.{Store, Db, Instant}

-- `s.billing_suspended_at is not None`
abbrev pub is_held : Store → Bool
is_held s = is_some s.billing_suspended_at

abbrev pub hold : Instant → Store → Store
hold now s = record s { billing_suspended_at = some now; updated_at = now }

abbrev pub release : Instant → Store → Store
release now s = record s { billing_suspended_at = none; updated_at = now }

-- `sorted(stores, key=lambda s: s.id, reverse=True)`
abbrev pub newest_first : List Store → List Store
newest_first stores = reverse (sort_by (λ s. s.id) stores)

-- The rows that a list of loaded stores stands for.
abbrev pub is_one_of : List Store → Store → Bool
is_one_of stores s = is_mem s.id (map (λ t. t.id) stores)

-- The stores of the account, `ORDER BY id`.
abbrev pub stores_of : ℕ → Db → List Store
stores_of account db = sort_by (λ s. s.id) (select (λ s. s.account_id == account) db.stores)

-- The new state, and the stores that this call has put on hold.
unfoldable pub apply_store_cap : Db → ℕ → Option ℕ → Instant → Db × List Store
apply_store_cap db account none now = (db, [])
apply_store_cap db account (some max_stores) now =
    let stores = stores_of account db in
    let held = select is_held stores in
    let free = select (λ s. not (is_held s)) stores in
    let surplus = take (length free - max_stores) (newest_first free) in
    let shortage = take (max_stores - length free) (newest_first held) in
    if ltb max_stores (length free)
    then (
      record db { stores = update_where (is_one_of surplus) (hold now) db.stores },
      sort_by (λ s. s.id) (map (hold now) surplus),
    )
    else if ltb (length free) max_stores && ltb 0 (length held)
    then (record db { stores = update_where (is_one_of shortage) (release now) db.stores }, [])
    else (db, [])
