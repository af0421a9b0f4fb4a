-- ===== src/Stores/Switch.antt =====
-- A store that is disabled and enabled again: `disable_store` and `enable_store` of services/stores.py.
use chmabapay.Base.{
  Bool, false, ℕ, ◌≤◌, ◌≡◌, refl, ap, ◌∙◌, some, List, [], ◌∷◌, Text, length, length-select, select,
  find_by-update, count_where, text_eq, leb, ◌==◌, ◌&&◌, if◌then◌else◌, arith,
}
use chmabapay.Model.{Instant, Store, StoreStatus, PaymentLink, Db}
use chmabapay.Stores.Slot.{
  ok, err, multiple_results, is_disabled, get_store, set_status, disable_store, enable_store,
  restored_status, enable_with,
}

disable_store-get :
    (db : Db) (account : ℕ) (public_id : Text) (off : Instant) (store : Store)
    → get_store db account public_id ≡ some store
    → let db' = (disable_store db account public_id off).0 in
      (get_store db' account public_id ≡ some (set_status StoreStatus.disabled off store))
      × (db'.payment_links ≡ db.payment_links)
unfolding disable_store
disable_store-get db account public_id off store found =
    let moved =
      find_by-update (λ (s : Store). (s.account_id == account) && text_eq s.public_id public_id)
        (λ s. s.id == store.id) (set_status StoreStatus.disabled off) db.stores store
        (λ s. ground arith) found (ground arith) in
    rw (found, disable_store) (moved, refl)

restored-one :
    (links : List PaymentLink)
    → length links ≤ 1
    → restored_status links
      ≡ ok (if leb 1 (length links) then StoreStatus.active else StoreStatus.draft)
unfolding restored_status
restored-one [] few = ground arith
restored-one (l ∷ []) few = ground arith
restored-one (l ∷ m ∷ links) few = absurd (omega arith)

restored-many :
    (links : List PaymentLink) → 2 ≤ length links → restored_status links ≡ err multiple_results
unfolding restored_status
restored-many [] many = absurd (omega arith)
restored-many (l ∷ []) many = absurd (omega arith)
restored-many (l ∷ m ∷ links) many = refl

-- What an operator's switch leaves of a store.
abbrev pub switched : StoreStatus → Instant → Store → Store
switched status now store = record store { status = status; updated_at = now }

module _ (db : Db) (account : ℕ) (public_id : Text) (off on : Instant) (store : Store) where
  enabled :
      (status : StoreStatus)
      → is_disabled status ≡ false
      → get_store db account public_id ≡ some (set_status StoreStatus.disabled off store)
      → restored_status (select (λ l. l.store_id == store.id) db.payment_links) ≡ ok status
      → (enable_store db account public_id on).1 ≡ ok (switched status on store)
  unfolding enable_store enable_with
  enabled status live found restored = ground arith

  not_enabled :
      get_store db account public_id ≡ some (set_status StoreStatus.disabled off store)
      → restored_status (select (λ l. l.store_id == store.id) db.payment_links)
        ≡ err multiple_results
      → enable_store db account public_id on ≡ (db, err multiple_results)
  unfolding enable_store enable_with
  not_enabled found restored = ground arith

module _ (db : Db) (account : ℕ) (public_id : Text) (off on : Instant) (store : Store) where
  abbrev mine : PaymentLink → Bool
  mine l = l.store_id == store.id

  -- Disabling a store and enabling it again returns the store as it was but for its status,
  -- which is active where the store has a payment link and draft where it has none, and for its
  -- update stamp, which is the instant of the enabling. It assumes that the store has at most
  -- one link.
  pub enable_store-disable_store :
      get_store db account public_id ≡ some store
      → count_where mine db.payment_links ≤ 1
      → let db' = (disable_store db account public_id off).0 in
        (enable_store db' account public_id on).1
        ≡ ok (
            switched
              (if leb 1 (count_where mine db.payment_links)
                then StoreStatus.active
                else StoreStatus.draft)
              on
              store)
  enable_store-disable_store found few =
      let gone = disable_store-get db account public_id off store found in
      let db' = (disable_store db account public_id off).0 in
      let many : length (select mine db.payment_links) ≡ count_where mine db.payment_links =
        length-select mine db.payment_links in
      enabled db' account public_id off on store _ (ground arith) gone.0 (
        ap (λ links. restored_status (select mine links)) gone.1
        ∙ restored-one (select mine db.payment_links) (omega (arith, few, many))
        ∙ ap (λ n. ok (if leb 1 n then StoreStatus.active else StoreStatus.draft)) many)

  -- A store with two or more payment links that is disabled, whatever its status was, cannot be
  -- enabled again: the call fails with an error of multiple results and leaves the database as
  -- the disabling left it.
  pub enable_store-two_links :
      get_store db account public_id ≡ some store
      → 2 ≤ count_where mine db.payment_links
      → let db' = (disable_store db account public_id off).0 in
        enable_store db' account public_id on ≡ (db', err multiple_results)
  enable_store-two_links found two =
      let gone = disable_store-get db account public_id off store found in
      let db' = (disable_store db account public_id off).0 in
      not_enabled db' account public_id off on store gone.0 (
        ap (λ links. restored_status (select mine links)) gone.1
        ∙ restored-many (select mine db.payment_links)
            (omega (arith, two, length-select mine db.payment_links)))
