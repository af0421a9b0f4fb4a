-- ===== src/Examples/Stores.antt =====
-- The store allowance at concrete data.
use chmabapay.Base.{
  if◌then◌else◌, leb, count_where, ◌==◌, ◌≡◌, refl, none, some, [], ◌∷◌, arith, min,
}
use chmabapay.Model.{StoreStatus, SubscriptionStatus, Db}
use chmabapay.Stores.{
  ok, disable_store, apply_store_cap, enable_store, err, multiple_results, move_store_slot,
  plan_max_stores,
}
use chmabapay.Stores.Allowance.{HasStoreKeys, live_count, store_count, apply_store_cap-allowance}
use chmabapay.Stores.Switch.{switched, enable_store-disable_store, enable_store-two_links}
use chmabapay.Stores.Swap.{move_store_slot-allowance}
use chmabapay.Examples.Data.{a_store, a_subscription, a_db}

-- Three live stores.
abbrev three_stores : Db
three_stores =
    a_db
      (a_store 1 none StoreStatus.active
        ∷ a_store 2 none StoreStatus.active
        ∷ a_store 3 none StoreStatus.draft
        ∷ [])
      (a_subscription 1 SubscriptionStatus.active ∷ []) []

three_stores-HasStoreKeys : HasStoreKeys three_stores
three_stores-HasStoreKeys k = ground arith

apply_store_cap-allowance_example :
    live_count 1 (apply_store_cap three_stores 1 (some 2) 5).0 ≡ min 2 (store_count 1 three_stores)
apply_store_cap-allowance_example =
    apply_store_cap-allowance three_stores 1 2 5 three_stores-HasStoreKeys

-- Two live stores, the third on hold.
abbrev one_held : Db
one_held =
    a_db
      (a_store 1 none StoreStatus.active
        ∷ a_store 2 none StoreStatus.active
        ∷ a_store 3 (some 4) StoreStatus.active
        ∷ [])
      (a_subscription 1 SubscriptionStatus.active ∷ []) []

one_held-HasStoreKeys : HasStoreKeys one_held
one_held-HasStoreKeys k = ground arith

one_held-allowance : plan_max_stores one_held 1 ≡ some 2
unfolding plan_max_stores
one_held-allowance = refl

move_store_slot-allowance_example :
    live_count 1 (move_store_slot one_held 1 (b's' ∷ b'3' ∷ []) 5).0 ≡ min 2 3
move_store_slot-allowance_example =
    move_store_slot-allowance one_held 1 2 (b's' ∷ b'3' ∷ []) 5 one_held-HasStoreKeys refl refl refl
      one_held-allowance (omega arith)

-- A store with a link for each of the two currencies.
abbrev two_links : Db
two_links = a_db (a_store 4 none StoreStatus.active ∷ []) [] []

enable_store-two_links_example :
    let db' = (disable_store two_links 1 (b's' ∷ b'4' ∷ []) 5).0 in
    enable_store db' 1 (b's' ∷ b'4' ∷ []) 6 ≡ (db', err multiple_results)
enable_store-two_links_example =
    enable_store-two_links two_links 1 (b's' ∷ b'4' ∷ []) 5 6 (a_store 4 none StoreStatus.active)
      refl (omega arith)

enable_store-disable_store_example :
    let db' = (disable_store three_stores 1 (b's' ∷ b'3' ∷ []) 5).0 in
    (enable_store db' 1 (b's' ∷ b'3' ∷ []) 6).1
    ≡ ok (
        switched
          (if leb 1 (count_where (λ l. l.store_id == 3) three_stores.payment_links)
            then StoreStatus.active
            else StoreStatus.draft)
          6
          (a_store 3 none StoreStatus.draft))
enable_store-disable_store_example =
    enable_store-disable_store three_stores 1 (b's' ∷ b'3' ∷ []) 5 6
      (a_store 3 none StoreStatus.draft) refl (omega arith)
