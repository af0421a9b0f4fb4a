-- ===== src/Billing/Hq.antt =====
-- `resolve_hq_store` of services/billing.py: the store that plan fees are collected into.
use chmabapay.Base.{
  ℕ, ◌+◌, ◌-◌, ◌*◌, Bool, false, true, not, ◌&&◌, ◌||◌, Option, none, some, List, [], ◌∷◌, select,
  find_by, sort_by, is_some_eq, ◌==◌, if◌then◌else◌, Text, text_eq, codes, or_else, strip, is_int,
  is_digit,
}
use chmabapay.Model.{Account, Store, StoreStatus, Db, Settings}

pub data HqSource : Type 0 where
  env console fallback absent : HqSource

pub record HqStoreResolution : Type 0 where
  pub store : Option Store
  pub source : HqSource

-- The digits of a number, without its underscores.
abbrev digits_value : ℕ → Text → ℕ
digits_value n [] = n
digits_value n (c ∷ s) = digits_value (if is_digit c then n * 10 + (c - 48) else n) s

-- `int(pinned)` as a primary key: none where that raises, and where it is below zero.
abbrev pub key_of : Text → Option ℕ
key_of [] = none
key_of (c ∷ s) =
    let value = digits_value 0 (c ∷ s) in
    if is_int (c ∷ s) then (if (c == b'-') && not (value == 0) then none else some value) else none

abbrev pub is_pinned : Text → Store → Bool
is_pinned pinned s = is_some_eq (key_of pinned) s.id || text_eq s.public_id pinned

-- `scalar_one_or_none()`: none is the error of several matches.
abbrev pub one_or_none : List Store → Option (Option Store)
one_or_none [] = some none
one_or_none (s ∷ []) = some (some s)
one_or_none (s ∷ t ∷ stores) = none

abbrev pub is_admin_of : Option Account → Bool
is_admin_of none = false
is_admin_of (some a) = a.is_platform_admin

abbrev pub hq_store_name : Text
hq_store_name = codes "ChmabaPay HQ"

abbrev pub is_named_hq : Db → Store → Bool
is_named_hq db s =
    text_eq s.name hq_store_name && is_admin_of (find_by (λ a. a.id == s.account_id) db.accounts)

abbrev pub is_active : StoreStatus → Bool
is_active StoreStatus.active = true
is_active _ = false

-- `ORDER BY id LIMIT 1`
abbrev pub first_store : List Store → Option Store
first_store stores = find_by (λ s. true) (sort_by (λ s. s.id) stores)

abbrev pub at_source : Option Store → HqSource → HqStoreResolution → HqStoreResolution
at_source none source rest = rest
at_source (some store) source rest = record { store = some store; source = source }

abbrev pub admin_store : Db → Option Account → Option Store
admin_store db none = none
admin_store db (some admin) =
    first_store (select (λ s. (s.account_id == admin.id) && is_active s.status) db.stores)

abbrev pub resolve_unpinned : Db → HqStoreResolution
resolve_unpinned db = at_source (first_store (select (is_named_hq db) db.stores)) HqSource.console (
    at_source (admin_store db (find_by (λ a. a.is_platform_admin) db.accounts)) HqSource.fallback
      (record { store = none; source = HqSource.absent }))

abbrev pub resolve_pinned : Db → Text → Option HqStoreResolution
resolve_pinned db [] = some (resolve_unpinned db)
resolve_pinned db (c ∷ pinned) = elim (one_or_none (select (is_pinned (c ∷ pinned)) db.stores)) [
  | none ↦ none
  | some found ↦ some (at_source found HqSource.env (resolve_unpinned db))
]

-- The most explicit source first; `none` is a `MultipleResultsFound`.
unfoldable pub resolve_hq_store : Db → Settings → Option HqStoreResolution
resolve_hq_store db settings = resolve_pinned db (strip (or_else settings.chmabapay_hq_store_id []))
