-- ===== src/Stores/Attach.antt =====
-- `attach_link` of services/stores.py.
use chmabapay.Base.{ℕ, Option, none, some, update_where, ◌==◌, Text, Result, refuse, and_then}
use chmabapay.Base.Results.{ok, err}
use chmabapay.Model.{Instant, Store, StoreStatus, Verification, AuditAction, Db, Settings}
use chmabapay.Stores.Slot.{get_store, is_disabled, set_status, audit_store}
use chmabapay.Stores.Links.{
  LinkError, store_not_found, store_disabled, LinkIn, LinkCheck, resolve_link,
  carry_forward_currency, attach_link_to_store,
}

-- Only a link that PayWay confirmed makes the store active.
abbrev pub activate : (Store → Store) → Verification → Store → Store
activate promote Verification.verified store = promote store
activate promote Verification.unverified store = store

abbrev pub make_active : Instant → Store → Store
make_active now store = set_status StoreStatus.active now store

-- The writes, once the link is resolved; `promote` is what a confirmed link does to the store, and
-- `currency` what the audit log says of the link besides.
abbrev pub link_to :
    (Store → Store) → Db → ℕ → Store → Option Text → LinkIn × Verification → Db × Store
link_to promote db account store currency (payload, verification) =
    let linked = attach_link_to_store db store.id payload verification in
    let promoted : Db = record linked {
      stores = update_where (λ s. s.id == store.id) (activate promote verification) linked.stores;
    } in
    (
      audit_store account
          (AuditAction.store_link_set payload.merchant_account_id payload.merchant_name currency
            verification)
          store.id promoted,
      activate promote verification store,
    )

abbrev pub attached :
    Instant → Db → ℕ → Store → LinkIn × Verification → Result LinkError (Db × Store)
attached now db account store resolved =
    ok (link_to (make_active now) db account store none resolved)

abbrev pub attach_to :
    (Text → LinkCheck)
    → Settings
    → Instant
    → Db
    → ℕ
    → LinkIn
    → Store
    → Result LinkError (Db × Store)
attach_to verify_link settings now db account payload store =
    refuse (is_disabled store.status) store_disabled (
      and_then (carry_forward_currency db store.id payload) (λ carried.
        and_then (resolve_link verify_link settings carried) (attached now db account store)))

abbrev pub store_or :
    {A : Type 0} → Option Store → (Store → Result LinkError A) → Result LinkError A
store_or none f = err store_not_found
store_or (some store) f = f store

-- The new state and the store; an error leaves the database as it was.
unfoldable pub attach_link :
    (Text → LinkCheck) → Settings → Instant → Db → ℕ → Text → LinkIn → Result LinkError (Db × Store)
unfolding carry_forward_currency resolve_link attach_link_to_store
attach_link verify_link settings now db account store_public_id payload =
    store_or (get_store db account store_public_id)
      (attach_to verify_link settings now db account payload)
