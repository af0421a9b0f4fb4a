-- ===== src/Stores/Update.antt =====
-- `update_store` of services/stores.py with `StorePatch.apply_to` of schemas.py.
use chmabapay.Base.{
  text_eq, ◌&&◌, true, false, ℕ, Bool, true, false, Option, none, some, List, [], ◌∷◌, update_where,
  ◌==◌, if◌then◌else◌, Text, Result, refuse, and_then,
}
use chmabapay.Base.Results.{ok}
use chmabapay.Model.{Instant, Account, Store, StoreStatus, AuditAction, Db, Settings}
use chmabapay.Stores.Slot.{get_store, is_disabled, audit_store}
use chmabapay.Stores.Links.{LinkError, store_disabled, LinkIn, LinkCheck, carry_forward_currency}
use chmabapay.Stores.Attach.{make_active, store_or}
use chmabapay.Stores.Create.{links_from, refuse_branding, link_each}

-- A field is `none` where the request leaves it out; `some none` clears a column that may be null.
-- `fields_set` has the names of the fields that the request sends, sorted.
pub record StorePatch : Type 0 where
  pub name : Option Text
  pub external_id : Option (Option Text)
  pub city : Option Text
  pub support_email : Option (Option Text)
  pub redirect_success_url : Option (Option Text)
  pub redirect_failure_url : Option (Option Text)
  pub telegram_chat_id : Option (Option Text)
  pub brand_color : Option (Option Text)
  pub logo_image_url : Option (Option Text)
  pub whitelabel_css : Option (Option Text)
  pub link : Option LinkIn
  pub links : Option (List LinkIn)
  pub fields_set : List Text

abbrev same_text : Option Text → Option Text → Bool
same_text none none = true
same_text (some s) (some t) = text_eq s t
same_text _ _ = false

-- The columns of a store that a request can send are the same.
abbrev pub is_same : Store → Store → Bool
is_same s t =
    text_eq s.name t.name
    && (same_text s.external_id t.external_id
        && (text_eq s.city t.city
            && (same_text s.support_email t.support_email
                && (same_text s.redirect_success_url t.redirect_success_url
                    && (same_text s.redirect_failure_url t.redirect_failure_url
                        && (same_text s.telegram_chat_id t.telegram_chat_id
                            && (same_text s.brand_color t.brand_color
                                && (same_text s.logo_image_url t.logo_image_url
                                    && same_text s.whitelabel_css t.whitelabel_css))))))))

-- What was sent, or the value before.
abbrev pub patched : {A : Type 0} → A → Option A → A
patched old none = old
patched old (some new) = new

abbrev pub with_patch : StorePatch → Store → Store
with_patch patch store = record store {
  name = patched store.name patch.name;
  external_id = patched store.external_id patch.external_id;
  city = patched store.city patch.city;
  support_email = patched store.support_email patch.support_email;
  redirect_success_url = patched store.redirect_success_url patch.redirect_success_url;
  redirect_failure_url = patched store.redirect_failure_url patch.redirect_failure_url;
  telegram_chat_id = patched store.telegram_chat_id patch.telegram_chat_id;
  brand_color = patched store.brand_color patch.brand_color;
  logo_image_url = patched store.logo_image_url patch.logo_image_url;
  whitelabel_css = patched store.whitelabel_css patch.whitelabel_css;
}

-- `onupdate=utcnow` fires where a column changes.
abbrev pub apply_to : StorePatch → Instant → Store → Store
apply_to patch now store =
    let new = with_patch patch store in
    if is_same store new then store else record new { updated_at = now }

abbrev pub is_draft : StoreStatus → Bool
is_draft StoreStatus.draft = true
is_draft _ = false

-- A confirmed link makes a draft active, and no other store.
abbrev pub promote_draft : Instant → Store → Store
promote_draft now store = if is_draft store.status then make_active now store else store

-- The log of a request that sends a field.
abbrev pub audit_patch : ℕ → Store → List Text → Db → Db
audit_patch account store [] db = db
audit_patch account store (f ∷ fs) db =
    audit_store account (AuditAction.store_updated (f ∷ fs)) store.id db

abbrev pub write_patch : Db → ℕ → StorePatch → Instant → Store → Db × Store
write_patch db account patch now store =
    let written : Db = record db {
      stores = update_where (λ s. s.id == store.id) (apply_to patch now) db.stores;
    } in
    (audit_patch account store patch.fields_set written, apply_to patch now store)

-- The single link of the request, with the currency of the store's where it names none.
abbrev pub carried_link : Db → ℕ → Option LinkIn → Result LinkError (Option LinkIn)
carried_link db store none = ok none
carried_link db store (some link) =
    and_then (carry_forward_currency db store link) (λ carried. ok (some carried))

abbrev pub link_patch :
    (Text → LinkCheck)
    → Settings
    → Instant
    → ℕ
    → StorePatch
    → Db × Store
    → Result LinkError (Db × Store)
link_patch verify_link settings now account patch done =
    and_then (carried_link done.0 done.1.id patch.link) (λ link.
      and_then (links_from link patch.links)
        (link_each (promote_draft now) verify_link settings account done))

abbrev pub update_loaded :
    (Text → LinkCheck)
    → Settings
    → Instant
    → Db
    → Account
    → StorePatch
    → Store
    → Result LinkError (Db × Store)
update_loaded verify_link settings now db account patch store =
    refuse (is_disabled store.status) store_disabled (
      refuse_branding account (patched none patch.brand_color) (patched none patch.logo_image_url)
        (patched none patch.whitelabel_css)
        (link_patch verify_link settings now account.id patch
          (write_patch db account.id patch now store)))

-- An error rolls the session back, the fields of the store with it.
unfoldable pub update_store :
    (Text → LinkCheck)
    → Settings
    → Instant
    → Db
    → Account
    → Text
    → StorePatch
    → Result LinkError (Db × Store)
unfolding carry_forward_currency links_from
update_store verify_link settings now db account store_public_id patch =
    store_or (get_store db account.id store_public_id)
      (update_loaded verify_link settings now db account patch)
