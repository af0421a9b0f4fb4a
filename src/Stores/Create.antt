-- ===== src/Stores/Create.antt =====
-- `_links_from`, `reject_unentitled_branding` and `create_store` of services/stores.py. The column
-- `created_via`, which is always the text "api" here, is left out.
use chmabapay.Base.{
  ℕ, ◌+◌, Bool, true, false, not, ◌&&◌, ◌||◌, Option, none, some, List, [], ◌∷◌, ◌++◌, length,
  any_of, ltb, Text, text_eq, Result, refuse, and_then,
}
use chmabapay.Base.Results.{ok}
use chmabapay.Base.Money.{normalize_currency}
use chmabapay.Model.{Instant, Account, Store, StoreStatus, AuditAction, Db, Settings}
use chmabapay.Stores.Slot.{audit_store}
use chmabapay.Stores.Links.{
  LinkError, link_and_links, too_many_links, duplicate_link_currency, whitelabel_not_enabled,
  LinkIn, LinkCheck, is_named, resolve_link,
}
use chmabapay.Stores.Attach.{make_active, link_to}

-- `link` and `links` are two ways to name the destinations.
pub record StoreCreate : Type 0 where
  pub name : Text
  pub external_id : Option Text
  pub city : Text
  pub support_email : Option Text
  pub redirect_success_url : Option Text
  pub redirect_failure_url : Option Text
  pub telegram_chat_id : Option Text
  pub brand_color : Option Text
  pub logo_image_url : Option Text
  pub whitelabel_css : Option Text
  pub link : Option LinkIn
  pub links : Option (List LinkIn)

-- The row of the new store.
abbrev pub new_store : ℕ → Text → ℕ → Instant → StoreCreate → Store
new_store id public_id account now payload = record {
  id = id;
  public_id = public_id;
  account_id = account;
  name = payload.name;
  external_id = payload.external_id;
  city = payload.city;
  support_email = payload.support_email;
  redirect_success_url = payload.redirect_success_url;
  redirect_failure_url = payload.redirect_failure_url;
  telegram_chat_id = payload.telegram_chat_id;
  brand_color = payload.brand_color;
  logo_image_url = payload.logo_image_url;
  whitelabel_css = payload.whitelabel_css;
  is_internal = false;
  billing_suspended_at = none;
  status = StoreStatus.draft;
  updated_at = now;
}

-- `list(many) if many else ([single] if single is not None else [])`
abbrev pub candidates : Option LinkIn → Option (List LinkIn) → List LinkIn
candidates single (some (l ∷ ls)) = l ∷ ls
candidates (some l) _ = l ∷ []
candidates none _ = []

-- Both spellings are used.
abbrev pub names_both : Option LinkIn → Option (List LinkIn) → Bool
names_both (some single) (some (l ∷ ls)) = true
names_both _ _ = false

abbrev pub currency_of : LinkIn → Text
currency_of l = normalize_currency (some l.currency)

abbrev pub is_seen : Text → List Text → Bool
is_seen currency seen = any_of (λ c. text_eq c currency) seen

-- The loop with `seen`, before the rest of the body.
abbrev pub refuse_repeats :
    {A : Type 0} → List Text → List LinkIn → Result LinkError A → Result LinkError A
refuse_repeats seen [] rest = rest
refuse_repeats seen (l ∷ ls) rest =
    refuse (is_seen (currency_of l) seen) duplicate_link_currency
      (refuse_repeats (currency_of l ∷ seen) ls rest)

unfoldable pub links_from : Option LinkIn → Option (List LinkIn) → Result LinkError (List LinkIn)
links_from single many =
    let links = candidates single many in
    refuse (names_both single many) link_and_links
      (refuse (ltb 2 (length links)) too_many_links (refuse_repeats [] links (ok links)))

-- `reject_unentitled_branding`, before the rest of the body
abbrev pub refuse_branding :
    {A : Type 0}
    → Account
    → Option Text
    → Option Text
    → Option Text
    → Result LinkError A
    → Result LinkError A
refuse_branding account brand_color logo_image_url whitelabel_css rest =
    refuse
      (not account.whitelabel_enabled
        && (is_named brand_color || (is_named logo_image_url || is_named whitelabel_css)))
      whitelabel_not_enabled rest

-- The loop over the links of a request.
abbrev pub link_each :
    (Store → Store)
    → (Text → LinkCheck)
    → Settings
    → ℕ
    → Db × Store
    → List LinkIn
    → Result LinkError (Db × Store)
link_each promote verify_link settings account done [] = ok done
link_each promote verify_link settings account done (l ∷ ls) =
    and_then (resolve_link verify_link settings l) (λ resolved.
      link_each promote verify_link settings account
        (link_to promote done.0 account done.1 (some (currency_of resolved.0)) resolved) ls)

-- The store is inserted and audited before its links are read.
abbrev pub insert_store : Db → ℕ → Text → Instant → StoreCreate → Db × Store
insert_store db account public_id now payload =
    let store = new_store db.next_store public_id account now payload in
    let inserted : Db = record db {
      stores = db.stores ++ store ∷ [];
      next_store = db.next_store + 1;
    } in
    (
      audit_store account (AuditAction.store_created payload.name payload.external_id) store.id
          inserted,
      store,
    )

-- `public_id` is drawn at random. An error rolls the session back.
unfoldable pub create_store :
    (Text → LinkCheck)
    → Settings
    → Db
    → Account
    → Text
    → Instant
    → StoreCreate
    → Result LinkError (Db × Store)
unfolding links_from
create_store verify_link settings db account public_id now payload =
    refuse_branding account payload.brand_color payload.logo_image_url payload.whitelabel_css (
      and_then (links_from payload.link payload.links) (
        link_each (make_active now) verify_link settings account.id
          (insert_store db account.id public_id now payload)))
