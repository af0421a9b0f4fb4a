-- ===== src/Examples/Links.antt =====
-- Links of stores at concrete data.
use chmabapay.Base.{
  Text, ◌≡◌, refl, arith, true, none, some, [], ◌∷◌, codes, length, contains, if◌then◌else◌,
}
use chmabapay.Base.Results.{result_or}
use chmabapay.Model.{StoreStatus, Store, Db}
use chmabapay.Stores.Links.{
  LinkIn, LinkOutcome, LinkCheck, resolve_link, carry_forward_currency, attach_link_to_store,
}
use chmabapay.Stores.Update.{StorePatch, update_store}
use chmabapay.Stores.Patched.{HasLinkKeys, update_store-HasLinkKeys}
use chmabapay.Stores.Create.{StoreCreate, candidates, links_from, create_store}
use chmabapay.Stores.Opened.{link_count, create_store-links}
use chmabapay.Examples.Data.{a_db, a_store, a_link, merchant, settings}

abbrev counter : Store
counter = a_store 4 none StoreStatus.active

abbrev till : Db
till = record (a_db (counter ∷ []) [] []) {
  payment_links = record (a_link 1) { raw_link = codes "https://link.payway.com.kh/x" } ∷ [];
}

abbrev riel : LinkIn
riel = record {
  raw_link = codes "ABAPAYriel";
  merchant_account_id = codes "012345678";
  merchant_name = none;
  currency = codes "KHR";
  names_currency = true;
}

-- A link settles in riel where its slug ends in "riel".
abbrev checked : Text → LinkCheck
checked raw = record {
  outcome = LinkOutcome.confirmed;
  merchant_name = some (codes "Coffee");
  currency = some (if contains (codes "riel") raw then codes "KHR" else codes "USD");
}

-- The single link of a request that names the currency.
abbrev second_link : StorePatch
second_link = record {
  name = some (codes "Corner");
  external_id = some none;
  city = none;
  support_email = none;
  redirect_success_url = none;
  redirect_failure_url = none;
  telegram_chat_id = none;
  brand_color = none;
  logo_image_url = none;
  whitelabel_css = none;
  link = some riel;
  links = none;
  fields_set = codes "external_id" ∷ codes "link" ∷ codes "name" ∷ [];
}

abbrev both_currencies : Db × Store
both_currencies =
    result_or (till, counter)
      (update_store checked (record settings { enable_khr_currency = true }) 7 till merchant
        (b's' ∷ b'4' ∷ []) second_link)

till-HasLinkKeys : HasLinkKeys till
till-HasLinkKeys = record {
  is_unique = λ k. ground arith;
  is_fresh = λ k above. ground (arith, above);
  is_single = λ store currency. ground arith;
}

update_store-HasLinkKeys_example : HasLinkKeys both_currencies.0
unfolding update_store resolve_link carry_forward_currency attach_link_to_store links_from
update_store-HasLinkKeys_example =
    update_store-HasLinkKeys checked (record settings { enable_khr_currency = true }) 7 till
      merchant (b's' ∷ b'4' ∷ []) second_link both_currencies till-HasLinkKeys refl

abbrev opening : StoreCreate
opening = record {
  name = codes "Market";
  external_id = none;
  city = codes "Phnom Penh";
  support_email = none;
  redirect_success_url = none;
  redirect_failure_url = none;
  telegram_chat_id = none;
  brand_color = none;
  logo_image_url = none;
  whitelabel_css = none;
  link = none;
  links = some (riel ∷ record riel { raw_link = codes "ABAPAYusd"; currency = codes "USD" } ∷ []);
}

abbrev opened : Db × Store
opened =
    result_or (till, counter)
      (create_store checked (record settings { enable_khr_currency = true }) till merchant
        (codes "st_1") 7 opening)

create_store-links_example :
    (opened.1.id ≡ till.next_store)
    × (link_count till.next_store opened.0 ≡ length (candidates opening.link opening.links))
unfolding create_store links_from resolve_link attach_link_to_store
create_store-links_example =
    create_store-links checked (record settings { enable_khr_currency = true }) till merchant
      (codes "st_1") 7 opening opened refl refl
