-- ===== src/Stores/Patched.antt =====
-- The keys of links through `update_store` of services/stores.py.
use mathlib.Core.Path.{subst}
use chmabapay.Base.{
  ℕ, ◌≤◌, ◌≡◌, refl, sym, ap, ◌∙◌, Option, none, some, List, [], ◌∷◌, find_by, count_where,
  count_where-append, count_where-update_same, HasUniqueKeys, update_where, ◌==◌, Text,
  Option-cases, inl, inr, and_then, Result, arith,
}
use chmabapay.Base.Results.{ok, refuse-ok, and_then-ok, ok_injective}
use chmabapay.Model.{Instant, Account, Store, PaymentLink, Verification, Db, Settings}
use chmabapay.Stores.{get_store}
use chmabapay.Stores.Slot.{is_disabled}
use chmabapay.Stores.Links.{
  LinkError, store_disabled, whitelabel_not_enabled, LinkIn, LinkCheck, resolve_link, set_link,
  new_link, is_destination, write_link, attach_link_to_store,
}
use chmabapay.Stores.Attach.{link_to, store_or}
use chmabapay.Stores.Create.{currency_of, links_from, link_each}
use chmabapay.Stores.Update.{
  apply_to, StorePatch, promote_draft, audit_patch, write_patch, carried_link, link_patch,
  update_loaded, update_store,
}
use chmabapay.Stores.Destinations.{HasOneDestination, attach_link_to_store-HasOneDestination}

-- The primary keys of links are unique and below the next one, and no two links of a store have
-- one currency.
pub record HasLinkKeys (db : Db) : Type 0 where
  pub is_unique : HasUniqueKeys (λ l. l.id) db.payment_links
  pub is_fresh : (k : ℕ) → db.next_link ≤ k → count_where (λ l. l.id == k) db.payment_links ≡ 0
  pub is_single : HasOneDestination db

write_link-is_unique :
    (db : Db) (store : ℕ) (l : LinkIn) (v : Verification) (o : Option PaymentLink)
    → HasLinkKeys db
    → HasUniqueKeys (λ x. x.id) (write_link db store l v o).payment_links
write_link-is_unique db store l v none h k =
    let row = new_link db.next_link store l v in
    ground (
      arith,
      h.is_unique k,
      h.is_fresh k,
      count_where-append (λ x. x.id == k) db.payment_links (row ∷ []),
    )
write_link-is_unique db store l v (some link) h k = ground (
  arith,
  h.is_unique k,
  count_where-update_same (λ x. x.id == k) (λ x. x.id == link.id) (set_link l v) db.payment_links
      (λ x. refl),
)

write_link-is_fresh :
    (db : Db) (store : ℕ) (l : LinkIn) (v : Verification) (o : Option PaymentLink)
    → HasLinkKeys db
    → (k : ℕ) → (write_link db store l v o).next_link ≤ k
    → count_where (λ x. x.id == k) (write_link db store l v o).payment_links ≡ 0
write_link-is_fresh db store l v none h k next =
    let row = new_link db.next_link store l v in
    ground (
      arith,
      next,
      h.is_fresh k (omega (arith, next)),
      count_where-append (λ x. x.id == k) db.payment_links (row ∷ []),
    )
write_link-is_fresh db store l v (some link) h k next =
    count_where-update_same (λ x. x.id == k) (λ x. x.id == link.id) (set_link l v) db.payment_links
      (λ x. refl)
    ∙ h.is_fresh k next

attach_link_to_store-HasLinkKeys :
    (db : Db) (store : ℕ) (l : LinkIn) (v : Verification)
    → HasLinkKeys db
    → HasLinkKeys (attach_link_to_store db store l v)
unfolding attach_link_to_store
attach_link_to_store-HasLinkKeys db store l v h =
    let found = find_by (is_destination store (currency_of l)) db.payment_links in
    record {
      is_unique = write_link-is_unique db store l v found h;
      is_fresh = write_link-is_fresh db store l v found h;
      is_single = attach_link_to_store-HasOneDestination db store l v h.is_unique h.is_single;
    }

-- The writes of another table.
keep-HasLinkKeys :
    (db db' : Db)
    → db'.payment_links ≡ db.payment_links
    → db'.next_link ≡ db.next_link
    → HasLinkKeys db
    → HasLinkKeys db'
keep-HasLinkKeys db db' rows next h = record {
  is_unique = λ k. ground (arith, ap (count_where (λ l. l.id == k)) rows, h.is_unique k);
  is_fresh =
      λ k above. ap (count_where (λ l. l.id == k)) rows ∙ h.is_fresh k (omega (arith, above, next));
  is_single = λ s c. ground (arith, ap (count_where (is_destination s c)) rows, h.is_single s c);
}

link_each-HasLinkKeys :
    (promote : Store → Store) (verify_link : Text → LinkCheck) (settings : Settings) (account : ℕ)
    (ls : List LinkIn) (from done : Db × Store)
    → HasLinkKeys from.0
    → link_each promote verify_link settings account from ls ≡ ok done
    → HasLinkKeys done.0
link_each-HasLinkKeys promote verify_link settings account [] from done v h =
    subst (λ (q : Db × Store). HasLinkKeys q.0) (ok_injective from done h) v
link_each-HasLinkKeys promote verify_link settings account (l ∷ ls) from done v h =
    let step : LinkIn × Verification → Db × Store =
      λ r. link_to promote from.0 account from.1 (some (currency_of r.0)) r in
    let body : LinkIn × Verification → Result LinkError (Db × Store) =
      λ r. link_each promote verify_link settings account (step r) ls in
    let (r, _, h1) = and_then-ok (resolve_link verify_link settings l) body done h in
    let linked = attach_link_to_store from.0 from.1.id r.0 r.1 in
    link_each-HasLinkKeys promote verify_link settings account ls (step r) done
      (keep-HasLinkKeys linked (step r).0 refl refl
        (attach_link_to_store-HasLinkKeys from.0 from.1.id r.0 r.1 v))
      h1

write_patch-HasLinkKeys :
    (db : Db) (account : ℕ) (patch : StorePatch) (now : Instant) (store : Store)
    → HasLinkKeys db
    → HasLinkKeys (write_patch db account patch now store).0
write_patch-HasLinkKeys db account patch now store v = go patch.fields_set
  where
    go :
        (fs : List Text)
        → let written : Db = record db {
          stores = update_where (λ s. s.id == store.id) (apply_to patch now) db.stores;
        } in
          HasLinkKeys (audit_patch account store fs written)
    go [] = keep-HasLinkKeys db _ refl refl v
    go (f ∷ fs) = keep-HasLinkKeys db _ refl refl v

update_loaded-HasLinkKeys :
    (verify_link : Text → LinkCheck) (settings : Settings) (now : Instant) (db : Db)
    (account : Account) (patch : StorePatch) (store : Store) (done : Db × Store)
    → HasLinkKeys db
    → update_loaded verify_link settings now db account patch store ≡ ok done
    → HasLinkKeys done.0
update_loaded-HasLinkKeys verify_link settings now db account patch store done v h =
    let from = write_patch db account.id patch now store in
    let each = link_each (promote_draft now) verify_link settings account.id from in
    let body : Option LinkIn → Result LinkError (Db × Store) =
      λ link. and_then (links_from link patch.links) each in
    let (_, h1) = refuse-ok (is_disabled store.status) store_disabled _ done h in
    let (_, h2) =
      refuse-ok _ whitelabel_not_enabled (link_patch verify_link settings now account.id patch from)
        done h1 in
    let (link, _, h3) = and_then-ok (carried_link from.0 from.1.id patch.link) body done h2 in
    let (ls, _, h4) = and_then-ok (links_from link patch.links) each done h3 in
    link_each-HasLinkKeys (promote_draft now) verify_link settings account.id ls from done
      (write_patch-HasLinkKeys db account.id patch now store v) h4

-- An update of a store that succeeds, whatever fields and links it sends and whatever PayWay
-- answers about them, keeps the keys of the links unique and below the next key, and at most one
-- link for each store and currency.
pub update_store-HasLinkKeys :
    (verify_link : Text → LinkCheck) (settings : Settings) (now : Instant) (db : Db)
    (account : Account) (store_public_id : Text) (patch : StorePatch) (done : Db × Store)
    → HasLinkKeys db
    → update_store verify_link settings now db account store_public_id patch ≡ ok done
    → HasLinkKeys done.0
unfolding update_store
update_store-HasLinkKeys verify_link settings now db account store_public_id patch done v h =
    let body = update_loaded verify_link settings now db account patch in
    elim (Option-cases (get_store db account.id store_public_id)) [
      | inl gone ↦ absurd (ground (arith, ap (λ o. store_or o body) (sym gone) ∙ h))
      | inr (store, e) ↦
          update_loaded-HasLinkKeys verify_link settings now db account patch store done v
            (ap (λ o. store_or o body) (sym e) ∙ h)
    ]
