-- ===== src/Stores/Opened.antt =====
-- The destinations of a new store: `create_store` of services/stores.py.
use chmabapay.Base.{
  ltb, count_where_mono, strip, lower, contains, codes, is_nonempty, Bool-cases, inl, inr, any_of,
  ℕ, ◌+◌, ◌≡◌, refl, sym, ap, ◌∙◌, Bool, false, not, Option, some, List, [], ◌∷◌, ◌++◌, length,
  count_where-zero→find_by, count_where, count_where-append, any_of, ◌==◌, if◌then◌else◌, Text,
  refuse, and_then, Result, arith,
}
use mathlib.Core.Path.{subst}
use chmabapay.Base.Results.{ok, refuse-ok, and_then-ok, ok_injective}
use chmabapay.Base.Money.{normalize_currency}
use chmabapay.Model.{Instant, Account, Store, PaymentLink, Verification, Db, Settings}
use chmabapay.Stores.Links.{
  link_and_links, too_many_links, whitelabel_not_enabled, LinkError, duplicate_link_currency,
  link_required, link_host, link_slug, payway_link_not_found, khr_currency_disabled,
  payway_link_currency_mismatch, payway_link_currency_unverified, is_bare_slug, refuse_shape,
  refuse_currency, is_other, LinkIn, LinkOutcome, LinkCheck, resolve_link, verified_as, new_link,
  is_destination, write_link, attach_link_to_store,
}
use chmabapay.Stores.Attach.{activate, make_active, link_to}
use chmabapay.Stores.Create.{
  names_both, StoreCreate, candidates, currency_of, is_seen, refuse_repeats, links_from, link_each,
  insert_store, create_store,
}

-- The destinations that a store has.
abbrev pub link_count : ℕ → Db → ℕ
link_count store db = count_where (λ l. l.store_id == store) db.payment_links

-- No currency outside `seen` has a destination of the store.
abbrev HasOnly : List Text → ℕ → Db → Type 0
HasOnly seen store db =
    (c : Text) → is_seen c seen ≡ false → count_where (is_destination store c) db.payment_links ≡ 0

activate-id :
    (now : Instant) (v : Verification) (s : Store) → (activate (make_active now) v s).id ≡ s.id
activate-id now Verification.verified s = ground arith
activate-id now Verification.unverified s = refl

verified_as-currency :
    (l : LinkIn) (check : LinkCheck) (o : LinkOutcome)
    → (verified_as l check o).0.currency ≡ l.currency
verified_as-currency l check LinkOutcome.confirmed = refl
verified_as-currency l check LinkOutcome.not_found = refl
verified_as-currency l check LinkOutcome.inconclusive = refl

refuse_shape-ok :
    {A : Type 0} (s : Text) (rest : Result LinkError A) (a : A)
    → refuse_shape s rest ≡ ok a
    → rest ≡ ok a
refuse_shape-ok s rest a h =
    let slash = any_of (λ c. c == b'/') s in
    let foreign = not (contains (codes "payway.com.kh") (lower s)) in
    let (_, h1) =
      refuse-ok (not (is_nonempty s)) link_required
        (if slash
          then refuse foreign link_host rest
          else refuse (not (is_bare_slug s)) link_slug rest)
        a h in
    elim (Bool-cases slash) [
      | inl found ↦ (refuse-ok foreign link_host rest a (ground (arith, found, h1))).1
      | inr absent ↦
          (refuse-ok (not (is_bare_slug s)) link_slug rest a (ground (arith, absent, h1))).1
    ]

refuse_currency-ok :
    {A : Type 0} (settings : Settings) (l : LinkIn) (check : LinkCheck) (rest : Result LinkError A)
    (a : A)
    → refuse_currency settings l check rest ≡ ok a
    → rest ≡ ok a
refuse_currency-ok settings l check rest a h =
    let requested = currency_of l in
    let (_, h1) = refuse-ok _ khr_currency_disabled _ a h in
    let (_, h2) =
      refuse-ok (is_other check.currency requested) payway_link_currency_mismatch _ a h1 in
    (refuse-ok _ payway_link_currency_unverified rest a h2).1

resolve_link-currency :
    (verify_link : Text → LinkCheck) (settings : Settings) (l : LinkIn) (r : LinkIn × Verification)
    → resolve_link verify_link settings l ≡ ok r
    → currency_of r.0 ≡ currency_of l
unfolding resolve_link
resolve_link-currency verify_link settings l r h =
    let check = verify_link (strip l.raw_link) in
    let h1 = refuse_shape-ok (strip l.raw_link) _ r h in
    let (_, h2) = refuse-ok _ payway_link_not_found _ r h1 in
    let h3 = refuse_currency-ok settings l check _ r h2 in
    ap (λ t. normalize_currency (some t))
      (sym (ap (λ (q : LinkIn × Verification). q.0.currency) (ok_injective _ r h3))
        ∙ verified_as-currency l check check.outcome)

attach_link_to_store-absent :
    (db : Db) (store : ℕ) (l : LinkIn) (v : Verification)
    → count_where (is_destination store (currency_of l)) db.payment_links ≡ 0
    → (attach_link_to_store db store l v).payment_links
      ≡ db.payment_links ++ new_link db.next_link store l v ∷ []
unfolding attach_link_to_store
attach_link_to_store-absent db store l v h =
    ap (λ o. (write_link db store l v o).payment_links)
      (count_where-zero→find_by (is_destination store (currency_of l)) db.payment_links h)

module _ (now : Instant) (db : Db) (account : ℕ) (store : Store) (currency : Option Text)
    (r : LinkIn × Verification) where
  abbrev linked : Db
  linked = (link_to (make_active now) db account store currency r).0

  count-linked :
      (p : PaymentLink → Bool)
      → count_where (is_destination store.id (currency_of r.0)) db.payment_links ≡ 0
      → count_where p linked.payment_links
        ≡ count_where p db.payment_links
          + (if p (new_link db.next_link store.id r.0 r.1) then 1 else 0)
  count-linked p h =
      let row = new_link db.next_link store.id r.0 r.1 in
      ground (
        arith,
        ap (count_where p) (attach_link_to_store-absent db store.id r.0 r.1 h),
        count_where-append p db.payment_links (row ∷ []),
      )

  link_to-count :
      count_where (is_destination store.id (currency_of r.0)) db.payment_links ≡ 0
      → link_count store.id linked ≡ link_count store.id db + 1
  link_to-count h = ground (arith, count-linked (λ l. l.store_id == store.id) h)

  link_to-HasOnly :
      (seen : List Text)
      → is_seen (currency_of r.0) seen ≡ false
      → HasOnly seen store.id db
      → HasOnly (currency_of r.0 ∷ seen) store.id linked
  link_to-HasOnly seen fresh only c h =
      ground
        (arith, h, only c, count-linked (is_destination store.id c) (only (currency_of r.0) fresh))

refuse_repeats-returns :
    {A : Type 0} (seen : List Text) (ls : List LinkIn) (b a : A)
    → refuse_repeats seen ls (ok b) ≡ ok a
    → a ≡ b
refuse_repeats-returns seen [] b a h = sym (ok_injective b a h)
refuse_repeats-returns seen (l ∷ ls) b a h =
    refuse_repeats-returns (currency_of l ∷ seen) ls b a
      (refuse-ok (is_seen (currency_of l) seen) duplicate_link_currency
        (refuse_repeats (currency_of l ∷ seen) ls (ok b)) a h).1

module _ (now : Instant) (verify_link : Text → LinkCheck) (settings : Settings) (account : ℕ) where
  link_each-count :
      {A : Type 0} (ls : List LinkIn) (seen : List Text) (rest : Result LinkError A) (a : A)
      (db : Db) (store : Store) (done : Db × Store)
      → HasOnly seen store.id db
      → refuse_repeats seen ls rest ≡ ok a
      → link_each (make_active now) verify_link settings account (db, store) ls ≡ ok done
      → (done.1.id ≡ store.id) × (link_count store.id done.0 ≡ link_count store.id db + length ls)
  link_each-count [] seen rest a db store done only distinct h =
      let same = ok_injective _ done h in
      (
        ap (λ (q : Db × Store). q.1.id) (sym same),
        ground (arith, ap (λ (q : Db × Store). link_count store.id q.0) (sym same)),
      )
  link_each-count (l ∷ ls) seen rest a db store done only distinct h =
      let (fresh, distinct1) =
        refuse-ok (is_seen (currency_of l) seen) duplicate_link_currency
          (refuse_repeats (currency_of l ∷ seen) ls rest) a distinct in
      let body : LinkIn × Verification → Result LinkError (Db × Store) = λ r.
        link_each (make_active now) verify_link settings account
          (link_to (make_active now) db account store (some (currency_of r.0)) r) ls in
      let (r, e, h1) = and_then-ok (resolve_link verify_link settings l) body done h in
      let cur = resolve_link-currency verify_link settings l r e in
      let named = some (currency_of r.0) in
      let unseen : is_seen (currency_of r.0) seen ≡ false = ap (λ c. is_seen c seen) cur ∙ fresh in
      let distinct2 : refuse_repeats (currency_of r.0 ∷ seen) ls rest ≡ ok a =
        ap (λ c. refuse_repeats (c ∷ seen) ls rest) cur ∙ distinct1 in
      let next = linked now db account store named r in
      let own = activate-id now r.1 store in
      let (key, count) =
        link_each-count ls (currency_of r.0 ∷ seen) rest a next
          (activate (make_active now) r.1 store) done
          (subst (λ k. HasOnly (currency_of r.0 ∷ seen) k next) (sym own)
            (link_to-HasOnly now db account store named r seen unseen only))
          distinct2 h1 in
      let counted = subst (λ k. link_count k done.0 ≡ link_count k next + length ls) own count in
      (
        key ∙ own,
        omega (
          arith,
          counted,
          link_to-count now db account store named r (only (currency_of r.0) unseen),
        ),
      )

-- A store that a request creates has the next key, and as many links as the request names, by
-- `link` or by `links`: none of them overwrites another one. It assumes that no link refers to
-- the next key before.
pub create_store-links :
    (verify_link : Text → LinkCheck) (settings : Settings) (db : Db) (account : Account)
    (public_id : Text) (now : Instant) (payload : StoreCreate) (done : Db × Store)
    → link_count db.next_store db ≡ 0
    → create_store verify_link settings db account public_id now payload ≡ ok done
    → (done.1.id ≡ db.next_store)
      × (link_count db.next_store done.0 ≡ length (candidates payload.link payload.links))
unfolding create_store links_from
create_store-links verify_link settings db account public_id now payload done fresh h =
    let links = candidates payload.link payload.links in
    let (inserted, store) = insert_store db account.id public_id now payload in
    let body = link_each (make_active now) verify_link settings account.id (inserted, store) in
    let (_, h1) =
      refuse-ok _ whitelabel_not_enabled (and_then (links_from payload.link payload.links) body)
        done h in
    let (ls, e, h2) = and_then-ok (links_from payload.link payload.links) body done h1 in
    let (_, e1) = refuse-ok (names_both payload.link payload.links) link_and_links _ ls e in
    let (_, e2) = refuse-ok (ltb 2 (length links)) too_many_links _ ls e1 in
    let same : ls ≡ links = refuse_repeats-returns [] links links ls e2 in
    let only : HasOnly [] db.next_store inserted = λ c _. omega (
      arith,
      fresh,
      count_where_mono (is_destination db.next_store c) (λ l. l.store_id == db.next_store)
          db.payment_links (λ l. ground arith),
    ) in
    let (key, count) =
      link_each-count now verify_link settings account.id links [] (ok links) ls inserted store done
        only e2 (ap body (sym same) ∙ h2) in
    (key, omega (arith, fresh, count))
