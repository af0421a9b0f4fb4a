-- ===== src/Stores/Destinations.antt =====
-- A store has at most one link for each currency: `attach_link` of services/stores.py.
use mathlib.Core.Path.{subst}
use chmabapay.Base.{
  count_where_le_add, ℕ, ◌≤◌, ◌≡◌, sym, ap, ◌∙◌, Bool, true, not, ◌&&◌, none, some, List, [], ◌∷◌,
  find_by, find_by-holds, find_by-counted, find_by-none→count, count_where, count_where-append,
  count_where-update, count_where_unique, HasUniqueKeys, ◌==◌, if◌then◌else◌, Text, text_eq,
  text_eq→≡, Option-cases, Bool-cases, inl, inr, and_then, Result, arith,
}
use chmabapay.Base.Results.{ok, refuse-ok, and_then-ok, ok_injective}
use chmabapay.Base.Money.{normalize_currency}
use chmabapay.Model.{Instant, Store, PaymentLink, Verification, Db, Settings}
use chmabapay.Stores.{get_store}
use chmabapay.Stores.Slot.{is_disabled}
use chmabapay.Stores.Links.{
  LinkError, store_disabled, LinkIn, LinkCheck, resolve_link, carry_forward_currency, set_link,
  new_link, is_destination, write_link, attach_link_to_store,
}
use chmabapay.Stores.Attach.{attached, attach_to, store_or, attach_link}

-- The unique constraint `uq_store_link_currency`.
abbrev pub HasOneDestination : Db → Type 0
HasOneDestination db =
    (store : ℕ) (currency : Text) → count_where (is_destination store currency) db.payment_links ≤ 1

find_by-key :
    {A : Type 0} (key : A → ℕ) (p : A → Bool) (xs : List A) (x : A)
    → HasUniqueKeys key xs
    → find_by p xs ≡ some x
    → find_by (λ y. key y == key x) xs ≡ some x
find_by-key key p [] x u h = absurd (ground (arith, h))
find_by-key key p (y ∷ ys) x u h = elim (Bool-cases (p y)) [
  | inl here ↦ let same : y ≡ x = ground (arith, here, h) in ground (arith, ap key same, same)
  | inr there ↦
      let rest : find_by p ys ≡ some x = ground (arith, there, h) in
      let unique : HasUniqueKeys key ys = λ k. ground (arith, u k) in
      let more = find_by-key key p ys x unique rest in
      ground
        (arith, u (key x), more, find_by-counted p (λ z. key z == key x) ys x rest (ground arith))
]

-- Two texts that are compared with a third one.
text_eq-same : (s t c : Text) → text_eq s t ≡ true → text_eq t c ≡ text_eq s c
text_eq-same s t c h = ap (λ u. text_eq u c) (sym (text_eq→≡ s t h))

module _ (db : Db) (store : ℕ) (payload : LinkIn) (verification : Verification) where
  abbrev requested : Text
  requested = normalize_currency (some payload.currency)

  new_link-HasOneDestination :
      HasOneDestination db
      → find_by (is_destination store requested) db.payment_links ≡ none
      → HasOneDestination (write_link db store payload verification none)
  new_link-HasOneDestination v gone s c =
      let row = new_link db.next_link store payload verification in
      elim (Bool-cases (is_destination s c row)) [
        | inl here ↦
            let mine : (store == s) ≡ true = ground (arith, here) in
            let same : text_eq requested c ≡ true = ground (arith, here) in
            let own : store ≡ s = ground (arith, mine) in
            let none_yet =
              find_by-none→count (is_destination store requested) db.payment_links gone in
            let there : count_where (is_destination s c) db.payment_links ≡ 0 =
              subst (λ k. count_where (is_destination k c) db.payment_links ≡ 0) own
                (subst (λ t. count_where (is_destination store t) db.payment_links ≡ 0)
                  (text_eq→≡ requested c same) none_yet) in
            ground
              (arith, there, count_where-append (is_destination s c) db.payment_links (row ∷ []))
        | inr there ↦ ground (
          arith,
          there,
          v s c,
          count_where-append (is_destination s c) db.payment_links (row ∷ []),
        )
      ]

  set_link-HasOneDestination :
      (link : PaymentLink)
      → HasUniqueKeys (λ l. l.id) db.payment_links
      → HasOneDestination db
      → find_by (is_destination store requested) db.payment_links ≡ some link
      → HasOneDestination (write_link db store payload verification (some link))
  set_link-HasOneDestination link u v found s c =
      let xs = db.payment_links in
      let here = λ (l : PaymentLink). l.id == link.id in
      let other = λ (l : PaymentLink). here l && not (text_eq l.currency requested) in
      let mine = find_by-holds (is_destination store requested) xs link found in
      let by_key = find_by-key (λ l. l.id) (is_destination store requested) xs link u found in
      let unique =
        count_where_unique (λ l. l.id) link.id (λ l. not (text_eq l.currency requested)) xs link u
          by_key in
      let alone : count_where other xs ≡ 0 = ground (arith, mine, unique) in
      let moved = λ (l : PaymentLink).
        if here l
        then is_destination s c (set_link payload verification l)
        else is_destination s c l in
      omega (
        arith,
        v s c,
        alone,
        count_where-update (is_destination s c) here (set_link payload verification) xs,
        count_where_le_add moved (is_destination s c) other xs
            (λ l. ground (arith, text_eq-same l.currency requested c)),
      )

pub attach_link_to_store-HasOneDestination :
    (db : Db) (store : ℕ) (payload : LinkIn) (verification : Verification)
    → HasUniqueKeys (λ l. l.id) db.payment_links
    → HasOneDestination db
    → HasOneDestination (attach_link_to_store db store payload verification)
unfolding attach_link_to_store
attach_link_to_store-HasOneDestination db store payload verification u v =
    let found =
      find_by (is_destination store (normalize_currency (some payload.currency)))
        db.payment_links in
    let write = write_link db store payload verification in
    elim (Option-cases found) [
      | inl gone ↦
          subst HasOneDestination (ap write (sym gone))
            (new_link-HasOneDestination db store payload verification v gone)
      | inr (link, e) ↦
          subst HasOneDestination (ap write (sym e))
            (set_link-HasOneDestination db store payload verification link u v e)
    ]

attach_to-HasOneDestination :
    (verify_link : Text → LinkCheck) (settings : Settings) (now : Instant) (db : Db) (account : ℕ)
    (payload : LinkIn) (store : Store) (done : Db × Store)
    → HasUniqueKeys (λ l. l.id) db.payment_links
    → HasOneDestination db
    → attach_to verify_link settings now db account payload store ≡ ok done
    → HasOneDestination done.0
attach_to-HasOneDestination verify_link settings now db account payload store done u v h =
    let body : LinkIn → Result LinkError (Db × Store) = λ carried.
      and_then (resolve_link verify_link settings carried) (attached now db account store) in
    let kept = carry_forward_currency db store.id payload in
    let (_, h1) = refuse-ok (is_disabled store.status) store_disabled (and_then kept body) done h in
    let (carried, _, h2) = and_then-ok kept body done h1 in
    let (resolved, _, h3) =
      and_then-ok (resolve_link verify_link settings carried) (attached now db account store) done
        h2 in
    subst (λ (r : Db × Store). HasOneDestination r.0) (ok_injective _ done h3)
      (attach_link_to_store-HasOneDestination db store.id resolved.0 resolved.1 u v)

-- Attaching a link to a store, whatever PayWay answers about it, keeps at most one link for each
-- store and currency. It assumes that the keys of the links are unique.
attach_link-HasOneDestination :
    (verify_link : Text → LinkCheck) (settings : Settings) (now : Instant) (db : Db) (account : ℕ)
    (store_public_id : Text) (payload : LinkIn) (done : Db × Store)
    → HasUniqueKeys (λ l. l.id) db.payment_links
    → HasOneDestination db
    → attach_link verify_link settings now db account store_public_id payload ≡ ok done
    → HasOneDestination done.0
unfolding attach_link
attach_link-HasOneDestination verify_link settings now db account store_public_id payload done u v
      h =
    let body = attach_to verify_link settings now db account payload in
    elim (Option-cases (get_store db account store_public_id)) [
      | inl gone ↦ absurd (ground (arith, ap (λ o. store_or o body) (sym gone) ∙ h))
      | inr (store, e) ↦
          attach_to-HasOneDestination verify_link settings now db account payload store done u v
            (ap (λ o. store_or o body) (sym e) ∙ h)
    ]
