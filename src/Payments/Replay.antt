-- ===== src/Payments/Replay.antt =====
-- An order that is sent again with its idempotency key.
use mathlib.Core.Path.{subst}
use chmabapay.Base.{
  ℕ, ◌≡◌, refl, ◌∙◌, Bool, true, false, Option, none, some, [], ◌∷◌, inl, inr, ◌==◌, ◌&&◌, Text,
  is_nonempty, is_some_text, text_eq_refl, find_by-append_none, arith,
}
use chmabapay.Base.Results.{ok}
use chmabapay.Model.{Instant, Store, PaymentLink, Payment, Db, Settings}
use chmabapay.Payments.Mint.{Rail, load_active_link}
use chmabapay.Payments.Create.{
  Order, is_fractional_khr, find_replay, new_payment, add_payment, create_payment,
}
use chmabapay.Payments.Accepted.{Sold, IsOpenFor, create_payment-sold}

-- Where an earlier payment has the key, it is what the body returns.
replayed :
    (rail : Rail) (settings : Settings) (db : Db) (store : Store) (order : Order)
    (link : PaymentLink) (p : Payment) (public_id : Text) (now : Instant)
    → IsOpenFor store order.reference_id order.metadata
    → load_active_link db store.id order.currency ≡ ok link
    → is_fractional_khr link order ≡ false
    → find_replay db store.id order.idempotency_key ≡ some p
    → create_payment rail settings db store order public_id now ≡ ok (db, (p, false))
unfolding create_payment
replayed rail settings db store order link p public_id now (enabled, free, sale) linked whole
      found =
    rw (create_payment, enabled, free, sale, linked, whole, found) refl

-- `bool(idempotency_key)`
abbrev pub is_named : Option Text → Bool
is_named none = false
is_named (some key) = is_nonempty key

find_replay-added :
    (db : Db) (store : ℕ) (key : Option Text) (p : Payment)
    → is_named key ≡ true
    → (p.store_id == store) ≡ true
    → p.idempotency_key ≡ key
    → find_replay db store key ≡ none
    → find_replay (add_payment p db) store key ≡ some p
find_replay-added db store none p named here same gone = absurd (ground (arith, named))
find_replay-added db store (some []) p named here same gone = absurd (ground (arith, named))
find_replay-added db store (some (c ∷ key)) p named here same gone =
    find_by-append_none (λ q. (q.store_id == store) && is_some_text q.idempotency_key (c ∷ key))
      db.payments (p ∷ []) gone
    ∙ rw (here, same, text_eq_refl (c ∷ key)) refl

-- An order with an idempotency key that was accepted and is sent again to the same store, at any
-- instant and whatever the gateway answers then, returns the payment of the first time as not
-- created, and the database stays as it is.
pub create_payment-replay :
    (rail again : Rail) (settings : Settings) (db : Db) (store : Store) (order : Order)
    (public_id public_id' : Text) (now later : Instant) (sold : Sold)
    → is_named order.idempotency_key ≡ true
    → create_payment rail settings db store order public_id now ≡ ok sold
    → create_payment again settings sold.0 store order public_id' later
      ≡ ok (sold.0, (sold.1.0, false))
unfolding load_active_link
create_payment-replay rail again settings db store order public_id public_id' now later sold named
      h =
    let (opened, (link, linked, whole, made)) =
      create_payment-sold rail settings db store order public_id now sold h in
    let Again = λ (s : Sold).
      create_payment again settings s.0 store order public_id' later ≡ ok (s.0, (s.1.0, false)) in
    elim made [
      | inl (existing, found, same) ↦ subst Again same (
          replayed again settings db store order link existing public_id' later opened linked whole
            found)
      | inr (gone, _, (minted, _, same)) ↦
          let new = new_payment db store link order public_id now minted in
          subst Again same (
            replayed again settings (add_payment new db) store order link new public_id' later
              opened linked whole
              (find_replay-added db store.id order.idempotency_key new named (ground arith) refl
                gone))
    ]
