-- ===== src/Payments/Sweep.antt =====
-- What the expiry sweep leaves alone.
use chmabapay.Base.{
  ℕ, ◌≡◌, refl, ◌∙◌, Bool, false, ◌&&◌, some, List, [], ◌∷◌, All, All-take, All-sort, select,
  sort_by, count_where, count_where_unique, HasUniqueKeys, Option-cases, Bool-cases, inl, inr, ◌==◌,
  arith,
}
use chmabapay.Model.{Instant, Payment, PaymentStatus, EventType, Db}
use chmabapay.Payments.Confirm.{ok, store_of, set_payment_status, update_payment, get_payment}
use chmabapay.Payments.Expiry.{
  is_synthetic, is_expired_by, due_payments, expire_one, expire_each_payment, expire_due_payments,
}
use chmabapay.Payments.Repeat.{enqueue_event-Keeps, find_by-missed}

select-apart :
    (p : Payment → Bool) (k : ℕ) (xs : List Payment)
    → count_where (λ y. (y.id == k) && p y) xs ≡ 0
    → All (λ d. (k == d.id) ≡ false) (select p xs)
select-apart p k [] h = tt
select-apart p k (x ∷ xs) h = ground (arith, select-apart p k xs)

expire_one-find :
    (db db' : Db) (p x : Payment) (k : ℕ)
    → (x.id == p.id) ≡ false
    → get_payment db k ≡ some x
    → expire_one db p ≡ some db'
    → get_payment db' k ≡ some x
unfolding expire_one
expire_one-find db db' p x k apart found done =
    let over = set_payment_status PaymentStatus.expired in
    let written = update_payment p.id over db in
    let kept =
      find_by-missed (λ y. y.id == k) (λ y. y.id == p.id) over db.payments x (λ y. refl) found
        apart in
    elim (Bool-cases (is_synthetic p.reference_id p.metadata)) [
      | inl probe ↦ ground (arith, probe, done, kept)
      | inr sale ↦ elim (Option-cases (store_of db p.store_id)) [
        | inl gone ↦ absurd (ground (arith, sale, gone, done))
        | inr (store, owner) ↦ ground (
          arith,
          sale,
          owner,
          done,
          kept,
          enqueue_event-Keeps written (over p) store EventType.expired,
        )
      ]
    ]

expire_each-find :
    (due : List Payment) (db db' : Db) (x : Payment)
    → All (λ d. (x.id == d.id) ≡ false) due
    → get_payment db x.id ≡ some x
    → expire_each_payment due db ≡ some db'
    → get_payment db' x.id ≡ some x
unfolding expire_each_payment
expire_each-find [] db db' x apart found done = ground (arith, found, done)
expire_each-find (p ∷ due) db db' x (here, apart) found done =
    elim (Option-cases (expire_one db p)) [
      | inl gone ↦ absurd (ground (arith, gone, done))
      | inr (mid, e) ↦
          expire_each-find due mid db' x apart (expire_one-find db mid p x x.id here found e)
            (ground (arith, e, done))
    ]

expire_due_payments-result :
    (db : Db) (now : Instant) (swept : List Payment)
    → (expire_due_payments db now).1 ≡ ok swept
    → expire_each_payment (due_payments db now) db ≡ some (expire_due_payments db now).0
unfolding expire_due_payments
expire_due_payments-result db now swept done =
    elim (Option-cases (expire_each_payment (due_payments db now) db)) [
      | inl gone ↦ absurd (ground (arith, gone, done))
      | inr (db', e) ↦ ground (arith, e)
    ]

-- An expiry sweep that succeeds leaves the row of a payment as it is where the payment is not
-- pending or scanned, or where its expiry has not come. It assumes that payment keys are unique.
pub expire_due_payments-keeps :
    (db : Db) (now : Instant) (x : Payment) (swept : List Payment)
    → HasUniqueKeys (λ p. p.id) db.payments
    → get_payment db x.id ≡ some x
    → is_expired_by now x ≡ false
    → (expire_due_payments db now).1 ≡ ok swept
    → get_payment (expire_due_payments db now).0 x.id ≡ some x
unfolding due_payments
expire_due_payments-keeps db now x swept keys found kept done =
    expire_each-find (due_payments db now) db (expire_due_payments db now).0 x
      (All-take (λ d. (x.id == d.id) ≡ false) 200
        (sort_by (λ p. p.id) (select (is_expired_by now) db.payments))
        (All-sort (λ d. (x.id == d.id) ≡ false) (λ p. p.id) (select (is_expired_by now) db.payments)
          (select-apart (is_expired_by now) x.id db.payments (
            count_where_unique (λ p. p.id) x.id (is_expired_by now) db.payments x keys found
            ∙ rw kept refl))))
      found (expire_due_payments-result db now swept done)
