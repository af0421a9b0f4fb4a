-- ===== src/Billing/Live.antt =====
-- The subscriptions in force of an account: `retire_live_subscriptions` and `activate_subscription`
-- of services/billing.py.
use chmabapay.Base.{
  ℕ, ◌+◌, ◌≤◌, ◌≡◌, refl, sym, Bool, not, ◌&&◌, some, List, [], ◌∷◌, find_by, find_by-holds,
  count_where, count_where-update_same, count_where_mono, count_where_unique, HasUniqueKeys,
  count_where-update_le, update_where, leb, ◌==◌, if◌then◌else◌, Option-cases, Bool-cases, inl, inr,
  arith,
}
use chmabapay.Model.{Instant, PlanSubscription, Db}
use mathlib.Core.Path.{subst}
use chmabapay.Billing.Terms.{is_pending}
use chmabapay.Billing.Coverage.{
  cancel, is_live, retire_live_subscriptions, put_in_force, is_replaced, activate_subscription,
}

-- The subscriptions of a database: unique keys below the next one, and at most one subscription in
-- force for each account.
pub record AreValid (subscriptions : List PlanSubscription) (next : ℕ) : Type 0 where
  pub keys : HasUniqueKeys (λ s. s.id) subscriptions
  pub fresh : count_where (λ s. leb next s.id) subscriptions ≡ 0
  pub one_live : (account : ℕ) → count_where (is_live account) subscriptions ≤ 1

abbrev pub HasOneLive : Db → Type 0
HasOneLive db = AreValid db.subscriptions db.next_subscription

-- An update that keeps the keys, with what it does to the live ones.
pub update-AreValid :
    (m : PlanSubscription → Bool) (f : PlanSubscription → PlanSubscription)
    (xs : List PlanSubscription) (next : ℕ)
    → ((s : PlanSubscription) → (f s).id ≡ s.id)
    → AreValid xs next
    → ((account : ℕ) → count_where (is_live account) (update_where m f xs) ≤ 1)
    → AreValid (update_where m f xs) next
update-AreValid m f xs next keep v live = record {
  keys = λ k. omega (
    arith,
    v.keys k,
    count_where-update_same (λ s. s.id == k) m f xs (λ s. ground (arith, keep s)),
  );
  fresh = omega (
    arith,
    v.fresh,
    count_where-update_same (λ s. leb next s.id) m f xs (λ s. ground (arith, keep s)),
  );
  one_live = live;
}

retire-live :
    (account b : ℕ) (now : Instant) (xs : List PlanSubscription)
    → count_where (is_live b) (update_where (is_live account) (cancel now) xs)
      ≡ (if account == b then 0 else count_where (is_live b) xs)
retire-live account b now [] = ground arith
retire-live account b now (s ∷ xs) = ground (arith, retire-live account b now xs)

-- No subscription of the account stays in force, and no other account is concerned.
pub retire_live_subscriptions-HasOneLive :
    (db : Db) (account : ℕ) (now : Instant)
    → HasOneLive db
    → let db' = retire_live_subscriptions db account now in
      HasOneLive db' × (count_where (is_live account) db'.subscriptions ≡ 0)
unfolding retire_live_subscriptions
retire_live_subscriptions-HasOneLive db account now v = (
  update-AreValid (is_live account) (cancel now) db.subscriptions db.next_subscription (λ s. refl) v
      (λ b. ground (arith, v.one_live b, retire-live account b now db.subscriptions)),
  ground (arith, retire-live account account now db.subscriptions),
)

-- The live subscriptions of an account after one of them has been put in force.
put-live :
    (chosen : PlanSubscription) (b : ℕ) (now : Instant) (xs : List PlanSubscription)
    → count_where (is_live b) (
        update_where
          (λ t. t.id == chosen.id)
          (put_in_force now)
          (update_where (is_replaced chosen) (cancel now) xs))
      ≡ count_where (λ t. (t.id == chosen.id) && (t.account_id == b)) xs
        + (if chosen.account_id == b
            then 0
            else count_where (λ t. not (t.id == chosen.id) && is_live b t) xs)
put-live chosen b now [] = ground arith
put-live chosen b now (s ∷ xs) = ground (arith, put-live chosen b now xs)

activated-AreValid :
    (s : PlanSubscription) (now : Instant) (xs : List PlanSubscription) (next : ℕ)
    → AreValid xs next
    → find_by (λ t. t.id == s.id) xs ≡ some s
    → AreValid
        (update_where
          (λ t. t.id == s.id)
          (put_in_force now)
          (update_where (is_replaced s) (cancel now) xs))
        next
activated-AreValid s now xs next v found =
    let replaced = update_where (is_replaced s) (cancel now) xs in
    update-AreValid (λ t. t.id == s.id) (put_in_force now) replaced next (λ t. refl)
      (update-AreValid (is_replaced s) (cancel now) xs next (λ t. refl) v
        (λ b. omega (
          arith,
          v.one_live b,
          count_where-update_le (is_live b) (is_replaced s) (cancel now) xs (λ t h. ground arith),
        )))
      (λ b. ground (
        arith,
        v.one_live b,
        put-live s b now xs,
        count_where_unique (λ t. t.id) s.id (λ t. t.account_id == b) xs s v.keys found,
        count_where_mono (λ t. not (t.id == s.id) && is_live b t) (is_live b) xs
            (λ t h. ground arith),
      ))

-- Putting a subscription in force keeps at most one subscription in force for each account,
-- whatever the key it is called with.
pub activate_subscription-HasOneLive :
    (db : Db) (id : ℕ) (now : Instant)
    → HasOneLive db
    → HasOneLive (activate_subscription db id now).0
unfolding activate_subscription
activate_subscription-HasOneLive db id now v =
    elim (Option-cases (find_by (λ s. s.id == id) db.subscriptions)) [
      | inl e ↦ rw (e, activate_subscription) v
      | inr (s, e) ↦
          let same : s.id ≡ id =
            ground (arith, find_by-holds (λ t. t.id == id) db.subscriptions s e) in
          let valid =
            activated-AreValid s now db.subscriptions db.next_subscription v
              (subst (λ k. find_by (λ t. t.id == k) db.subscriptions ≡ some s) (sym same) e) in
          elim (Bool-cases (is_pending s.status)) [
            | inl p ↦ rw (e, activate_subscription, p) valid
            | inr n ↦ rw (e, activate_subscription, n) v
          ]
    ]
