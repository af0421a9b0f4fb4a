-- ===== src/Portal/Chosen.antt =====
-- The subscriptions in force after a move to a plan: `change_plan` of routers/billing.py.
use mathlib.Core.Path.{subst}
use chmabapay.Base.{
  ℕ, ◌≡◌, refl, sym, ap, ◌∙◌, Option, none, some, List, [], ◌∷◌, select, count_where, length,
  length-select, update_where, Bool-cases, inl, inr, ◌==◌, Text, count_where-update_le, arith,
}
use chmabapay.Base.Results.{ok}
use chmabapay.Model.{
  Instant, Account, Plan, PlanInvoice, VoidReason, PlanSubscription, SubscriptionStatus, Db,
}
use chmabapay.Billing.{
  is_live, cancel, is_restricted, lift_billing_hold, add_subscription, find_open_invoice,
}
use chmabapay.Billing.Live.{HasOneLive, update-AreValid, retire_live_subscriptions-HasOneLive}
use chmabapay.Billing.Replaced.{
  append-AreValid, append_live-AreValid, cap-HasOneLive, lift-HasOneLive,
}
use chmabapay.Portal.ChangePlan.{
  ChangePlanOut, ActiveSub, void_open_invoices, chosen_subscription, cancel_old, move_to_free, buy,
  write_off, buy_beside, change_plan,
}
use chmabapay.Portal.Loaded.{HavePlans, rows_of, change_plan-found, change_to-cases}
use chmabapay.Portal.Purchase.{buy-unbilled, pending}

select-none :
    (account : ℕ) (xs : List PlanSubscription)
    → select (is_live account) xs ≡ []
    → count_where (is_live account) xs ≡ 0
select-none account xs h = sym (length-select (is_live account) xs) ∙ ap length h

select-one :
    (account : ℕ) (now : Instant) (xs : List PlanSubscription) (s : PlanSubscription)
    → select (is_live account) xs ≡ s ∷ []
    → count_where (is_live account) (update_where (λ t. t.id == s.id) (cancel now) xs) ≡ 0
select-one account now [] s h = refl
select-one account now (x ∷ xs) s h = elim (Bool-cases (is_live account x)) [
  | inl live ↦
      let same : x ≡ s = ground (arith, h, live) in
      let rest : select (is_live account) xs ≡ [] = ground (arith, h, live) in
      ground (
        arith,
        ap (λ (t : PlanSubscription). t.id) same,
        select-none account xs rest,
        count_where-update_le (is_live account) (λ t. t.id == s.id) (cancel now) xs
            (λ t e. ground arith),
      )
  | inr other ↦ ground (arith, other, h, select-one account now xs s)
]

cancel_old-HasOneLive :
    (db : Db) (account : ℕ) (old : ActiveSub) (now : Instant)
    → HasOneLive db
    → select (is_live account) db.subscriptions ≡ rows_of old
    → HasOneLive (cancel_old old now db)
      × (count_where (is_live account) (cancel_old old now db).subscriptions ≡ 0)
cancel_old-HasOneLive db account none now v h = (v, select-none account db.subscriptions h)
cancel_old-HasOneLive db account (some (s, plan)) now v h = (
  update-AreValid (λ t. t.id == s.id) (cancel now) db.subscriptions db.next_subscription (λ t. refl)
      v
      (λ b. omega (
        arith,
        v.one_live b,
        count_where-update_le (is_live b) (λ t. t.id == s.id) (cancel now) db.subscriptions
            (λ t e. ground arith),
      )),
  select-one account now db.subscriptions s h,
)

lift-subscriptions :
    (db : Db) (account : Account) (now : Instant)
    → (lift_billing_hold db (some account) now).0.subscriptions ≡ db.subscriptions
unfolding lift_billing_hold
lift-subscriptions db account now = elim (Bool-cases (is_restricted account.status)) [
  | inl e ↦ rw (e, lift_billing_hold) refl
  | inr e ↦ rw (e, lift_billing_hold) refl
]

module _ (account : Account) (old : ActiveSub) (plan : Plan) (now : Instant) where
  move_to_free-HasOneLive :
      (db : Db)
      → HasOneLive db
      → select (is_live account.id) db.subscriptions ≡ rows_of old
      → HasOneLive (move_to_free db account old plan now).0
  unfolding move_to_free
  move_to_free-HasOneLive db v h =
      let voided = void_open_invoices db account.id VoidReason.downgraded now in
      let lifted = (lift_billing_hold voided (some account) now).0 in
      let cleared = cancel_old old now lifted in
      let new =
        chosen_subscription cleared account.id plan SubscriptionStatus.active (some now) now in
      let (valid, none_live) =
        cancel_old-HasOneLive lifted account.id old now
          (lift-HasOneLive voided (some account) now v)
          (ap (select (is_live account.id)) (lift-subscriptions voided account now) ∙ h) in
      cap-HasOneLive (add_subscription new cleared) account.id plan.max_stores now
        (append_live-AreValid cleared.subscriptions new valid none_live)

  -- A pending subscription is not in force.
  buy-HasOneLive :
      (db : Db) (sold : Db × ChangePlanOut)
      → HasOneLive db
      → buy db account old plan now ≡ ok sold
      → HasOneLive sold.0
  buy-HasOneLive db sold v h =
      let bought = add_subscription (pending account old plan now db) db in
      let valid : HasOneLive bought =
        append-AreValid db.subscriptions (pending account old plan now db) v
          (λ b. ground (arith, v.one_live b)) in
      subst HasOneLive (sym (buy-unbilled account old plan now db sold h).0) valid

  buy_beside-HasOneLive :
      (db : Db) (outstanding : Option PlanInvoice) (sold : Db × ChangePlanOut)
      → HasOneLive db
      → buy_beside db account old plan now outstanding ≡ ok sold
      → HasOneLive sold.0
  unfolding buy_beside write_off
  buy_beside-HasOneLive db none sold v h = buy-HasOneLive db sold v h
  buy_beside-HasOneLive db (some outstanding) sold v h =
      elim (Bool-cases (is_restricted account.status)) [
        | inl frozen ↦
            buy-HasOneLive (write_off db account.id now) sold
              (retire_live_subscriptions-HasOneLive
                (void_open_invoices db account.id VoidReason.downgraded now) account.id now v).0
              (ground (arith, frozen, h))
        | inr e ↦ absurd (ground (arith, e, h))
      ]

-- Every accepted move to a plan, to a free one or by a purchase, keeps the subscriptions well
-- formed: unique keys below the next one, and at most one subscription in force for each
-- account. It assumes that each subscription has the plan that it refers to.
pub change_plan-HasOneLive :
    (db : Db) (account : Account) (plan_code : Text) (now : Instant) (sold : Db × ChangePlanOut)
    → HasOneLive db
    → HavePlans db.plans db.subscriptions
    → change_plan db account plan_code now ≡ ok sold
    → HasOneLive sold.0
change_plan-HasOneLive db account plan_code now sold v plans h =
    let (plan, old, _, loaded, made) = change_plan-found db account plan_code now sold plans h in
    elim (change_to-cases db account plan now old sold made) [
      | inl (_, same) ↦
          subst (λ (r : Db × ChangePlanOut). HasOneLive r.0) same
            (move_to_free-HasOneLive account old plan now db v loaded)
      | inr (_, bought) ↦
          buy_beside-HasOneLive account old plan now db (find_open_invoice db account.id) sold v
            bought
    ]
