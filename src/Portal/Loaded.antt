-- ===== src/Portal/Loaded.antt =====
-- What a move to a plan has found and passed: `change_plan` of routers/billing.py.
use chmabapay.Base.{
  ◌⊎◌, if◌then◌else◌, ◌≡◌, refl, sym, ap, ◌∙◌, Bool, true, false, none, some, List, [], ◌∷◌, select,
  find_by, is_some, All, Option-cases, Bool-cases, inl, inr, ◌==◌, Text, leb, not, ◌||◌, text_eq,
  and_then, Result, All-selected, arith,
}
use chmabapay.Base.Results.{ok, refuse-ok, and_then-ok, ok_injective}
use chmabapay.Model.{Instant, Account, Plan, PlanSubscription, Db}
use chmabapay.Billing.{with_plan, is_live, find_open_invoice}
use chmabapay.Portal.ChangePlan.{
  PlanError, ChangePlanOut, ActiveSub, one_row, get_active_sub, move_to_free, buy_beside, change_to,
  change_offered, change_plan, is_same_plan, plan_unchanged, plan_not_available,
}

-- Every subscription has the plan that it refers to, as the foreign key says.
abbrev pub HavePlans : List Plan → List PlanSubscription → Type 0
HavePlans plans xs = All (λ s. is_some (find_by (λ p. p.id == s.plan_id) plans) ≡ true) xs

-- The subscriptions that the query has loaded.
abbrev pub rows_of : ActiveSub → List PlanSubscription
rows_of none = []
rows_of (some (s, plan)) = s ∷ []

one_row-rows :
    (plans : List Plan) (xs : List PlanSubscription) (old : ActiveSub)
    → HavePlans plans xs
    → one_row (with_plan plans xs) ≡ ok old
    → xs ≡ rows_of old
one_row-rows plans [] none h e = refl
one_row-rows plans [] (some old) h e = absurd (ground (arith, e))
one_row-rows plans (x ∷ []) none (h, t) e = absurd (ground (arith, h, e))
one_row-rows plans (x ∷ []) (some (s, plan)) (h, t) e = ground (arith, h, e)
one_row-rows plans (x ∷ y ∷ zs) old (h, (h', t)) e = absurd (ground (arith, h, h', e))

missing-sold :
    (db : Db) (account : Account) (now : Instant) (sold : Db × ChangePlanOut)
    → ¬ (change_offered db account now none ≡ ok sold)
unfolding change_offered
missing-sold db account now sold h = ground (arith, h)

-- What an accepted move has found and passed.
offered-found :
    (db : Db) (account : Account) (plan : Plan) (now : Instant) (sold : Db × ChangePlanOut)
    → HavePlans db.plans db.subscriptions
    → change_offered db account now (some plan) ≡ ok sold
    → (old : ActiveSub) × (select (is_live account.id) db.subscriptions ≡ rows_of old)
      × (change_to db account plan now old ≡ ok sold)
unfolding change_offered get_active_sub
offered-found db account plan now sold plans h =
    let loaded = get_active_sub db account.id in
    let body = and_then loaded (change_to db account plan now) in
    let (_, h1) =
      refuse-ok (not plan.is_public || not plan.is_active) plan_not_available body sold h in
    let (old, found, h2) = and_then-ok loaded (change_to db account plan now) sold h1 in
    let mine = select (is_live account.id) db.subscriptions in
    let known =
      All-selected (λ s. is_some (find_by (λ p. p.id == s.plan_id) db.plans) ≡ true)
        (is_live account.id) db.subscriptions plans in
    (old, one_row-rows db.plans mine old known found, h2)

pub change_plan-found :
    (db : Db) (account : Account) (plan_code : Text) (now : Instant) (sold : Db × ChangePlanOut)
    → HavePlans db.plans db.subscriptions
    → change_plan db account plan_code now ≡ ok sold
    → (plan : Plan) × (old : ActiveSub) × (find_by (λ p. text_eq p.code plan_code) db.plans
        ≡ some plan)
      × (select (is_live account.id) db.subscriptions ≡ rows_of old)
      × (change_to db account plan now old ≡ ok sold)
unfolding change_plan
change_plan-found db account plan_code now sold plans h =
    let body = change_offered db account now in
    elim (Option-cases (find_by (λ p. text_eq p.code plan_code) db.plans)) [
      | inl gone ↦ absurd (missing-sold db account now sold (ap body (sym gone) ∙ h))
      | inr (plan, e) ↦
          let (old, loaded, made) =
            offered-found db account plan now sold plans (ap body (sym e) ∙ h) in
          (plan, old, e, loaded, made)
    ]

pub change_to-cases :
    (db : Db) (account : Account) (plan : Plan) (now : Instant) (old : ActiveSub)
    (sold : Db × ChangePlanOut)
    → change_to db account plan now old ≡ ok sold
    → ((leb plan.monthly_fee_cents 0 ≡ true) × (move_to_free db account old plan now ≡ sold))
      ⊎ ((leb plan.monthly_fee_cents 0 ≡ false)
          × (buy_beside db account old plan now (find_open_invoice db account.id) ≡ ok sold))
unfolding change_to
change_to-cases db account plan now old sold h =
    let free = move_to_free db account old plan now in
    let bought = buy_beside db account old plan now (find_open_invoice db account.id) in
    let body : Bool → Result PlanError (Db × ChangePlanOut) = λ b. if b then ok free else bought in
    let (_, h1) =
      refuse-ok (is_same_plan old plan) plan_unchanged (body (leb plan.monthly_fee_cents 0)) sold
        h in
    elim (Bool-cases (leb plan.monthly_fee_cents 0)) [
      | inl e ↦ inl (e, ok_injective free sold (ap body (sym e) ∙ h1))
      | inr e ↦ inr (e, ap body (sym e) ∙ h1)
    ]
