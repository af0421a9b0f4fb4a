-- ===== src/Billing/Frozen.antt =====
-- The accounts that an enforcement sweep freezes.
use chmabapay.Base.{
  ℕ, ◌≡◌, refl, ap, ◌∙◌, Bool, true, false, Option, none, some, List, [], ◌∷◌, All, All-map,
  find_by, update_where, ◌==◌, if◌then◌else◌, arith,
}
use chmabapay.Model.{Instant, Account, Db, Settings}
use chmabapay.Billing.Coverage.{get_account, is_restricted}
use chmabapay.Billing.Grace.{Row, restrict, freeze_candidates, freeze_each, enforce_grace}
use chmabapay.Billing.Freeze.{
  IsFreezable, freeze_candidates-IsFreezable, expire_abandoned_purchases-accounts,
}

abbrev pub is_frozen : Option Account → Bool
is_frozen none = false
is_frozen (some a) = is_restricted a.status

abbrev is_there : Option Account → Bool
is_there none = false
is_there (some a) = true

abbrev at : ℕ → List Account → Option Account
at k xs = find_by (λ a. a.id == k) xs

abbrev frozen_by : ℕ → Instant → List Account → List Account
frozen_by id now xs = update_where (λ a. a.id == id) (restrict now) xs

restrict-frozen :
    (id k : ℕ) (now : Instant) (xs : List Account)
    → is_frozen (at k xs) ≡ true
    → is_frozen (at k (frozen_by id now xs)) ≡ true
restrict-frozen id k now [] h = ground arith
restrict-frozen id k now (x ∷ xs) h = ground (arith, restrict-frozen id k now xs)

restrict-there :
    (k : ℕ) (now : Instant) (xs : List Account)
    → is_there (at k xs) ≡ true
    → is_frozen (at k (frozen_by k now xs)) ≡ true
restrict-there k now [] h = ground arith
restrict-there k now (x ∷ xs) h = ground (arith, restrict-there k now xs)

restrict-same :
    (id k : ℕ) (now : Instant) (xs : List Account)
    → is_there (at k (frozen_by id now xs)) ≡ is_there (at k xs)
restrict-same id k now [] = refl
restrict-same id k now (x ∷ xs) = ground (arith, restrict-same id k now xs)

freeze_each-frozen :
    (due : List Row) (now : Instant) (db : Db) (k : ℕ)
    → is_frozen (get_account db k) ≡ true
    → is_frozen (get_account (freeze_each due now db) k) ≡ true
unfolding freeze_each
freeze_each-frozen [] now db k h = h
freeze_each-frozen ((i, s, a) ∷ due) now db k h =
    freeze_each-frozen due now _ k (restrict-frozen a.id k now db.accounts h)

freeze_each-All :
    (due : List Row) (now : Instant) (db db' : Db)
    → ((k : ℕ) → is_there (get_account db' k) ≡ is_there (get_account db k))
    → All (λ r. is_there (get_account db r.2.id) ≡ true) due
    → All (λ r. is_frozen (get_account (freeze_each due now db') r.2.id) ≡ true) due
unfolding freeze_each
freeze_each-All [] now db db' same there = tt
freeze_each-All ((i, s, a) ∷ due) now db db' same (here, there) = (
  freeze_each-frozen due now _ a.id (restrict-there a.id now db'.accounts (same a.id ∙ here)),
  freeze_each-All due now db _ (λ k. restrict-same a.id k now db'.accounts ∙ same k) there,
)

-- With enforcement switched on, the account of every candidate of a sweep is restricted
-- afterwards.
pub enforce_grace-freezes :
    (db : Db) (settings : Settings) (now : Instant) (limit : ℕ)
    → settings.billing_enforce_enabled ≡ true
    → All
        (λ r. is_frozen (get_account (enforce_grace db settings now limit).0 r.2.id) ≡ true)
        (freeze_candidates db settings now limit)
unfolding enforce_grace
enforce_grace-freezes db settings now limit on =
    let due = freeze_candidates db settings now limit in
    let chosen : (if settings.billing_enforce_enabled then freeze_each due now db else db)
        ≡ freeze_each due now db =
      ap (λ b. if b then freeze_each due now db else db) on in
    All-map (λ r. is_frozen (get_account (freeze_each due now db) r.2.id) ≡ true)
      (λ r. is_frozen (get_account (enforce_grace db settings now limit).0 r.2.id) ≡ true) due
      (λ r h.
        ap (λ xs. is_frozen (at r.2.id xs))
          (expire_abandoned_purchases-accounts
              (if settings.billing_enforce_enabled then freeze_each due now db else db) now 500
            ∙ ap (λ d. d.accounts) chosen)
        ∙ h)
      (freeze_each-All due now db db (λ k. refl)
        (All-map (IsFreezable db) (λ r. is_there (get_account db r.2.id) ≡ true) due
          (λ r h. ap is_there h.0) (freeze_candidates-IsFreezable db settings now limit)))
