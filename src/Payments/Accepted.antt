-- ===== src/Payments/Accepted.antt =====
-- What an order has passed that `create_payment` of services/payments.py accepts.
use chmabapay.Base.{
  ℕ, ◌≡◌, sym, ap, ◌∙◌, ◌⊎◌, Bool, true, false, Option, none, some, Option-cases, inl, inr, ◌==◌,
  ◌≤◌, [], ◌∷◌, ◌++◌, ◌&&◌, Text, is_some, ltb, not, arith, and_then, refuse, Result,
}
use chmabapay.Base.Results.{ok, refuse-ok, and_then-ok, ok_injective}
use chmabapay.Base.Money.{normalize_currency}
use chmabapay.Model.{Instant, Store, PaymentLink, Payment, Metadata, Db, Settings}
use chmabapay.Payments.Mint.{
  SaleError, Rail, Minted, load_active_link, store_disabled, store_billing_suspended,
  synthetic_payment_requires_internal_store, khr_amount_must_be_whole, amount_too_low,
  amount_too_high,
}
use chmabapay.Payments.Create.{
  Order, is_disabled, is_above, is_merchant_probe, is_fractional_khr, refuse_unusable_store,
  refuse_synthetic, refuse_amount, find_replay, new_payment, add_payment, insert_new, minted_for,
  create_on, create_payment,
}

abbrev pub Sold : Type 0
Sold = Db × (Payment × Bool)

-- A store that may take a payment: neither disabled nor held, and no probe in a merchant's store.
abbrev pub IsOpenFor : Store → Option Text → Option Metadata → Type 0
IsOpenFor store reference_id metadata =
    (is_disabled store.status ≡ false)
    × (is_some store.billing_suspended_at ≡ false)
    × (is_merchant_probe store reference_id metadata ≡ false)

pub refuse_store-ok :
    (store : Store) (reference_id : Option Text) (metadata : Option Metadata)
    (rest : Result SaleError Sold) (sold : Sold)
    → refuse_unusable_store store (refuse_synthetic store reference_id metadata rest) ≡ ok sold
    → IsOpenFor store reference_id metadata × (rest ≡ ok sold)
refuse_store-ok store reference_id metadata rest sold h =
    let probe = is_merchant_probe store reference_id metadata in
    let third = refuse_synthetic store reference_id metadata rest in
    let second = refuse (is_some store.billing_suspended_at) store_billing_suspended third in
    let (enabled, h1) = refuse-ok (is_disabled store.status) store_disabled second sold h in
    let (free, h2) =
      refuse-ok (is_some store.billing_suspended_at) store_billing_suspended third sold h1 in
    let (sale, h3) = refuse-ok probe synthetic_payment_requires_internal_store rest sold h2 in
    ((enabled, free, sale), h3)

-- The limits of a link.
abbrev pub IsWithin : ℕ → PaymentLink → Type 0
IsWithin amount link =
    (ltb amount 1 ≡ false)
    × ((not (link.min_amount_cents == 0) && ltb amount link.min_amount_cents) ≡ false)
    × (is_above amount link.max_amount_cents ≡ false)

refuse_amount-ok :
    (amount : ℕ) (link : PaymentLink) (rest : Result SaleError Sold) (sold : Sold)
    → refuse_amount amount link rest ≡ ok sold
    → IsWithin amount link × (rest ≡ ok sold)
refuse_amount-ok amount link rest sold h =
    let low = not (link.min_amount_cents == 0) && ltb amount link.min_amount_cents in
    let third = refuse (is_above amount link.max_amount_cents) amount_too_high rest in
    let (some_money, h1) =
      refuse-ok (ltb amount 1) amount_too_low (refuse low amount_too_low third) sold h in
    let (enough, h2) = refuse-ok low amount_too_low third sold h1 in
    let (fits, h3) =
      refuse-ok (is_above amount link.max_amount_cents) amount_too_high rest sold h2 in
    ((some_money, enough, fits), h3)

-- What an accepted order has passed, and what it returns.
module _ (rail : Rail) (settings : Settings) (db : Db) (store : Store) (order : Order)
    (public_id : Text) (now : Instant) where
  abbrev pub added : PaymentLink → Minted → Sold
  added link minted =
      let p = new_payment db store link order public_id now minted in (add_payment p db, (p, true))

  -- The payment of the key, or a new row for an amount within the limits.
  abbrev pub IsSold : PaymentLink → Sold → Type 0
  IsSold link sold =
      ((existing : Payment) × (find_replay db store.id order.idempotency_key ≡ some existing)
        × ((db, (existing, false)) ≡ sold))
      ⊎ ((find_replay db store.id order.idempotency_key ≡ none)
          × IsWithin order.amount_cents link
          × ((minted : Minted) × (minted_for rail settings store link order public_id now
                ≡ ok minted)
              × (added link minted ≡ sold)))

  create_on-sold :
      (link : PaymentLink) (sold : Sold)
      → create_on rail settings db store order public_id now link ≡ ok sold
      → (is_fractional_khr link order ≡ false) × IsSold link sold
  create_on-sold link sold h =
      let made =
        and_then (minted_for rail settings store link order public_id now)
          (insert_new db store link order public_id now) in
      let priced = refuse_amount order.amount_cents link made in
      let rest : Option Payment → Result SaleError Sold =
        λ found. elim found [ none ↦ priced | some existing ↦ ok (db, (existing, false)) ] in
      let found = find_replay db store.id order.idempotency_key in
      let (whole, h1) =
        refuse-ok (is_fractional_khr link order) khr_amount_must_be_whole (rest found) sold h in
      elim (Option-cases found) [
        | inl gone ↦
            let (within, h2) =
              refuse_amount-ok order.amount_cents link made sold (ap rest (sym gone) ∙ h1) in
            let (minted, paid_for, h3) =
              and_then-ok (minted_for rail settings store link order public_id now)
                (insert_new db store link order public_id now) sold h2 in
            (
              whole,
              inr (gone, within, (minted, paid_for, ok_injective (added link minted) sold h3)),
            )
        | inr (existing, e) ↦ (
          whole,
          inl (existing, e, ok_injective (db, (existing, false)) sold (ap rest (sym e) ∙ h1)),
        )
      ]

  pub create_payment-sold :
      (sold : Sold)
      → create_payment rail settings db store order public_id now ≡ ok sold
      → IsOpenFor store order.reference_id order.metadata
        × ((link : PaymentLink) × (load_active_link db store.id order.currency ≡ ok link)
            × (is_fractional_khr link order ≡ false)
            × IsSold link sold)
  unfolding create_payment
  create_payment-sold sold h =
      let body = create_on rail settings db store order public_id now in
      let found = load_active_link db store.id order.currency in
      let (open_for, h1) =
        refuse_store-ok store order.reference_id order.metadata (and_then found body) sold h in
      let (link, linked, h2) = and_then-ok found body sold h1 in
      let (whole, made) = create_on-sold link sold h2 in (open_for, (link, linked, whole, made))

  -- A payment that an order creates stands on the active link which was loaded for the requested
  -- currency and is in the currency of that link; its amount is at least one cent and within the
  -- limits of the link, where a maximum of zero is none; and it is the one row that is added to
  -- the payments.
  pub create_payment-limits :
      (db' : Db) (p : Payment)
      → create_payment rail settings db store order public_id now ≡ ok (db', (p, true))
      → (link : PaymentLink) × (load_active_link db store.id order.currency ≡ ok link)
        × (p.payment_link_id ≡ link.id)
        × (p.currency ≡ normalize_currency (some link.currency))
        × (1 ≤ p.amount_cents)
        × (link.min_amount_cents ≤ p.amount_cents)
        × ((most : ℕ) → link.max_amount_cents ≡ some most → 1 ≤ most → p.amount_cents ≤ most)
        × (db'.payments ≡ db.payments ++ p ∷ [])
  create_payment-limits db' p h =
      let (_, (link, linked, _, made)) = create_payment-sold (db', (p, true)) h in
      elim made [
        | inl (existing, _, e) ↦ absurd (ground (arith, ap (λ (s : Sold). s.1.1) e))
        | inr (_, (positive, enough, fits), (minted, _, e)) ↦
            let row = ap (λ (s : Sold). s.1.0) e in
            let amount : order.amount_cents ≡ p.amount_cents =
              ap (λ (q : Payment). q.amount_cents) row in
            (
              link,
              linked,
              ap (λ (q : Payment). q.payment_link_id) (sym row),
              ap (λ (q : Payment). q.currency) (sym row),
              ground (arith, amount, positive),
              ground (arith, amount, enough),
              (λ most e' h'. ground (arith, amount, fits, e', h')),
              ap (λ (s : Sold). s.0.payments) (sym e) ∙ ap (λ q. db.payments ++ q ∷ []) row,
            )
      ]
