-- ===== src/Retention/Offline.antt =====
-- A payment that is reissued after its payload was cleared: `purge_gateway_payloads` of
-- services/retention.py and `reissue_payment` of services/payments.py.
use chmabapay.Base.{
  ◌≡◌, refl, sym, ap, ◌∙◌, Bool, true, false, Option, none, some, ◌==◌, find_by-update, inl, inr,
  Text, arith, ◌*◌, or_else, Result, ◌+◌,
}
use chmabapay.Base.Int.{ℤ, leb_ℤ, pos, pos_part}
use chmabapay.Base.Results.{ok, ok_injective}
use chmabapay.Base.Money.{normalize_currency}
use chmabapay.Model.{Instant, Store, PaymentLink, Payment, GatewayRaw, Db, Settings}
use chmabapay.Khqr.{build_khqr_payload}
use chmabapay.Payments.{get_payment}
use chmabapay.Payments.Mint.{Rail, Minted, SaleError, offline, gateway_of, mint_qr}
use chmabapay.Payments.Reissue.{was_hosted, reminted, link_of, reissue_payment}
use chmabapay.Payments.Successors.{reissue_payment-sold}
use chmabapay.Retention.Purge.{is_stale, purged, purge_gateway_payloads}

purge-find :
    (db : Db) (older_than_days : ℤ) (now : Instant) (p : Payment)
    → leb_ℤ older_than_days (pos 0) ≡ false
    → get_payment db p.id ≡ some p
    → is_stale (pos_part older_than_days) now p ≡ true
    → get_payment (purge_gateway_payloads db older_than_days now).0 p.id ≡ some (purged p)
unfolding purge_gateway_payloads
purge-find db older_than_days now p enabled found stale =
    rw (purge_gateway_payloads, enabled)
      (find_by-update (λ q. q.id == p.id) (is_stale (pos_part older_than_days) now) purged
        db.payments p (λ q. refl) found stale)

-- A code that is built here has no session.
offline-built :
    (rail : Rail) (expires_at : Instant) (payload : Option Text) (minted : Minted)
    → offline rail expires_at payload ≡ ok minted
    → (payload ≡ some minted.qr_string) × (minted.hosted_session ≡ none)
offline-built rail expires_at none minted h = absurd (ground (arith, h))
offline-built rail expires_at (some payload) minted h =
    let same = sym (ok_injective _ minted h) in
    (ap (λ (m : Minted). some m.qr_string) (sym same), ap (λ (m : Minted). m.hosted_session) same)

-- The code of a payment without a session, under the currency of the payment.
abbrev pub built_code : Settings → Payment → Text → Instant → Store → PaymentLink → Option Text
built_code settings parent public_id now store link =
    build_khqr_payload store link parent.amount_cents public_id
      (now + settings.checkout_ttl_seconds * 1_000_000)
      (some (normalize_currency (some (or_else (some parent.currency) link.currency)))) now

reminted-built :
    (rail : Rail) (settings : Settings) (parent : Payment) (public_id : Text) (now : Instant)
    (store : Store) (link : PaymentLink) (minted : Minted)
    → parent.gateway_status_raw ≡ none
    → reminted rail settings parent public_id now store link ≡ ok minted
    → (built_code settings parent public_id now store link ≡ some minted.qr_string)
      × (minted.hosted_session ≡ none)
unfolding mint_qr
reminted-built rail settings parent public_id now store link minted cleared h =
    let again : Option GatewayRaw → Result SaleError Minted = λ raw.
      mint_qr rail settings store link parent.amount_cents public_id now (some parent.currency)
        (some (was_hosted raw)) in
    offline-built rail (now + settings.checkout_ttl_seconds * 1_000_000)
      (built_code settings parent public_id now store link) minted (ap again (sym cleared) ∙ h)

-- After a retention sweep that is switched on has cleared the stored payload of a payment, a
-- reissue of that payment which creates a code never asks the hosted checkout, whatever its link
-- is: the new payment has no hosted session, and its code is the one that is built from the
-- store and the link.
pub purge_gateway_payloads-reissue_payment :
    (db db' : Db) (rail : Rail) (settings : Settings) (older_than_days : ℤ) (now later : Instant)
    (p s : Payment) (public_id : Text)
    → leb_ℤ older_than_days (pos 0) ≡ false
    → get_payment db p.id ≡ some p
    → is_stale (pos_part older_than_days) now p ≡ true
    → reissue_payment rail settings
        (purge_gateway_payloads db older_than_days now).0
        (purged p)
        public_id
        later
      ≡ ok (db', (s, true))
    → (get_payment (purge_gateway_payloads db older_than_days now).0 p.id ≡ some (purged p))
      × (s.gateway_status_raw ≡ none)
      × ((store : Store) × (link : PaymentLink) × (link_of
              (purge_gateway_payloads db older_than_days now).0
              p
            ≡ some link)
          × (built_code settings p public_id later store link ≡ some s.qr_string))
purge_gateway_payloads-reissue_payment db db' rail settings older_than_days now later p s public_id
      enabled found stale h =
    let cleared = (purge_gateway_payloads db older_than_days now).0 in
    let kept = purge-find db older_than_days now p enabled found stale in
    elim (reissue_payment-sold rail settings cleared (purged p) public_id later (db', (s, true))
      h).1 [
        | inl (live, _, e) ↦ absurd (ground (arith, ap (λ (r : Db × (Payment × Bool)). r.1.1) e))
        | inr (store, link, minted, linked, paid_for, e) ↦
            let row = ap (λ (r : Db × (Payment × Bool)). r.1.0) e in
            let (code, session) =
              reminted-built rail settings (purged p) public_id later store link minted refl
                paid_for in
            (
              kept,
              ap (λ (q : Payment). q.gateway_status_raw) (sym row) ∙ ap gateway_of session,
              (store, link, linked, code ∙ ap (λ (q : Payment). some q.qr_string) row),
            )
      ]
