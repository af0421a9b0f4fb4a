-- ===== src/Payments/Mint.antt =====
-- The errors of a sale, `is_payway_link`, `load_active_link` and `mint_qr` of services/payments.py.
use chmabapay.Base.{
  ℕ, ◌+◌, ◌*◌, Bool, not, ◌&&◌, Option, none, some, List, [], ◌∷◌, select, find_by, sort_by, ◌==◌,
  if◌then◌else◌, Text, text_eq, codes, or_else, contains, Result, refuse,
}
use chmabapay.Base.Results.{ok, err}
use chmabapay.Base.Money.{normalize_currency, money_to_str}
use chmabapay.Model.{Instant, Store, PaymentLink, HostedSession, GatewayRaw, Db, Settings}
use chmabapay.Khqr.{build_khqr_payload}

-- The answers of a refusal, by their details, and the `ValueError` of a payload.
pub data SaleError : Type 0 where
  store_disabled store_billing_suspended synthetic_payment_requires_internal_store : SaleError
  currency_not_configured payment_link_disabled payment_link_missing : SaleError
  khr_amount_must_be_whole amount_too_low amount_too_high : SaleError
  not_a_payway_link currency_not_supported_by_hosted_checkout payway_hosted_error : SaleError
  payment_already_paid payment_reversed payment_not_expired invalid_payload : SaleError

-- What a session of the hosted checkout answers.
pub record HostedCheckout : Type 0 where
  pub qr_string : Text
  pub client_id : Text
  pub token : Text
  pub request_time : Text
  pub tran_id : Option Text
  pub expires_in_seconds : Option ℕ

-- The two calls outside: the hosted checkout of a link and an amount, and MD5.
pub record Rail : Type 0 where
  pub create_hosted_checkout : Text → Text → Option HostedCheckout
  pub md5 : Text → Text

pub record Minted : Type 0 where
  pub qr_string : Text
  pub qr_md5 : Option Text
  pub expires_at : Instant
  pub hosted_session : Option HostedSession

abbrev pub is_payway_link : PaymentLink → Bool
is_payway_link link = link.is_aba_payway && contains (codes "link.payway.com.kh") link.raw_link

abbrev pub is_active_of : ℕ → PaymentLink → Bool
is_active_of store link = (link.store_id == store) && link.is_active

-- The primary link: the first in US dollars, or the first.
abbrev pub primary : List PaymentLink → Result SaleError PaymentLink
primary [] = err payment_link_disabled
primary (link ∷ links) =
    elim (find_by (λ l. text_eq (normalize_currency (some l.currency)) (codes "USD"))
      (link ∷ links)) [ none ↦ ok link | some dollars ↦ ok dollars ]

abbrev pub named : Option PaymentLink → Result SaleError PaymentLink
named none = err currency_not_configured
named (some link) = ok link

unfoldable pub load_active_link : Db → ℕ → Option Text → Result SaleError PaymentLink
load_active_link db store (some (c ∷ currency)) =
    let wanted = normalize_currency (some (c ∷ currency)) in
    named (find_by (λ l. is_active_of store l && text_eq l.currency wanted) db.payment_links)
load_active_link db store _ =
    primary (sort_by (λ l. l.id) (select (is_active_of store) db.payment_links))

-- `checkout.expires_in_seconds or settings.checkout_ttl_seconds`
abbrev pub seconds_or : Option ℕ → ℕ → ℕ
seconds_or none ttl = ttl
seconds_or (some seconds) ttl = if seconds == 0 then ttl else seconds

abbrev pub session_of : HostedCheckout → HostedSession
session_of checkout = record {
  client_id = checkout.client_id;
  token = checkout.token;
  request_time = checkout.request_time;
  tran_id = checkout.tran_id;
  expires_in_seconds = checkout.expires_in_seconds;
  qr_string = checkout.qr_string;
}

abbrev pub hosted : Rail → Settings → Instant → Option HostedCheckout → Result SaleError Minted
hosted rail settings now none = err payway_hosted_error
hosted rail settings now (some checkout) =
    let seconds = seconds_or checkout.expires_in_seconds settings.checkout_ttl_seconds in
    ok (record {
      qr_string = checkout.qr_string;
      qr_md5 = some (rail.md5 checkout.qr_string);
      expires_at = now + seconds * 1_000_000;
      hosted_session = some (session_of checkout);
    })

abbrev pub offline : Rail → Instant → Option Text → Result SaleError Minted
offline rail expires_at none = err invalid_payload
offline rail expires_at (some payload) = ok (record {
  qr_string = payload;
  qr_md5 = some (rail.md5 payload);
  expires_at = expires_at;
  hosted_session = none;
})

-- None means "decide from the link".
abbrev pub uses_hosted : Option Bool → PaymentLink → Bool
uses_hosted none link = is_payway_link link
uses_hosted (some hosted_qr) link = hosted_qr

unfoldable pub mint_qr :
    Rail
    → Settings
    → Store
    → PaymentLink
    → ℕ
    → Text
    → Instant
    → Option Text
    → Option Bool
    → Result SaleError Minted
mint_qr rail settings store link amount_cents public_id now currency hosted_qr =
    let resolved = normalize_currency (some (or_else currency link.currency)) in
    let expires_at = now + settings.checkout_ttl_seconds * 1_000_000 in
    if uses_hosted hosted_qr link
    then refuse (not (is_payway_link link)) not_a_payway_link (
        refuse (not (text_eq resolved (normalize_currency (some link.currency))))
          currency_not_supported_by_hosted_checkout
          (hosted rail settings now
            (rail.create_hosted_checkout link.raw_link (money_to_str amount_cents resolved))))
    else offline rail expires_at
        (build_khqr_payload store link amount_cents public_id expires_at (some resolved) now)

-- `{"payway_hosted": hosted_session} if hosted_session else None`
abbrev pub gateway_of : Option HostedSession → Option GatewayRaw
gateway_of none = none
gateway_of (some session) = some (record { payway_hosted = some session; evidence = [] })
