-- ===== src/Examples/Orders.antt =====
-- Orders and reissued codes at concrete data.
use chmabapay.Base.{
  ◌*◌, ◌+◌, ◌≡◌, ◌≤◌, ℕ, refl, sort_by, arith, true, false, none, some, [], ◌∷◌, codes,
}
use chmabapay.Base.Results.{ok}
use chmabapay.Base.Money.{normalize_currency, money_to_str}
use chmabapay.Model.{PaymentLink, PaymentStatus, StoreStatus, Payment, Store, Db}
use chmabapay.Billing.{day}
use chmabapay.Payments.{is_synthetic}
use chmabapay.Payments.Mint.{Rail, HostedCheckout, Minted, load_active_link, mint_qr, session_of}
use chmabapay.Payments.Create.{Order, new_payment, add_payment, create_payment}
use chmabapay.Payments.Accepted.{create_payment-limits}
use chmabapay.Payments.Replay.{create_payment-replay}
use chmabapay.Payments.Reissue.{with_successor, successor_of, reissue_payment}
use chmabapay.Payments.Successors.{reissue_payment-again}
use chmabapay.Examples.Data.{settings, a_store, a_link, a_payment, shop}

abbrev pub checkout : HostedCheckout
checkout = record {
  qr_string = codes "000201";
  client_id = codes "c";
  token = codes "t";
  request_time = codes "r";
  tran_id = none;
  expires_in_seconds = some 180;
}

abbrev pub rail : Rail
rail = record { create_hosted_checkout = λ link amount. some checkout; md5 = λ payload. payload }

-- A rail that answers nothing.
abbrev dead_rail : Rail
dead_rail = record { create_hosted_checkout = λ link amount. none; md5 = λ payload. payload }

abbrev counter : Store
counter = a_store 4 none StoreStatus.active

abbrev pub payway : PaymentLink
payway = record (a_link 1) { raw_link = codes "https://link.payway.com.kh/x" }

abbrev till : Db
till = record (shop []) { stores = counter ∷ []; payment_links = payway ∷ [] }

abbrev coffee : Order
coffee = record {
  amount_cents = 250;
  reference_id = some (codes "order 1");
  metadata = none;
  idempotency_key = some (codes "k");
  currency = some (codes "usd");
  hosted_qr = none;
}

abbrev minted : Minted
minted = record {
  qr_string = codes "000201";
  qr_md5 = some (codes "000201");
  expires_at = 99 * day + 180 * 1_000_000;
  hosted_session = some (session_of checkout);
}

abbrev served : Payment
served = new_payment till counter payway coffee (codes "p1") (99 * day) minted

create_payment-replay_example :
    create_payment dead_rail settings
      (add_payment served till)
      counter
      coffee
      (codes "p2")
      (100 * day)
    ≡ ok (add_payment served till, (served, false))
unfolding create_payment load_active_link mint_qr is_synthetic money_to_str
create_payment-replay_example =
    create_payment-replay rail dead_rail settings till counter coffee (codes "p1") (codes "p2")
      (99 * day) (100 * day) (add_payment served till, (served, true)) refl refl

create_payment-limits_example :
    (link : PaymentLink) × (load_active_link till 4 (some (codes "usd")) ≡ ok link)
    × (1 ≡ link.id)
    × (codes "USD" ≡ normalize_currency (some link.currency))
    × (1 ≤ 250)
    × (link.min_amount_cents ≤ 250)
    × ((most : ℕ) → link.max_amount_cents ≡ some most → 1 ≤ most → 250 ≤ most)
    × (served ∷ [] ≡ served ∷ [])
unfolding create_payment load_active_link mint_qr is_synthetic money_to_str
create_payment-limits_example =
    create_payment-limits rail settings till counter coffee (codes "p1") (99 * day)
      (add_payment served till) served refl

abbrev pub expired_sale : Payment
expired_sale = record (a_payment 1 4 PaymentStatus.expired) {
  gateway_status_raw = some (record { payway_hosted = some (session_of checkout); evidence = [] });
}

abbrev pub closed : Db
closed = record till { payments = expired_sale ∷ []; next_payment = 2 }

abbrev reissued : Db
reissued = with_successor closed expired_sale (codes "p2") (99 * day) minted

reissue_payment-again_example :
    reissue_payment dead_rail settings reissued expired_sale (codes "p3") (99 * day + 60_000_000)
    ≡ ok (reissued, (successor_of closed expired_sale (codes "p2") (99 * day) minted, false))
unfolding reissue_payment load_active_link mint_qr is_synthetic money_to_str sort_by
reissue_payment-again_example =
    reissue_payment-again rail dead_rail settings closed expired_sale expired_sale (codes "p2")
      (codes "p3") (99 * day) (99 * day + 60_000_000)
      (reissued, (successor_of closed expired_sale (codes "p2") (99 * day) minted, true))
      (omega arith, tt) refl refl refl refl
