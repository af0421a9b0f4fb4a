-- ===== src/Examples/Data.antt =====
-- Rows to try the operations on: one account with three stores on a plan of two.
use chmabapay.Base.{ℕ, ◌+◌, ◌*◌, true, false, Option, none, some, List, [], ◌∷◌, Text, codes}
use chmabapay.Base.Int.{pos}
use chmabapay.Model.{
  Instant, Account, AccountStatus, Store, StoreStatus, PaymentLink, Verification, Plan,
  PlanSubscription, SubscriptionStatus, Payment, PaymentStatus, WebhookEndpoint, EventDelivery,
  DeliveryStatus, PlanInvoice, InvoiceStatus, Db, Settings,
}
use chmabapay.Billing.{day}

abbrev pub merchant : Account
merchant = record {
  id = 1;
  status = AccountStatus.active;
  is_platform_admin = false;
  whitelabel_enabled = false;
  updated_at = 0;
}

abbrev pub frozen_merchant : Account
frozen_merchant = record {
  id = 2;
  status = AccountStatus.suspended;
  is_platform_admin = false;
  whitelabel_enabled = false;
  updated_at = 0;
}

abbrev pub a_store : ℕ → Option Instant → StoreStatus → Store
a_store id held status = record {
  id = id;
  public_id = b's' ∷ (48 + id) ∷ [];
  account_id = 1;
  name = [];
  external_id = none;
  city = [];
  support_email = none;
  redirect_success_url = none;
  redirect_failure_url = none;
  telegram_chat_id = none;
  brand_color = none;
  logo_image_url = none;
  whitelabel_css = none;
  is_internal = false;
  billing_suspended_at = held;
  status = status;
  updated_at = 0;
}

abbrev pub a_link : ℕ → PaymentLink
a_link id = record {
  id = id;
  store_id = 4;
  is_aba_payway = true;
  raw_link = [];
  merchant_account_id = [];
  merchant_name = none;
  payway_client_id = none;
  currency = b'U' ∷ b'S' ∷ b'D' ∷ [];
  verification = Verification.verified;
  min_amount_cents = 1;
  max_amount_cents = none;
  is_active = true;
}

abbrev pub starter : Plan
starter = record {
  id = 7;
  code = codes "starter";
  monthly_fee_cents = 900;
  base_payments_included = 100;
  max_stores = some 2;
  is_public = true;
  is_active = true;
}

abbrev pub a_subscription : ℕ → SubscriptionStatus → PlanSubscription
a_subscription id status = record {
  id = id;
  account_id = 1;
  plan_id = 7;
  status = status;
  started_at = none;
  canceled_at = none;
  next_billing_at = 100 * day;
  created_at = 70 * day;
  updated_at = 0;
}

abbrev pub an_invoice : ℕ → ℕ → Option ℕ → PlanInvoice
an_invoice id subscription payment = record {
  id = id;
  account_id = 1;
  subscription_id = some subscription;
  period_month = (1970, 4);
  period_start = some (100 * day);
  period_end = some (130 * day);
  due_at = some (100 * day);
  status = InvoiceStatus.opened;
  base_fee_cents = 900;
  usage_payments_count = pos 0;
  overage_payments_count = 0;
  overage_fee_cents = 0;
  total_due_cents = 900;
  paid_at = none;
  voided_at = none;
  void_reason = none;
  chmabapay_payment_id = payment;
  updated_at = 0;
}

abbrev pub a_db : List Store → List PlanSubscription → List PlanInvoice → Db
a_db stores subscriptions invoices = record {
  accounts = merchant ∷ frozen_merchant ∷ [];
  stores = stores;
  payment_links = a_link 1 ∷ a_link 2 ∷ [];
  payments = [];
  endpoints = [];
  events = [];
  deliveries = [];
  plans = starter ∷ [];
  subscriptions = subscriptions;
  invoices = invoices;
  ledger = [];
  audit_log = [];
  next_store = 10;
  next_link = 3;
  next_payment = 1;
  next_event = 1;
  next_delivery = 1;
  next_subscription = 10;
  next_invoice = 20;
}

abbrev pub settings : Settings
settings = record {
  billing_lead_days = pos 7;
  billing_grace_days = pos 7;
  billing_enforce_enabled = true;
  enable_khr_currency = false;
  checkout_ttl_seconds = 300;
  webhook_max_attempts = 6;
  chmabapay_hq_store_id = none;
}

abbrev pub switched_off : Settings
switched_off = record settings { billing_enforce_enabled = false }

-- A sale in the store 1, and a payment of a plan fee in the store of the platform.
abbrev pub a_payment : ℕ → ℕ → PaymentStatus → Payment
a_payment id store status = record {
  id = id;
  public_id = b'p' ∷ (48 + id) ∷ [];
  store_id = store;
  payment_link_id = 1;
  amount_cents = 250;
  currency = b'U' ∷ b'S' ∷ b'D' ∷ [];
  reference_id = none;
  metadata = none;
  idempotency_key = none;
  status = status;
  qr_string = [];
  qr_md5 = none;
  bill_number = [];
  expires_at = 100 * day;
  scanned_at = none;
  paid_at = none;
  approved_at = none;
  bakong_ref = none;
  reversed_at = none;
  reversal_reason = none;
  gateway_status_raw = none;
  attempt_history = [];
  reissued_from_id = none;
  created_at = 99 * day;
}

abbrev pub hq_store : Store
hq_store = record (a_store 9 none StoreStatus.active) { is_internal = true }

abbrev pub an_endpoint : ℕ → Option (List Text) → WebhookEndpoint
an_endpoint id events = record {
  id = id;
  account_id = 1;
  url = [];
  secret_key = [];
  events = events;
  is_active = true;
}

abbrev pub a_delivery : EventDelivery
a_delivery = record {
  id = 1;
  event_id = 1;
  endpoint_id = 1;
  status = DeliveryStatus.pending;
  attempts = 0;
  next_attempt_at = none;
  last_response_status = none;
  last_error = none;
}

-- Payments of store 1 and of the platform's store, and two endpoints of the account.
abbrev pub shop : List Payment → Db
shop payments = record (a_db (a_store 1 none StoreStatus.active ∷ hq_store ∷ []) [] []) {
  payments = payments;
  endpoints = an_endpoint 1 none ∷ an_endpoint 2 (some (codes "payment.reversed" ∷ [])) ∷ [];
}
