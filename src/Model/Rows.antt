-- ===== src/Model/Rows.antt =====
-- models.py: the rows of the tables. A status column is an enumeration of the constants that the
-- code writes to it; an instant is the number of microseconds since the Unix epoch. A column that
-- no operation of this library reads or writes is left out.
use chmabapay.Base.{ℕ, Bool, Option, List, Text}
use chmabapay.Base.Int.{ℤ}

-- microseconds since 1970-01-01T00:00Z
abbrev pub Instant : Type 0
Instant = ℕ

pub data AccountStatus : Type 0 where
  active suspended restricted : AccountStatus

pub record Account : Type 0 where
  pub id : ℕ
  pub status : AccountStatus
  pub is_platform_admin : Bool
  pub whitelabel_enabled : Bool
  pub updated_at : Instant

pub data StoreStatus : Type 0 where
  draft link_pending active disabled : StoreStatus

pub record Store : Type 0 where
  pub id : ℕ
  pub public_id : Text
  pub account_id : ℕ
  pub name : Text
  pub external_id : Option Text
  pub city : Text
  pub support_email : Option Text
  pub redirect_success_url : Option Text
  pub redirect_failure_url : Option Text
  pub telegram_chat_id : Option Text
  pub brand_color : Option Text
  pub logo_image_url : Option Text
  pub whitelabel_css : Option Text
  pub is_internal : Bool
  pub billing_suspended_at : Option Instant
  pub status : StoreStatus
  pub updated_at : Instant

pub data Verification : Type 0 where
  verified unverified : Verification

pub record PaymentLink : Type 0 where
  pub id : ℕ
  pub store_id : ℕ
  pub is_aba_payway : Bool  -- `link_type == LINK_ABA_PAYWAY`
  pub raw_link : Text
  pub merchant_account_id : Text
  pub merchant_name : Option Text
  pub payway_client_id : Option Text
  pub currency : Text
  pub verification : Verification
  pub min_amount_cents : ℕ
  pub max_amount_cents : Option ℕ
  pub is_active : Bool  -- `status == "active"`

pub data PaymentStatus : Type 0 where
  pending scanned paid expired failed superseded reversed : PaymentStatus

-- The session of an ABA hosted checkout, which is kept under the key `payway_hosted`.
pub record HostedSession : Type 0 where
  pub client_id : Text
  pub token : Text
  pub request_time : Text
  pub tran_id : Option Text
  pub expires_in_seconds : Option ℕ
  pub qr_string : Text

-- The JSON column `gateway_status_raw`: the hosted session, if there is one, and the rest.
pub record GatewayRaw : Type 0 where
  pub payway_hosted : Option HostedSession
  pub evidence : Text

-- The JSON column `metadata`: whether its key `synthetic` is `true`, and the rest.
pub record Metadata : Type 0 where
  pub synthetic : Bool
  pub entries : Text

-- An entry of the JSON column `attempt_history`.
pub data Attempt : Type 0 where
  reissued : Text → Instant → Attempt
  detection : Text → Attempt

pub record Payment : Type 0 where
  pub id : ℕ
  pub public_id : Text
  pub store_id : ℕ
  pub payment_link_id : ℕ
  pub amount_cents : ℕ
  pub currency : Text
  pub reference_id : Option Text
  pub metadata : Option Metadata
  pub idempotency_key : Option Text
  pub status : PaymentStatus
  pub qr_string : Text
  pub qr_md5 : Option Text
  pub bill_number : Text
  pub expires_at : Instant
  pub scanned_at : Option Instant
  pub paid_at : Option Instant
  pub approved_at : Option Instant
  pub bakong_ref : Option Text
  pub reversed_at : Option Instant
  pub reversal_reason : Option Text
  pub gateway_status_raw : Option GatewayRaw
  pub attempt_history : List Attempt
  pub reissued_from_id : Option ℕ
  pub created_at : Instant

pub data EventType : Type 0 where
  completed scanned expired failed superseded reversed : EventType

pub record WebhookEndpoint : Type 0 where
  pub id : ℕ
  pub account_id : ℕ
  pub url : Text
  pub secret_key : Text
  pub events : Option (List Text)
  pub is_active : Bool  -- `status == WEBHOOK_ENDPOINT_ACTIVE`

-- The JSON column `payload`, in the parts that depend on the payment's state.
pub record EventPayload : Type 0 where
  pub financial : Bool
  pub payment_id : Text
  pub payment_status : PaymentStatus
  pub amount : Text
  pub currency : Text
  pub reference_id : Option Text
  pub metadata : Option Metadata
  pub created_at : Instant
  pub expires_at : Instant
  pub approved_at : Option Instant
  pub paid_at : Option Instant
  pub reversed_at : Option Instant
  pub settled_late : Bool
  pub store_id : Text
  pub store_name : Text
  pub redirect_success_url : Option Text
  pub external_id : Option Text

pub record Event : Type 0 where
  pub id : ℕ
  pub account_id : ℕ
  pub store_id : ℕ
  pub payment_id : ℕ
  pub type : EventType
  pub payload : EventPayload

pub data DeliveryStatus : Type 0 where
  pending retrying success failed : DeliveryStatus

pub record EventDelivery : Type 0 where
  pub id : ℕ
  pub event_id : ℕ
  pub endpoint_id : ℕ
  pub status : DeliveryStatus
  pub attempts : ℕ
  pub next_attempt_at : Option Instant
  pub last_response_status : Option ℕ
  pub last_error : Option Text

pub record Plan : Type 0 where
  pub id : ℕ
  pub code : Text
  pub monthly_fee_cents : ℕ
  pub base_payments_included : ℕ
  pub max_stores : Option ℕ
  pub is_public : Bool
  pub is_active : Bool

pub data SubscriptionStatus : Type 0 where
  trial active pending canceled : SubscriptionStatus

pub record PlanSubscription : Type 0 where
  pub id : ℕ
  pub account_id : ℕ
  pub plan_id : ℕ
  pub status : SubscriptionStatus
  pub started_at : Option Instant
  pub canceled_at : Option Instant
  pub next_billing_at : Instant
  pub created_at : Instant
  pub updated_at : Instant

-- `draft` and `issued` are the legacy names of `open`.
pub data InvoiceStatus : Type 0 where
  opened paid void draft issued : InvoiceStatus

pub data VoidReason : Type 0 where
  downgraded superseded grace_expired pre_lifecycle operator : VoidReason

-- `YYYY-MM`, as the year and the month
abbrev pub PeriodMonth : Type 0
PeriodMonth = ℕ × ℕ

pub record PlanInvoice : Type 0 where
  pub id : ℕ
  pub account_id : ℕ
  pub subscription_id : Option ℕ
  pub period_month : PeriodMonth
  pub period_start : Option Instant
  pub period_end : Option Instant
  pub due_at : Option Instant
  pub status : InvoiceStatus
  pub base_fee_cents : ℕ
  pub usage_payments_count : ℤ
  pub overage_payments_count : ℕ
  pub overage_fee_cents : ℕ
  pub total_due_cents : ℕ
  pub paid_at : Option Instant
  pub voided_at : Option Instant
  pub void_reason : Option VoidReason
  pub chmabapay_payment_id : Option ℕ
  pub updated_at : Instant

pub data ResourceType : Type 0 where
  payment payment_reversal : ResourceType

pub record PlanLedgerEntry : Type 0 where
  pub account_id : ℕ
  pub period_month : PeriodMonth
  pub resource_type : ResourceType
  pub resource_id : Text
  pub amount_cents_delta : ℤ
  pub total_payments_count : ℤ

-- The audit rows that the modelled operations write, with their details.
pub data AuditAction : Type 0 where
  account_frozen : ℕ → ℕ → Option Instant → AuditAction  -- invoice, total due, due at
  reinstated : ℕ → ℕ → ℤ → Instant → Text → AuditAction  -- lapsed, granted, gap days, end, source
  store_disabled : Text → AuditAction
  store_created : Text → Option Text → AuditAction  -- name, external id
  store_updated : List Text → AuditAction  -- the fields that were sent
  -- account, name, the currency where a new store's link is recorded
  store_link_set : Text → Option Text → Option Text → Verification → AuditAction
  store_enabled : Text → StoreStatus → AuditAction
  plan_changed : Option Text → Text → AuditAction  -- from, to
  plan_change_requested : Option Text → Text → ℕ → PeriodMonth → AuditAction  -- and the invoice
  slot_moved : Text → Option ℕ → AuditAction  -- name, displaced store

pub record AuditLog : Type 0 where
  pub actor_account_id : Option ℕ
  pub action : AuditAction
  pub target_id : ℕ
