-- ===== src/Model/Database.antt =====
-- The state that a session reads and writes: one list of rows for each table, in the order of
-- insertion, and the next primary key of each table that the operations insert into.
use chmabapay.Base.{ℕ, Bool, Option, List, Text}
use chmabapay.Base.Int.{ℤ}
use chmabapay.Model.Rows.{
  Account, Store, PaymentLink, Payment, WebhookEndpoint, Event, EventDelivery, Plan,
  PlanSubscription, PlanInvoice, PlanLedgerEntry, AuditLog,
}

pub record Db : Type 0 where
  pub accounts : List Account
  pub stores : List Store
  pub payment_links : List PaymentLink
  pub payments : List Payment
  pub endpoints : List WebhookEndpoint
  pub events : List Event
  pub deliveries : List EventDelivery
  pub plans : List Plan
  pub subscriptions : List PlanSubscription
  pub invoices : List PlanInvoice
  pub ledger : List PlanLedgerEntry
  pub audit_log : List AuditLog
  pub next_store : ℕ
  pub next_link : ℕ
  pub next_payment : ℕ
  pub next_event : ℕ
  pub next_delivery : ℕ
  pub next_subscription : ℕ
  pub next_invoice : ℕ

-- The fields of config.py's `Settings` that the modelled operations read.
pub record Settings : Type 0 where
  pub billing_lead_days : ℤ
  pub billing_grace_days : ℤ
  pub billing_enforce_enabled : Bool
  pub enable_khr_currency : Bool
  pub checkout_ttl_seconds : ℕ
  pub webhook_max_attempts : ℕ
  pub chmabapay_hq_store_id : Option Text
