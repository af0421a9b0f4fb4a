-- ===== src/Portal.antt =====
-- routers/billing.py: the plan that an account moves to, and the code that pays a plan invoice.
pub mod ChangePlan
pub mod Loaded
pub mod Purchase
pub mod Chosen
pub mod Bought
pub mod InvoiceCode
pub mod Unsettled
pub mod LateFee
