-- ===== src/Payment.antt =====
-- backend/src/domain/payment: the status that is derived from a payment, what the service reads and
-- writes, and its operations on card and cash payments, refunds and the webhooks of Stripe.
pub mod Status
pub mod Stripe
pub mod Queries
pub mod Reads
pub mod Sync
pub mod Collect
pub mod Refund
pub mod Webhook
mod Tests
