-- ===== src/Subscriptions.antt =====
-- services/subscriptions: how a subscription is made, and how it is billed.
pub mod Calendar
pub mod Creation
pub mod Billing
pub mod Charge
pub mod Rest
pub mod Periods
pub mod Payee
pub mod Outcome
mod Tests
