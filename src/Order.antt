-- ===== src/Order.antt =====
-- backend/src/domain/order: the prices of an order's lines, its creation, its items, its other
-- columns, and its status.
pub mod Pricing
pub mod Balance
pub mod Access
pub mod Create
pub mod Items
pub mod Records
pub mod Transition
mod Tests
