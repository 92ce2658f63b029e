-- ===== src/Orders.antt =====
-- backend/src/modules/orders: the order's life.
pub mod Notification
pub mod Machine
pub mod Transition
pub mod View
pub mod Workflow
pub mod Detail
pub mod Actions
pub mod Service
