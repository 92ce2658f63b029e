-- ===== src/Realtime.antt =====
-- backend/src/modules/realtime: what is sent to whom after an action.
pub mod Events
pub mod Actions
pub mod Adapter
pub mod Gateway
