-- ===== src/Common.antt =====
-- backend/src/common: what the backend's modules share.
pub mod Tests
pub mod Uuid
pub mod Ownership
pub mod Pagination
pub mod KeyedQueue
pub mod Semaphore
pub mod RateWindow
pub mod UploadSlots
