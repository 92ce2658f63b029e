-- ===== src/Files.antt =====
-- backend/src/modules/files: the room that files take, and who may read them.
pub mod Quota
pub mod Access
pub mod Uploads
pub mod Attach
pub mod Validation
pub mod Tests
