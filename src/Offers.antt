-- ===== src/Offers.antt =====
-- backend/src/modules/offers: what companies are offered, and their offers.
pub mod Feed
pub mod Service
pub mod Actions
pub mod Lists
pub mod Tests
