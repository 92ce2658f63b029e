-- ===== src/Interface.antt =====
-- frontend/src/lib: the rules by which the interface shows an order and its buttons.
pub mod Access
pub mod Submissions
pub mod Actions
pub mod Texts
pub mod Redirects
pub mod Contacts
pub mod Views
pub mod Live
pub mod Navigation
pub mod Sockets
pub mod Forms
pub mod OfferForm
pub mod Tests
