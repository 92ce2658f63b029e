-- ===== src/Shared.antt =====
-- The package shared/: the enums, the tables of the order's state machine and the rules that both
-- sides of the program apply.
pub mod Enums
pub mod Offers
pub mod Orders
pub mod State
pub mod Dates
pub mod Labels
pub mod OrderNumber
pub mod Texts
