-- ===== src/Store.antt =====
-- The database of the backend: the tables of backend/prisma/schema.prisma and, as an interface, what
-- the program asks of the Prisma client.
pub mod Tables
pub mod Queries
pub mod Tx
pub mod Notices
