-- ===== src/Eventstore.antt =====
-- The package internal/eventstore: the port, what it promises, and the store in memory.
pub mod Port
pub mod Streams
pub mod Memory
pub mod Postgres
