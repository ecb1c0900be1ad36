-- ===== src/Projection.antt =====
-- internal/projection/projector.go: the read models and what the projector does to them. The tables
-- are those of migrations/001_schema.sql, and each statement of the source is a function on them.
-- Postgres itself is outside: whether it takes a text for a UUID is a parameter, and so are the errors
-- with which it may answer a statement, a begin or a commit.
pub mod Tables
pub mod Apply
pub mod Keep
pub mod Mirror
pub mod Applied
pub mod Entryless
pub mod Entries
pub mod Balanced
pub mod Shown
pub mod Rebuild
pub mod Markless
pub mod Atomic
pub mod Demands
pub mod Follows
pub mod Whole
pub mod Poison
