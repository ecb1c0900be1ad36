-- ===== src/Domain.antt =====
-- The package internal/domain: errors, events with their JSON payloads, and the account aggregate.
pub mod Errors
pub mod Json
pub mod Events
pub mod Id
pub mod Account
pub mod RoundTrip
pub mod Replay
pub mod Decide
pub mod Rules
pub mod Sound
