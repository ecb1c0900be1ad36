-- ===== src/Api.antt =====
-- internal/api: the idempotency keys of idempotency.go, and what server.go makes of them and of the
-- errors of the commands. The net/http package is outside: a request is what the code reads of it.
pub mod Keys
pub mod Stored
pub mod Serve
pub mod Runs
pub mod Settled
pub mod Errors
pub mod Handlers
pub mod Confirmed
pub mod Limits
pub mod RateLimit
pub mod Server
pub mod Replay
