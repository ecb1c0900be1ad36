-- ===== src/Tests.antt =====
-- Test data, runs of the model on it, and the theorems at concrete inputs.
mod Data
mod Domain
mod Store
mod Postgres
mod App
mod Saga
mod Projection
mod Api
mod Boot
mod Bus
mod Pipeline
mod Server
