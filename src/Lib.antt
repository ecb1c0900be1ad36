-- ===== src/Lib.antt =====
-- The verification library of eventledger, an event-sourced ledger in Go.
--
-- The program keeps bank accounts as streams of events. A command loads an account by replaying its
-- stream, decides on an event, and appends it under an optimistic lock; the event then goes to a bus.
--
-- Prelude models no code: shared names, native lists, integers and int64 with its wrap-around.
-- Domain is internal/domain: Errors the sentinels of account.go, store.go and app.go with errors.Is;
--   Json what is used of encoding/json; Events is events.go, with NewID in Id; Account is account.go,
--   with the JSON form of an account in Account/State.
-- Database is what the code uses of database/sql: statements on tables, and calls that may fail.
-- Eventstore is internal/eventstore: Port is the interface Store of store.go with its promise
--   IsEventStore; Memory is memory.go, method by method; Postgres is postgres.go over the tables events,
--   snapshots and processed_events of migrations/001_schema.sql, with a function for each SQL
--   statement in Postgres/Rows, and the map memory_of to the store in memory in Postgres/Load.
-- App is internal/app/app.go over any Store: mutate and the commands, with the steps of other
--   goroutines as functions on the world at each place where they can run.
-- Saga is internal/saga/transfer.go: handle, catch_up and process, over the interface Commands. Its
--   theorems take the commands of App over the store in memory. Workers are the steps of its queue.
-- Projection is internal/projection/projector.go over the read tables of migrations/001_schema.sql:
--   Tables has a function for each SQL statement, Apply the methods, with the errors that Postgres may
--   answer as a list of faults; Demands lists the statements that each type of event asks for, and
--   Rebuild compares its balances with the accounts of Domain.
-- Query is internal/query/query.go over the same tables.
-- Bus is internal/bus/bus.go: the steps of Subscribe, Start, Publish, the workers and Close.
-- Pipeline is the bus and the saga together while nothing is shut down, as far as they wait for one
--   another: Publish, the workers of bus.go, Handle and the workers of transfer.go. Its commands append
--   before they publish, with new ids and growing versions, and the outcomes of the saga pass
--   HasTransferEvent.
-- Boot is cmd/api/main.go up to the listener: waitForDB, migrate, the catch-ups and the start of the
--   workers, over Projection, Bus and Saga and any Store; what the workers do while the saga catches up
--   is a function on the node, and the store reads the marks of events from the tables of the projector.
-- Api is internal/api: Keys is the store of idempotency keys in memory, of idempotency.go, and Stored
--   that on Postgres; Serve the wrapper idempotent, validateIdempotencyKey and writeError of server.go;
--   Runs the steps of requests and handlers, in any order; Handlers the handlers of server.go over App
--   and Query; RateLimit is ratelimit.go, with the arithmetic of float64 as a parameter; Server the
--   middlewares, the recorder and idempotent as a whole, as the calls made of http.ResponseWriter.
-- Tests holds data, runs and instances.
--
-- Bounds. Amounts and balances are int64 (wrapping) integers. Versions and seq are natural numbers:
-- they count events in memory or rows, far below 2 ^ 63 (Postgres refuses a version from 2 ^ 63 on).
-- A balance is exact up to version 92,233,720,368, since each event moves at most 100,000,000 cents.
-- The loop of mutate has the program's own bound of 5 rounds, that of the saga its 3 attempts.
-- The loop of waitForDB has fuel for timeout / 500 + 2 rounds, which is enough since each sleeps 500 ms.
--
-- Not modelled: the table of routes, the listener, the signals and the order of the shutdown, the
-- length of back-offs, the bytes of crypto/rand (each new id is an argument of the commands). JSON
-- keys are matched exactly, and the texts of encoding/json's errors and the escapes of %q are left
-- out. The tables are keyed by the texts of their UUIDs, and `is_uuid` stands for the texts that
-- Postgres takes for a UUID and gives back unchanged. A commit that reports an error is taken as
-- not done, a rollback gives the tables back as they were at the begin, and the times of rows are
-- counted in microseconds. Texts are valid UTF-8 without a NUL: the replacement of invalid bytes by
-- encoding/json and the refusal of a NUL escape by JSONB are left out. The laws that RateLimit
-- asks of its numbers hold of float64 for the values that occur, which stay below the burst of 100
-- and far below 2 ^ 53.
pub mod Prelude
pub mod Domain
pub mod Database
pub mod Eventstore
pub mod App
pub mod Saga
pub mod Query
pub mod Projection
pub mod Bus
pub mod Pipeline
pub mod Api
pub mod Boot
pub mod Tests
