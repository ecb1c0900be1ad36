-- ===== src/Boot.antt =====
-- cmd/api/main.go: the boot up to the listener of the API. The environment, the files, the clock and
-- the answers of Postgres that the boot meets are given.
pub mod Wait
pub mod Serving
use eventledger.Prelude.{
  ℕ, zero, suc, ◌+◌, ◌/◌, Bool, String, List, [], ◌∷◌, ◌++◌, Option, none, some, str_eq, ltb,
  if◌then◌else◌,
}
use eventledger.Domain.Errors.{Error, text, Result, ok, err, ◌>>=◌}
use eventledger.Domain.Events.{Event}
use eventledger.Eventstore.Port.{Store}
use eventledger.Projection.Tables.{Tables}
use eventledger.Projection.Apply.{catch_up}
use eventledger.Bus.{Bus, new_in_memory, subscribe, start}
use eventledger.Saga

-- envOr; no text stands for a variable that is not set.
unfoldable pub env_or : Option String → String → String
env_or none default = default
env_or (some v) default = if str_eq v "" then default else v

-- One round of waitForDB: the answer to the ping, and the time after it, in milliseconds.
pub record Probe : Type 0 where
  pub ping : Result (Unit {0})
  pub time : ℕ

abbrev pub probed :
    Result (Unit {0}) → Bool → Option (Result (Unit {0})) → Option (Result (Unit {0}))
probed (ok u) late rest = some (ok tt)
probed (err x) late rest = if late then some (err (text "timeout waiting for database")) else rest

-- The loop of waitForDB, with fuel: none means that it still waits.
unfoldable pub wait_from : ℕ → ℕ → (ℕ → Probe) → Option (Result (Unit {0}))
wait_from zero deadline probes = none
wait_from (suc fuel) deadline probes =
    let rest = wait_from fuel deadline (λ k. probes (suc k)) in
    probed (probes 0).ping (ltb deadline (probes 0).time) rest

-- The rounds that fit before the deadline, with half a second of sleep in each, and one after it.
abbrev pub rounds : ℕ → ℕ
rounds timeout = timeout / 500 + 2

unfoldable pub wait_for_db : ℕ → ℕ → (ℕ → Probe) → Option (Result (Unit {0}))
unfolding wait_from
wait_for_db timeout begun probes = wait_from (rounds timeout) (begun + timeout) probes

-- migrate
unfoldable pub migrate : Result String → (String → Result (Unit {0})) → Result (Unit {0})
migrate schema exec = schema >>= exec

-- What the boot meets: sql.Open, the time at which waitForDB starts and its rounds, the file of the
-- schema and its execution, the faults of Postgres in the transactions of the projector, and the
-- texts that it takes for UUIDs.
pub record Machine : Type 0 where
  pub opened : Result (Unit {0})
  pub begun : ℕ
  pub probes : ℕ → Probe
  pub schema : Result String
  pub exec : String → Result (Unit {0})
  pub faults : ℕ → List (Option Error)
  pub is_uuid : String → Bool
  pub now : ℕ

-- How the boot ends: by `fatal`, at the API, or not yet.
pub data Outcome : Type 0 where
  fatal : String → Error → Outcome
  serving waiting : Outcome

module _ (st : Store) where
  -- The store, the tables of the read side, the bus, how many workers of the saga were started, and
  -- all debits that were ever put into its queue. The marks of the events stand in `tables`.
  pub record Node : Type 0 where
    pub store : st.State
    pub tables : Tables
    pub bus : Bus
    pub saga_workers : ℕ
    pub queued : List Event

  -- A send to the queue of the saga.
  abbrev pub queue_debit : Event → Node → Node
  queue_debit e n = record n { queued = n.queued ++ e ∷ [] }

  -- `if err != nil { fatal(log, what, err) }`
  abbrev pub must :
      {A : Type 0} → String → Result A → (A → Node → Outcome × Node) → Node → Outcome × Node
  must what (ok a) rest n = rest a n
  must what (err x) rest n = (fatal what x, n)

  abbrev pub ready :
      Option (Result (Unit {0})) → (Unit {0} → Node → Outcome × Node) → Node → Outcome × Node
  ready none rest n = (waiting, n)
  ready (some r) rest n = must "db unreachable" r rest n

  -- The catch-up of the projector, if there is anything to catch up with.
  abbrev pub catch_up_projector : Machine → List Event → Node → Result (Unit {0}) × Node
  catch_up_projector m [] n = (ok tt, n)
  catch_up_projector m (e ∷ pending) n =
      let (r, t) = catch_up m.is_uuid m.now m.faults (e ∷ pending) n.tables in
      (r, record n { tables = t })

  abbrev pub then_must :
      {A : Type 0} → String → (A → Node → Outcome × Node) → Result A × Node → Outcome × Node
  then_must what rest (r, n) = must what r rest n

  module _ (hash : String → ℕ) where
    -- The two subscribers, and both calls of Start; 8 partitions of 1024 events.
    abbrev pub start_workers : Node → Node
    start_workers n = record n {
      bus = start hash 8 1024 (subscribe hash 8 1024 (subscribe hash 8 1024 n.bus));
      saga_workers = 4;
    }

    -- `share` gives a store the marks of the events, which the projector writes: both are the table
    -- processed_events. `workers` are the steps that the started workers of the bus and of the saga
    -- take, the first before CatchUp of the saga asks for the pending debits, the others after each
    -- debit that it sends.
    module _ (share : (String → Bool) → st.State → st.State) (workers : ℕ → Node → Node) where
      abbrev pub shared_store : Node → st.State
      shared_store n = share n.tables.processed n.store

      abbrev pub catch_up_saga : Node → Result (Unit {0}) × Node
      catch_up_saga n =
          Saga.catch_up (λ v. st.pending_transfer_debits (shared_store v)) queue_debit
            (λ k. workers (suc k)) (workers 0 n)

      -- main, from the start of the pipeline on: the listener comes last.
      abbrev pub pipeline : Node → Outcome × Node
      pipeline n = then_must "saga catch-up" (λ u v. (serving, v)) (catch_up_saga (start_workers n))

      -- main, from LoadUnprocessed on.
      abbrev pub catch_ups : Machine → Node → Outcome × Node
      catch_ups m n =
          must "load unprocessed" (st.load_unprocessed (shared_store n))
            (λ pending v.
              then_must "projector catch-up" (λ u. pipeline) (catch_up_projector m pending v))
            n

      -- main
      unfoldable pub boot : Machine → Node → Outcome × Node
      unfolding wait_for_db migrate Saga.catch_up
      boot m = must "open db" m.opened (λ u.
          ready (wait_for_db 15_000 m.begun m.probes)
            (λ v. must "migrate" (migrate m.schema m.exec) (λ w. catch_ups m)))
