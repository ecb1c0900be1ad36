-- ===== src/Tests/Boot.antt =====
-- A boot on a bank with an open debit of alice, whose database answers the third ping: the theorems at this input.
use eventledger.Prelude.{
  ℕ, ◌≡◌, ◌+◌, ◌*◌, arith, Bool, String, List, [], ◌∷◌, ◌++◌, false, some, ltb, if◌then◌else◌,
}
use eventledger.Domain.Errors.{Result, ok, err, text}
use eventledger.Eventstore.Memory.{Memory, memory_store, put}
use eventledger.Bus.{new_in_memory}
use eventledger.Saga
use eventledger.Boot.{Probe, Machine, Node, Outcome, boot, wait_for_db}
use eventledger.Boot.Wait.{Ends, wait_for_db-Ends}
use eventledger.Domain.Events.{Event, EventType, Payload, new_event}
use eventledger.Prelude.Int.{pos}
use eventledger.Projection.Apply.{handle}
use eventledger.Tests.Data.{alice_stream, stamp}
use eventledger.Tests.Projection.{empty, is_uuid, healthy}

abbrev probes : ℕ → Probe
probes k = record {
  ping = if ltb k 2 then err (text "connection refused") else ok tt;
  time = 100 + k * 600;
}

wait_for_db-Ends_example :
    (r : Result (Unit {0})) × (wait_for_db 15_000 100 probes ≡ some r) × Ends 15_100 probes r
wait_for_db-Ends_example = wait_for_db-Ends 15_000 100 probes (omega arith) (λ k. omega arith)

abbrev machine : Machine
machine = record {
  opened = ok tt;
  begun = 100;
  probes = probes;
  schema = ok "CREATE TABLE events";
  exec = λ s. ok tt;
  faults = healthy;
  is_uuid = is_uuid;
  now = 9;
}

abbrev hash : String → ℕ
hash id = 13

-- A debit of alice that is still open.
abbrev open_debit : Event
open_debit =
    record (new_event (stamp "e3") "alice" 3 EventType.transfer_debited
      (Payload.debited (record { transfer_id = "t1"; to = "bob"; amount = pos 30 }))) { seq = 3 }

abbrev history : List Event
history = alice_stream ++ open_debit ∷ []

abbrev moved : Memory
moved = record {
  streams = put (λ id. []) "alice" history;
  log = history;
  seq = 3;
  marks = λ id. false;
}

abbrev node : Node memory_store
node = record { store = moved; tables = empty; bus = new_in_memory; saga_workers = 0; queued = [] }

abbrev share : (String → Bool) → Memory → Memory
share marks s = record s { marks = marks }

-- A worker of the bus hands the debit to the projector once more.
abbrev workers : ℕ → Node memory_store → Node memory_store
workers k n = record n { tables = handle is_uuid 9 [] open_debit n.tables }

abbrev booted : Outcome × Node memory_store
booted = boot memory_store hash share workers machine node
