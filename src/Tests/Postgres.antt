-- ===== src/Tests/Postgres.antt =====
-- The store on Postgres with the rows of one account, and a transfer out of it: its theorems at
-- concrete inputs.
use eventledger.Prelude.{
  ◌≡◌, ◌↔◌, refl, subst, arith, Bool, false, not, String, List, [], ◌∷◌, none, length, str_eq, ◌⊎◌,
}
use eventledger.Prelude.Int.{pos}
use eventledger.Domain.Errors.{ok}
use eventledger.Domain.Json.{Value}
use eventledger.Domain.Events.{Event, EventType, Payload, new_event}
use eventledger.Domain.Decide.{deposits, event_of}
use eventledger.Database.{Db, exec, call}
use eventledger.Eventstore.Memory
use eventledger.Eventstore.Port.{IsEventStore}
use eventledger.Eventstore.Postgres.{
  append, append_rows, insert_all, load, load_unprocessed, pending_transfer_debits,
  has_transfer_event, postgres_store,
}
use eventledger.Eventstore.Postgres.Rows.{EventTables, insert_event, any_event}
use eventledger.Eventstore.Postgres.Stored.{stream, IsStored}
use eventledger.Eventstore.Postgres.Load.{memory_of, load-memory_of}
use eventledger.Eventstore.Postgres.Queries.{database, queries-memory_of}
use eventledger.Eventstore.Postgres.Contract.{append-IsStored, postgres_store-IsEventStore}
use eventledger.Eventstore.Postgres.Accept.{append-memory_of}
use eventledger.Tests.Data.{program, stamp, alice, alice_opened, alice_deposit, alice_stream}

abbrev is_text : String → Bool
is_text s = not (str_eq s "")

abbrev quoted : Value → String
quoted v = "?"

abbrev no_rows : EventTables
no_rows = record { events = []; next_seq = 1; snapshots = λ id. none; processed = λ id. false }

no_rows-IsStored : IsStored no_rows
unfolding program
no_rows-IsStored = record {
  indexed = λ id. tt;
  short = λ id. omega arith;
  snapshots = λ id. tt;
  ordered = omega arith;
}

abbrev rows : EventTables
rows = record {
  events = alice_stream;
  next_seq = 3;
  snapshots = λ id. none;
  processed = λ id. false;
}

abbrev opening : List Event
opening = alice_opened ∷ alice_deposit ∷ []

-- The rows are those that Append leaves in the empty tables.
append_rows_of_alice : append is_text "alice" 0 opening (database no_rows) ≡ (ok tt, database rows)
unfolding program append append_rows insert_all insert_event any_event exec call
append_rows_of_alice = refl

append-IsStored_example : IsStored (append is_text "alice" 0 opening (database no_rows)).1.tables
append-IsStored_example =
    append-IsStored is_text "alice" 0 opening (database no_rows) no_rows-IsStored (omega arith)

rows-IsStored : IsStored rows
rows-IsStored = subst (λ r. IsStored r.1.tables) append_rows_of_alice append-IsStored_example

load-memory_of_example : load is_text "alice" (database rows) ≡ Memory.load "alice" (memory_of rows)
load-memory_of_example = load-memory_of is_text "alice" rows rows-IsStored refl

postgres_store-IsEventStore_example :
    (es : IsEventStore (postgres_store is_text quoted)) × ((db : Db EventTables)
      → IsStored db.tables
      → es.Valid db)
    × ((db : Db EventTables) (id : String) → es.stream db id ≡ stream db.tables id)
postgres_store-IsEventStore_example = postgres_store-IsEventStore is_text quoted

abbrev next : Event
next = event_of (deposits (pos 5) "") (stamp "e3") alice

append-memory_of_example :
    ((append is_text "alice" 2 (next ∷ []) (database rows)).0
      ≡ (Memory.append "alice" 2 (next ∷ []) (memory_of rows)).0)
    × ((length (stream rows "alice") ≡ 2)
        ↔ ((append is_text "alice" 2 (next ∷ []) (database rows)).0 ≡ ok tt))
unfolding program any_event
append-memory_of_example =
    append-memory_of is_text "alice" 2 next [] rows rows-IsStored refl (refl, refl, tt)
      (refl, refl, refl, tt) (omega arith) (omega arith)

abbrev late : Event
late = record next { version = 9 }

-- Two transfers have left the account, and one of them has been reversed.
abbrev debit : String → Event
debit transfer_id =
    new_event (stamp "d") "alice" 3 EventType.transfer_debited
      (Payload.debited (record { transfer_id = transfer_id; to = "bob"; amount = pos 30 }))

abbrev reversal : Event
reversal = new_event (stamp "r") "alice" 5 EventType.transfer_reversed (
    Payload.reversed (record { transfer_id = "t2"; amount = pos 30; reason = "account not found" }))

abbrev transfers : EventTables
transfers = record no_rows {
  events =
      record (debit "t1") { seq = 1 }
      ∷ record (debit "t2") { seq = 2 }
      ∷ record reversal { seq = 3 }
      ∷ [];
  next_seq = 4;
}

queries-memory_of_example :
    (load_unprocessed (database transfers) ≡ Memory.load_unprocessed (memory_of transfers))
    × (pending_transfer_debits quoted (database transfers)
        ≡ Memory.pending_transfer_debits (memory_of transfers))
    × ((type : EventType) (transfer_id : String)
        → (type ≡ EventType.transfer_credited) ⊎ (type ≡ EventType.transfer_reversed)
        → has_transfer_event quoted type transfer_id (database transfers)
          ≡ Memory.has_transfer_event type transfer_id (memory_of transfers))
unfolding program
queries-memory_of_example =
    queries-memory_of quoted transfers (omega arith, (omega arith, (omega arith, omega arith)))
      ((λ p. refl), ((λ p. refl), ((λ p. refl), tt)))
