-- ===== src/Eventstore/Memory.antt =====
-- internal/eventstore/memory.go: the store in memory. Each operation holds the mutex from its first
-- read to its last write, so it is one step on the state.
pub mod Loop
pub mod Append
pub mod Contract
pub mod Lock
pub mod Coherent
pub mod Transfers
use eventledger.Prelude.{
  ℕ, suc, ◌+◌, Bool, true, false, ◌&&◌, ◌||◌, not, String, List, [], ◌∷◌, ◌++◌, str_eq, ◌==◌,
  if◌then◌else◌, length,
}
use eventledger.Domain.Errors.{Sentinel, Result, ok, err, fail}
use eventledger.Domain.Json.{string_field}
use eventledger.Domain.Events.{Event, EventType, type_eq}
use eventledger.Domain.Account.{Account, blank, replay}
use eventledger.Eventstore.Port.{Store}

-- A Go map with a zero value for the keys that it lacks, as all maps of this file are read.
abbrev pub Map : Type 0 → Type 0
Map V = String → V

abbrev pub put : {V : Type 0} → Map V → String → V → Map V
put m k v j = if str_eq k j then v else m j

-- The mutex is left out.
pub record Memory : Type 0 where
  pub streams : Map (List Event)
  pub log : List Event
  pub seq : ℕ
  pub marks : Map Bool

unfoldable pub new_memory : Memory
new_memory = record { streams = λ id. []; log = []; seq = 0; marks = λ id. false }

-- What the loop of Append changes: the local slice, and the two fields of the store.
pub record Appending : Type 0 where
  pub stream : List Event
  pub log : List Event
  pub seq : ℕ

abbrev pub push : Event → Appending → Appending
push e w = record {
  stream = w.stream ++ record e { seq = suc w.seq } ∷ [];
  log = w.log ++ record e { seq = suc w.seq } ∷ [];
  seq = suc w.seq;
}

-- The loop; `want` is `expectedVersion + int64(i) + 1`. What was written before a return stays.
unfoldable pub append_from : String → ℕ → List Event → Appending → Result (Unit {0}) × Appending
append_from id want [] w = (ok tt, w)
append_from id want (e ∷ events) w =
    let rest = append_from id (want + 1) events (push e w) in
    if not (str_eq e.aggregate_id id)
    then (fail Sentinel.aggregate_mismatch, w)
    else if not (e.version == want)
    then (fail Sentinel.concurrency, w)
    else rest

-- `s.streams[aggregateID] = stream` after the loop, which a return inside the loop skips.
abbrev pub conclude : String → Memory → Result (Unit {0}) × Appending → Result (Unit {0}) × Memory
conclude id s (ok x, w) =
    (ok x, record s { streams = put s.streams id w.stream; log = w.log; seq = w.seq })
conclude id s (err x, w) = (err x, record s { log = w.log; seq = w.seq })

unfoldable pub append : String → ℕ → List Event → Memory → Result (Unit {0}) × Memory
append id expected events s =
    if not (length (s.streams id) == expected)
    then (fail Sentinel.concurrency, s)
    else conclude id s (
        append_from id (expected + 1) events
          (record { stream = s.streams id; log = s.log; seq = s.seq }))

abbrev pub load_stream : List Event → Result Account
load_stream [] = fail Sentinel.account_not_found
load_stream (e ∷ stream) = replay blank (e ∷ stream)

unfoldable pub load : String → Memory → Result Account
load id s = load_stream (s.streams id)

-- The events that pass a test, in order: the loops that build `out`.
unfoldable pub select : (Event → Bool) → List Event → List Event
select test [] = []
select test (e ∷ log) = let rest = select test log in if test e then e ∷ rest else rest

unfoldable pub load_unprocessed : Memory → Result (List Event)
load_unprocessed s = ok (select (λ e. not (s.marks e.id)) s.log)

unfoldable pub mark_processed : String → Memory → Memory
mark_processed id s = record s { marks = put s.marks id true }

abbrev or_empty : Result String → String
or_empty (ok s) = s
or_empty (err e) = ""

unfoldable pub transfer_id_of : Event → String
transfer_id_of e = or_empty (string_field "transfer_id" e.payload)

-- The first loop of PendingTransferDebits, over the map `settled`.
unfoldable pub settle : Map Bool → List Event → Map Bool
settle settled [] = settled
settle settled (e ∷ log) =
    settle
      (if type_eq e.type EventType.transfer_credited || type_eq e.type EventType.transfer_reversed
        then put settled (transfer_id_of e) true
        else settled)
      log

unfoldable pub pending_transfer_debits : Memory → Result (List Event)
pending_transfer_debits s =
    let settled = settle (λ id. false) s.log in
    ok (
      select (λ e. type_eq e.type EventType.transfer_debited && not (settled (transfer_id_of e)))
        s.log)

-- The loop of HasTransferEvent, which returns at the first hit.
unfoldable pub mentions : EventType → String → List Event → Bool
mentions type transfer_id [] = false
mentions type transfer_id (e ∷ log) =
    (type_eq e.type type && str_eq (transfer_id_of e) transfer_id) || mentions type transfer_id log

unfoldable pub has_transfer_event : EventType → String → Memory → Result Bool
has_transfer_event type transfer_id s = ok (mentions type transfer_id s.log)

unfoldable pub events_by_aggregate : String → Memory → Result (List Event)
events_by_aggregate id s = ok (s.streams id)

-- Memory implements Store.
abbrev pub memory_store : Store
memory_store = record {
  State = Memory;
  append = append;
  load = load;
  load_unprocessed = load_unprocessed;
  pending_transfer_debits = pending_transfer_debits;
  has_transfer_event = has_transfer_event;
  events_by_aggregate = events_by_aggregate;
}
