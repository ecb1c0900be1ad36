-- ===== src/Eventstore/Postgres/Rows.antt =====
-- The tables events, snapshots and processed_events of migrations/001_schema.sql, and the SQL
-- statements of internal/eventstore/postgres.go as functions on them. JSONB and TIMESTAMPTZ give back
-- what was stored: times are counted in microseconds.
use eventledger.Prelude.{
  ℕ, suc, Bool, true, false, ◌&&◌, ◌||◌, not, String, List, [], ◌∷◌, ◌++◌, Option, none, some,
  str_eq, ltb, leb, ◌==◌, if◌then◌else◌,
}
use eventledger.Prelude.Int.{half_range}
use eventledger.Domain.Errors.{pq, Result, ok, err}
use eventledger.Domain.Json.{
  RawMessage, object, null_message, malformed, Value, str, num, boolean, null, composite,
}
use eventledger.Domain.Events.{Event, EventType, type_eq}
use eventledger.Domain.Account.{Account}
use eventledger.Domain.Account.State.{marshal_account}
use eventledger.Eventstore.Memory.{select}

-- A row of snapshots.
pub record Snapshot : Type 0 where
  pub version : ℕ
  pub state : RawMessage

-- The rows of events in the order in which they were inserted, with the next value of their sequence;
-- the snapshots by account; the ids in processed_events.
pub record EventTables : Type 0 where
  pub events : List Event
  pub next_seq : ℕ
  pub snapshots : String → Option Snapshot
  pub processed : String → Bool

-- ORDER BY: a stable sort on a column.
unfoldable pub insert_by : (Event → ℕ) → Event → List Event → List Event
insert_by key e [] = e ∷ []
insert_by key e (f ∷ fs) =
    let rest = insert_by key e fs in if leb (key e) (key f) then e ∷ f ∷ fs else f ∷ rest

unfoldable pub order_by : (Event → ℕ) → List Event → List Event
order_by key [] = []
order_by key (e ∷ es) = insert_by key e (order_by key es)

unfoldable pub any_event : (Event → Bool) → List Event → Bool
any_event test [] = false
any_event test (e ∷ es) = test e || any_event test es

-- The two UNIQUE constraints of events.
abbrev pub clashes : Event → Event → Bool
clashes e f = str_eq f.id e.id || (str_eq f.aggregate_id e.aggregate_id && f.version == e.version)

abbrev pub is_json : RawMessage → Bool
is_json malformed = false
is_json m = true

abbrev pub add_event : Event → EventTables → EventTables
add_event e t = record t {
  events = t.events ++ record e { seq = t.next_seq } ∷ [];
  next_seq = suc t.next_seq;
}

-- A value of the sequence is used up also by a row that is refused, and by a rollback.
abbrev pub refused : String → String → EventTables → Result ℕ × EventTables
refused code message t = (err (pq code message), record t { next_seq = suc t.next_seq })

-- ON CONFLICT … DO UPDATE … WHERE snapshots.version < EXCLUDED.version
abbrev pub newer : Option Snapshot → Snapshot → Snapshot
newer none s = s
newer (some old) s = if ltb old.version s.version then s else old

unfoldable pub unprocessed : EventTables → Result (List Event)
unprocessed t = ok (order_by (λ e. e.seq) (select (λ e. not (t.processed e.id)) t.events))

abbrev text_of : (Value → String) → Value → Option String
text_of shown (str s) = some s
text_of shown null = none
text_of shown (num n) = some (shown (num n))
text_of shown (boolean b) = some (shown (boolean b))
text_of shown composite = some (shown composite)

-- `data ->> '<key>'`: the text of a field, or NULL. `shown` is the text of a value that is no string.
abbrev text_from : (Value → String) → Option String → String → List (String × Value) → Option String
text_from shown acc key [] = acc
text_from shown acc key ((k, v) ∷ fields) =
    text_from shown (if str_eq k key then text_of shown v else acc) key fields

abbrev pub text_field : (Value → String) → String → RawMessage → Option String
text_field shown key (object fields) = text_from shown none key fields
text_field shown key null_message = none
text_field shown key malformed = none

-- `=` between texts, where NULL is equal to nothing.
abbrev pub sql_eq : Option String → Option String → Bool
sql_eq none y = false
sql_eq (some x) none = false
sql_eq (some x) (some y) = str_eq x y

-- `is_uuid` tells the texts that Postgres gives back for a UUID.
module _ (is_uuid : String → Bool) where
  -- INSERT INTO events …, with the casts and the constraints of the table.
  unfoldable pub insert_event : Event → EventTables → Result ℕ × EventTables
  insert_event e t =
      if not
        (is_uuid e.id && is_uuid e.aggregate_id && is_json e.payload && ltb e.version half_range)
      then (err (pq "22P02" "invalid input syntax"), t)
      else if e.version == 0
      then refused "23514" "violates check constraint" t
      else if any_event (clashes e) t.events
      then refused "23505" "duplicate key value violates unique constraint" t
      else (ok 1, add_event e t)

  unfoldable pub snapshot_of : String → EventTables → Result (Option Snapshot)
  snapshot_of id t =
      if is_uuid id then ok (t.snapshots id) else err (pq "22P02" "invalid input syntax")

  -- The rows of an aggregate above a version, in their order.
  unfoldable pub events_above : String → ℕ → EventTables → Result (List Event)
  events_above id version t =
      if is_uuid id
      then ok (
          order_by (λ e. e.version)
            (select (λ e. str_eq e.aggregate_id id && ltb version e.version) t.events))
      else err (pq "22P02" "invalid input syntax")

  unfoldable pub upsert_snapshot : String → Account → EventTables → Result ℕ × EventTables
  upsert_snapshot id a t =
      if not (is_uuid id && ltb a.version half_range)
      then (err (pq "22P02" "invalid input syntax"), t)
      else if a.version == 0
      then (err (pq "23514" "violates check constraint"), t)
      else (
        ok 1,
        record t {
          snapshots = λ j.
              if str_eq id j
              then some (
                  newer (t.snapshots id)
                    (record { version = a.version; state = marshal_account a }))
              else t.snapshots j;
        },
      )

  unfoldable pub stream_of : String → EventTables → Result (List Event)
  stream_of id t =
      if is_uuid id
      then ok (order_by (λ e. e.version) (select (λ e. str_eq e.aggregate_id id) t.events))
      else err (pq "22P02" "invalid input syntax")

module _ (shown : Value → String) where
  abbrev pub transfer_of : Event → Option String
  transfer_of e = text_field shown "transfer_id" e.payload

  abbrev pub settles : Event → Event → Bool
  settles e c =
      (type_eq c.type EventType.transfer_credited || type_eq c.type EventType.transfer_reversed)
      && sql_eq (transfer_of c) (transfer_of e)

  unfoldable pub pending_debits : EventTables → Result (List Event)
  pending_debits t = ok (
      order_by (λ e. e.seq)
        (select
          (λ e. type_eq e.type EventType.transfer_debited && not (any_event (settles e) t.events))
          t.events))

  unfoldable pub exists_transfer : EventType → String → EventTables → Result Bool
  exists_transfer type transfer_id t =
      ok
        (any_event (λ e. type_eq e.type type && sql_eq (transfer_of e) (some transfer_id)) t.events)
