-- ===== src/Eventstore/Postgres.antt =====
-- internal/eventstore/postgres.go, method by method, over the statements of Rows. A transaction is one
-- step, as it is serializable; the snapshot that Append may save after it is a part of the same step
-- here. A commit that fails has not been done: an answer that is lost after a commit is left out.
pub mod Rows
pub mod Order
pub mod Insert
pub mod Stored
pub mod Load
pub mod Queries
pub mod Append
pub mod Grown
pub mod Keep
pub mod Contract
pub mod Fresh
pub mod Accept
use Prim.Native.Nat.{◌%◌}
use eventledger.Prelude.{
  ℕ, suc, ◌+◌, Bool, true, false, ◌&&◌, ◌||◌, not, String, List, [], ◌∷◌, ◌++◌, Option, none, some,
  str_eq, ltb, leb, ◌==◌, if◌then◌else◌,
}
use eventledger.Prelude.Int.{half_range}
use eventledger.Domain.Errors.{
  Sentinel, Error, pq, text, wrapped, sentinel, has_code, Result, ok, err, fail, within,
}
use eventledger.Domain.Json.{
  RawMessage, object, null_message, malformed, Value, str, num, boolean, null, composite,
}
use eventledger.Domain.Events.{Event, EventType, type_eq}
use eventledger.Domain.Account.{Account, blank, replay}
use eventledger.Domain.Account.State.{marshal_account, unmarshal_account}
use eventledger.Database.{
  Db, Sql, ◌>>=◌, ◌>>◌, return, answer, exec, call, query, wrap, rolled_back,
}
use eventledger.Eventstore.Port.{Store}
use eventledger.Eventstore.Memory.{select, mentions, settle, transfer_id_of}
use Rows.{
  Snapshot, EventTables, insert_by, order_by, any_event, clashes, is_json, add_event, refused,
  newer, insert_event, snapshot_of, events_above, upsert_snapshot, unprocessed, stream_of,
  text_field, sql_eq, transfer_of, settles, pending_debits, exists_transfer,
}

-- SnapshotEvery
abbrev pub snapshot_every : ℕ
snapshot_every = 50

abbrev pub restore : EventTables → EventTables → EventTables
restore before now = record before { next_seq = now.next_seq }

-- What a failed INSERT of Append returns.
abbrev pub inserted : Result ℕ × Db EventTables → Result (Unit {0}) × Db EventTables
inserted (ok n, db) = (ok tt, db)
inserted (err x, db) =
    (if has_code x "23505" then fail Sentinel.concurrency else err (wrapped "insert event" x), db)

-- `return err` under a condition.
abbrev pub fail_when : Bool → Error → Sql EventTables (Unit {0})
fail_when true x db = (err x, db)
fail_when false x db = (ok tt, db)

abbrev pub last_version : Event → List Event → ℕ
last_version e [] = e.version
last_version e (f ∷ fs) = last_version f fs

-- The account that replay starts from.
abbrev pub base_of : Option Snapshot → Result Account
base_of none = ok blank
base_of (some s) = within "unmarshal snapshot" (unmarshal_account s.state)

abbrev pub is_empty : List Event → Bool
is_empty [] = true
is_empty (e ∷ es) = false

unfoldable pub rebuild : Account → List Event → Result Account
rebuild base events =
    if base.version == 0 && is_empty events
    then fail Sentinel.account_not_found
    else replay base events

-- scanEvents: the rows are read one by one, and the reading may fail.
unfoldable pub scan_events : List Event → Sql EventTables (List Event)
scan_events rows = do call; return rows

unfoldable pub load_unprocessed : Db EventTables → Result (List Event)
load_unprocessed db = (((λ d. wrap "load unprocessed" (query unprocessed d)) >>= scan_events) db).0

-- `is_uuid` tells the texts that Postgres gives back for a UUID.
module _ (is_uuid : String → Bool) where
  -- The loop of Append; `want` is `expectedVersion + int64(i) + 1`. The numbers and ids that the
  -- error texts print are left out.
  unfoldable pub insert_all : String → ℕ → List Event → Sql EventTables (Unit {0})
  insert_all id want [] = return tt
  insert_all id want (e ∷ events) =
      fail_when (not (str_eq e.aggregate_id id)) (sentinel Sentinel.aggregate_mismatch) >>= λ u.
      fail_when (not (e.version == want)) (text "event has another version") >>= λ v.
      (λ db. inserted (exec (insert_event is_uuid e) db)) >>= λ w. insert_all id (want + 1) events

  -- The transaction of Append.
  unfoldable pub append_rows : String → ℕ → List Event → Sql EventTables (Unit {0})
  append_rows id expected events = do
    (λ db. wrap "begin tx" (call db))
    insert_all id (expected + 1) events
    (λ db. wrap "commit" (call db))

  unfoldable pub select_snapshot : String → Sql EventTables (Option Snapshot)
  select_snapshot id db = wrap "load snapshot" (query (snapshot_of is_uuid id) db)

  unfoldable pub select_rows : String → ℕ → Sql EventTables (List Event)
  select_rows id version db = wrap "load events" (query (events_above is_uuid id version) db)

  -- Load from its second query on.
  unfoldable pub load_rows : String → Account → Sql EventTables Account
  load_rows id base = do
    rows ← select_rows id base.version
    events ← scan_events rows
    answer (rebuild base events)

  unfoldable pub load_sql : String → Sql EventTables Account
  load_sql id = do found ← select_snapshot id; base ← answer (base_of found); load_rows id base

  unfoldable pub load : String → Db EventTables → Result Account
  load id db = (load_sql id db).0

  abbrev pub saved : String → Result Account × Db EventTables → Db EventTables
  saved id (err x, db) = db
  saved id (ok a, db) = (exec (upsert_snapshot is_uuid id a) db).1

  unfoldable pub save_snapshot : String → Db EventTables → Db EventTables
  save_snapshot id db = saved id (load_sql id db)

  -- What follows the transaction of Append.
  abbrev pub committed :
      String → ℕ → Result (Unit {0}) × Db EventTables → Result (Unit {0}) × Db EventTables
  committed id last (err x, db) = (err x, db)
  committed id last (ok u, db) =
      (ok tt, if last % snapshot_every == 0 then save_snapshot id db else db)

  unfoldable pub append :
      String → ℕ → List Event → Db EventTables → Result (Unit {0}) × Db EventTables
  append id expected [] db = (ok tt, db)
  append id expected (e ∷ events) db =
      committed id (last_version e events)
        (rolled_back restore db.tables (append_rows id expected (e ∷ events) db))

-- `shown` is the text of a JSON value that is no string.
module _ (shown : Value → String) where
  unfoldable pub pending_transfer_debits : Db EventTables → Result (List Event)
  pending_transfer_debits db =
      (((λ d. wrap "pending transfer debits" (query (pending_debits shown) d)) >>= scan_events)
        db).0

  unfoldable pub has_transfer_event : EventType → String → Db EventTables → Result Bool
  has_transfer_event type transfer_id db =
      (wrap "has transfer event" (query (exists_transfer shown type transfer_id) db)).0

unfoldable pub events_by_aggregate : (String → Bool) → String → Db EventTables → Result (List Event)
events_by_aggregate is_uuid id db =
    (((λ d. wrap "events by aggregate" (query (stream_of is_uuid id) d)) >>= scan_events) db).0

-- Postgres implements Store.
abbrev pub postgres_store : (String → Bool) → (Value → String) → Store
postgres_store is_uuid shown = record {
  State = Db EventTables;
  append = append is_uuid;
  load = load is_uuid;
  load_unprocessed = load_unprocessed;
  pending_transfer_debits = pending_transfer_debits shown;
  has_transfer_event = has_transfer_event shown;
  events_by_aggregate = events_by_aggregate is_uuid;
}
