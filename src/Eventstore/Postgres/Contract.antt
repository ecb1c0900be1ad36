-- ===== src/Eventstore/Postgres/Contract.antt =====
-- Postgres of internal/eventstore/postgres.go as an implementation of the port.
use Prim.Native.Nat.{◌%◌}
use eventledger.Prelude.{
  ℕ, ◌+◌, ◌≤◌, ◌≡◌, ◌≢◌, refl, sym, ap, ◌∙◌, Bool, true, false, String, List, [], ◌∷◌, ◌++◌, length,
  subst, inl, inr, ◌==◌, if◌then◌else◌,
}
use mathlib.Core.List.{append-nil}
use eventledger.Domain.Errors.{Error, ok, err, Result-cases}
use eventledger.Domain.Json.{Value}
use eventledger.Domain.Events.{Event}
use eventledger.Database.{Db}
use eventledger.Eventstore.Port.{IsRecorded, IsEventStore}
use eventledger.Eventstore.Memory.{select}
use eventledger.Eventstore.Memory.Coherent.{belongs}
use eventledger.Eventstore.Postgres.{
  append_rows, append, last_version, save_snapshot, snapshot_every, postgres_store,
}
use eventledger.Eventstore.Postgres.Rows.{EventTables}
use eventledger.Eventstore.Postgres.Insert.{IsGrown}
use eventledger.Eventstore.Postgres.Grown.{fresh_version, stream_own, stream_other}
use eventledger.Eventstore.Postgres.Stored.{stream, IsStored}
use eventledger.Eventstore.Postgres.Append.{
  append_rows-IsGrowing, append_rows-IsGrown, append_rows-first, committed-ok, committed-err,
}
use eventledger.Eventstore.Postgres.Keep.{
  IsGrown-IsStored, restore-IsStored, load-ok, save_snapshot-IsStored, save_snapshot-events,
}

module _ (is_uuid : String → Bool) where
  -- The events after a call of Append that returns no error are those that its transaction left.
  append-events :
      (id : String) (v : ℕ) (e : Event) (es : List Event) (db : Db EventTables)
      → (append is_uuid id v (e ∷ es) db).0 ≡ ok tt
      → IsGrown id (v + 1) (e ∷ es) db.tables (append_rows is_uuid id v (e ∷ es) db).1.tables
        × ((append is_uuid id v (e ∷ es) db).1.tables.events
            ≡ (append_rows is_uuid id v (e ∷ es) db).1.tables.events)
  unfolding append
  append-events id v e es db done =
      let r = append_rows is_uuid id v (e ∷ es) db in
      let (stored, after) = committed-ok is_uuid id (last_version e es) db.tables r done in
      (
        append_rows-IsGrown is_uuid id v (e ∷ es) db stored,
        ap (λ d. d.tables.events) after
            ∙ saved_or_not (last_version e es % snapshot_every == 0) r.1,
      )
    where
      saved_or_not :
          (b : Bool) (d : Db EventTables)
          → (if b then save_snapshot is_uuid id d else d).tables.events ≡ d.tables.events
      saved_or_not true d = save_snapshot-events is_uuid id d
      saved_or_not false d = refl

  pub append_expected :
      (id : String) (v : ℕ) (e : Event) (es : List Event) (db : Db EventTables)
      → IsStored db.tables
      → v ≤ length (stream db.tables id)
      → (append is_uuid id v (e ∷ es) db).0 ≡ ok tt
      → length (stream db.tables id) ≡ v
  unfolding append
  append_expected id v e es db h low done =
      let (stored, after) =
        committed-ok is_uuid id (last_version e es) db.tables (append_rows is_uuid id v (e ∷ es) db)
          done in
      let (here, next, small, fresh) = append_rows-first is_uuid id v e es db stored in
      fresh_version db.tables id v e h low here next fresh

  -- Append keeps the invariant, whatever fails and whether it returns an error or not, if the given
  -- version is not above that of the stream.
  pub append-IsStored :
      (id : String) (v : ℕ) (es : List Event) (db : Db EventTables)
      → IsStored db.tables
      → v ≤ length (stream db.tables id)
      → IsStored (append is_uuid id v es db).1.tables
  unfolding append
  append-IsStored id v [] db h low = h
  append-IsStored id v (e ∷ es) db h low = elim (Result-cases (append is_uuid id v (e ∷ es) db).0) [
    | inl (x, stopped) ↦
        subst IsStored
          (sym (
            committed-err is_uuid id (last_version e es) db.tables
              (append_rows is_uuid id v (e ∷ es) db) stopped))
          (restore-IsStored db.tables (append_rows is_uuid id v (e ∷ es) db).1.tables
            (append_rows-IsGrowing is_uuid id v (e ∷ es) db) h)
    | inr (u, done) ↦
        let r = append_rows is_uuid id v (e ∷ es) db in
        let (stored, after) = committed-ok is_uuid id (last_version e es) db.tables r done in
        subst (λ d. IsStored d.tables) (sym after)
          (saved_or_not (last_version e es % snapshot_every == 0) r.1 (
            IsGrown-IsStored id v (e ∷ es) db.tables r.1.tables h
              (append_expected id v e es db h low done)
              (append_rows-IsGrown is_uuid id v (e ∷ es) db stored)))
  ]
    where
      saved_or_not :
          (b : Bool) (d : Db EventTables)
          → IsStored d.tables
          → IsStored (if b then save_snapshot is_uuid id d else d).tables
      saved_or_not true d k = save_snapshot-IsStored is_uuid id d k
      saved_or_not false d k = k

  pub append_ok :
      (id : String) (v : ℕ) (es : List Event) (db : Db EventTables)
      → (append is_uuid id v es db).0 ≡ ok tt
      → ((fs : List Event) × (stream (append is_uuid id v es db).1.tables id
            ≡ stream db.tables id ++ fs)
          × IsRecorded es fs)
        × ((j : String)
            → j ≢ id
            → stream (append is_uuid id v es db).1.tables j ≡ stream db.tables j)
  unfolding append
  append_ok id v [] db done = (([], sym (append-nil _), tt), λ j ne. refl)
  append_ok id v (e ∷ es) db done =
      let (g, same) = append-events id v e es db done in
      let u = (append_rows is_uuid id v (e ∷ es) db).1.tables in
      (
        (
          g.fs,
          ap (select (belongs id)) same ∙ stream_own id (v + 1) (e ∷ es) db.tables u g,
          g.recorded,
        ),
        λ j ne. ap (select (belongs j)) same ∙ stream_other id j (v + 1) (e ∷ es) db.tables u g ne,
      )

  pub append_err :
      (id : String) (v : ℕ) (es : List Event) (db : Db EventTables) {x : Error}
      → (append is_uuid id v es db).0 ≡ err x
      → (append is_uuid id v es db).1.tables.events ≡ db.tables.events
  unfolding append
  append_err id v [] db stopped = absurd (cc)
  append_err id v (e ∷ es) db stopped =
      ap (λ t. t.events)
        (committed-err is_uuid id (last_version e es) db.tables
          (append_rows is_uuid id v (e ∷ es) db) stopped)

unfoldable pub postgres_IsEventStore :
    (is_uuid : String → Bool) (shown : Value → String) → IsEventStore (postgres_store is_uuid shown)
postgres_IsEventStore is_uuid shown = record {
  stream = λ db. stream db.tables;
  Valid = λ db. IsStored db.tables;
  append-Valid = λ db id v es h low. append-IsStored is_uuid id v es db h low;
  append_expected = λ db id v e es h low done. append_expected is_uuid id v e es db h low done;
  append_ok = λ db id v es done. append_ok is_uuid id v es db done;
  append_err =
      λ db id v es x stopped j. ap (select (belongs j)) (append_err is_uuid id v es db stopped);
  load_ok = λ db id a h loaded. load-ok is_uuid id db a h loaded;
}

-- Postgres implements the port, whatever texts it takes for UUIDs and whatever faults the database has:
-- an IsEventStore whose streams are the rows of each aggregate, and whose invariant holds of all tables
-- that are IsStored.
pub postgres_store-IsEventStore :
    (is_uuid : String → Bool) (shown : Value → String)
    → (es : IsEventStore (postgres_store is_uuid shown)) × ((db : Db EventTables)
        → IsStored db.tables
        → es.Valid db)
      × ((db : Db EventTables) (id : String) → es.stream db id ≡ stream db.tables id)
unfolding postgres_IsEventStore
postgres_store-IsEventStore is_uuid shown =
    (postgres_IsEventStore is_uuid shown, (λ db h. h), λ db id. refl)
