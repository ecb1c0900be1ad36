-- ===== src/Eventstore/Postgres/Load.antt =====
-- Load of internal/eventstore/postgres.go, from a snapshot or from the start, against Load of the store
-- in memory.
use eventledger.Prelude.{
  ℕ, ◌+◌, ◌-◌, ◌≡◌, refl, sym, ap, ◌∙◌, Bool, true, false, String, List, [], ◌∷◌, ◌++◌, Option,
  none, some, length, arith, subst, inl, inr, ◌==◌,
}
use eventledger.Domain.Errors.{Error, ok, err, within, Result-cases, ◌>>=◌ as ◌>>>◌}
use eventledger.Domain.Events.{Event}
use eventledger.Domain.Account.{Account, blank, replay}
use eventledger.Domain.Replay.{replay-append}
use eventledger.Database.{
  Db, ◌>>=◌, answer, exec, query, call, return, IsReading, bind-IsReading, bind-ok, wrap-ok,
  query-ok, query-tables, call-tables,
}
use eventledger.Eventstore.Memory
use eventledger.Eventstore.Memory.{Memory, select, load_stream}
use eventledger.Eventstore.Postgres.{
  base_of, rebuild, scan_events, select_snapshot, select_rows, load_rows, load_sql, load,
}
use eventledger.Eventstore.Postgres.Rows.{
  EventTables, Snapshot, order_by, snapshot_of, events_above,
}
use eventledger.Eventstore.Postgres.Order.{order_by-IsRising, IsNumbered-IsRising}
use eventledger.Eventstore.Postgres.Stored.{
  stream, IsBase, IsSnapshot, IsStored, base_of-IsBase, select-IsBase,
}

-- The store in memory that holds the same events.
abbrev pub memory_of : EventTables → Memory
memory_of t = record {
  streams = stream t;
  log = t.events;
  seq = t.next_seq - 1;
  marks = t.processed;
}

rebuild-IsBase :
    (xs : List Event) (base : Account) (b : IsBase xs base) → rebuild base b.zs ≡ load_stream xs
unfolding rebuild replay
rebuild-IsBase xs base b = parted b.ys b.zs b.replayed b.version ∙ ap load_stream (sym b.parts)
  where
    parted :
        (ys zs : List Event)
        → replay blank ys ≡ ok base
        → base.version ≡ length ys
        → rebuild base zs ≡ load_stream (ys ++ zs)
    parted [] [] q v = ground arith
    parted [] (z ∷ zs) q v = ground arith
    parted (y ∷ ys) zs q v =
        (let later : (base.version == 0) ≡ false = ground arith in rw later refl)
        ∙ sym (replay-append blank (y ∷ ys) zs ∙ ap (λ r. r >>> λ a. replay a zs) q)

readable :
    (xs : List Event) (o : Option Snapshot) {x : Error} → IsSnapshot xs o → base_of o ≡ err x → ⊥
readable xs none k q = absurd (cc)
readable xs (some s) k q = absurd (cc (ap (within "unmarshal snapshot") k.1, q))

module _ (is_uuid : String → Bool) where
  -- The rows above the version of a base, as the query gives them.
  events_above-IsBase :
      (t : EventTables) (id : String) (base : Account) {rows : List Event}
      → IsStored t
      → (b : IsBase (stream t id) base) → events_above is_uuid id base.version t ≡ ok rows
      → rows ≡ b.zs
  unfolding events_above
  events_above-IsBase t id base h b q =
      let (rest, numbered) = select-IsBase t id base h b in
      let sorted =
        ap (order_by (λ e. e.version)) rest
        ∙ order_by-IsRising (λ e. e.version) (base.version + 1) b.zs _
            (IsNumbered-IsRising id (base.version + 1) b.zs numbered) in
      ground (arith, sorted)

  select_snapshot-IsReading : (id : String) → IsReading (select_snapshot is_uuid id)
  unfolding select_snapshot
  select_snapshot-IsReading id = query-tables (snapshot_of is_uuid id)

  load_rows-IsReading : (id : String) (base : Account) → IsReading (load_rows is_uuid id base)
  unfolding load_rows select_rows scan_events
  load_rows-IsReading id base =
      bind-IsReading (select_rows is_uuid id base.version)
        (λ rows. scan_events rows >>= λ events. answer (rebuild base events))
        (query-tables (events_above is_uuid id base.version))
        (λ rows.
          bind-IsReading (scan_events rows) (λ events. answer (rebuild base events))
            (bind-IsReading call (λ u. return rows) call-tables (λ u db. refl)) (λ events db. refl))

  pub load_sql-IsReading : (id : String) → IsReading (load_sql is_uuid id)
  unfolding load_sql
  load_sql-IsReading id =
      bind-IsReading (select_snapshot is_uuid id)
        (λ found. answer (base_of found) >>= load_rows is_uuid id) (select_snapshot-IsReading id)
        (λ found.
          bind-IsReading (answer (base_of found)) (load_rows is_uuid id) (λ db. refl)
            (load_rows-IsReading id))

  snapshot_of-ok :
      (id : String) (t : EventTables) {found : Option Snapshot}
      → snapshot_of is_uuid id t ≡ ok found
      → t.snapshots id ≡ found
  unfolding snapshot_of
  snapshot_of-ok id t h = ground arith

  load_rows-ok :
      (id : String) (base : Account) (db : Db EventTables) {a : Account}
      → IsStored db.tables
      → IsBase (stream db.tables id) base
      → (load_rows is_uuid id base db).0 ≡ ok a
      → load_stream (stream db.tables id) ≡ ok a
  unfolding load_rows select_rows scan_events
  load_rows-ok id base db h b loaded =
      let rest =
        λ (rows : List Event). scan_events rows >>= λ events. answer (rebuild base events) in
      let (rows, q, more) = bind-ok (select_rows is_uuid id base.version) rest db loaded in
      let (events, read, rebuilt) =
        bind-ok (scan_events rows) (λ events. answer (rebuild base events)) _ more in
      let (u, called, returned) = bind-ok call (λ v. return rows) _ read in
      let asked =
        (query-ok (events_above is_uuid id base.version) db
          (wrap-ok "load events" (query (events_above is_uuid id base.version) db) q)).0 in
      let same = events_above-IsBase db.tables id base h b asked in
      let all : events ≡ b.zs = cc in
      sym (rebuild-IsBase (stream db.tables id) base b) ∙ ap (rebuild base) (sym all) ∙ rebuilt

  -- Load gives what the store in memory gives, unless it fails for a reason of its own.
  pub load-lem :
      (id : String) (db : Db EventTables) {a : Account}
      → IsStored db.tables
      → load is_uuid id db ≡ ok a
      → Memory.load id (memory_of db.tables) ≡ ok a
  unfolding load load_sql select_snapshot Memory.load
  load-lem id db {a} h loaded =
      let t = db.tables in
      let (found, q, rest) =
        bind-ok (select_snapshot is_uuid id) (λ o. answer (base_of o) >>= load_rows is_uuid id) db
          loaded in
      let known =
        snapshot_of-ok id t
          (query-ok (snapshot_of is_uuid id) db
            (wrap-ok "load snapshot" (query (snapshot_of is_uuid id) db) q)).0 in
      let d = (select_snapshot is_uuid id db).1 in
      let (base, based, more) = bind-ok (answer (base_of found)) (load_rows is_uuid id) d rest in
      let b =
        base_of-IsBase (stream t id) found (subst (IsSnapshot (stream t id)) known (h.snapshots id))
          based in
      let same : t ≡ d.tables = sym (select_snapshot-IsReading id db) in
      subst (λ u. load_stream (stream u id) ≡ ok a) (sym same)
        (load_rows-ok id base d (subst IsStored same h)
          (subst (λ u. IsBase (stream u id) base) same b) more)

  not_refused :
      (id : String) (v : ℕ) (t : EventTables) {x : Error}
      → is_uuid id ≡ true
      → events_above is_uuid id v t ≡ err x
      → ⊥
  unfolding events_above
  not_refused id v t valid q = absurd (ground arith)

  answered_snapshot :
      (id : String) (t : EventTables)
      → is_uuid id ≡ true
      → select_snapshot is_uuid id (record { faults = []; tables = t })
        ≡ (ok (t.snapshots id), record { faults = []; tables = t })
  unfolding select_snapshot query exec snapshot_of
  answered_snapshot id t valid = ground (arith, valid)

  answered_rows :
      (id : String) (base : Account) (t : EventTables)
      → is_uuid id ≡ true
      → IsStored t
      → IsBase (stream t id) base
      → (load_rows is_uuid id base (record { faults = []; tables = t })).0
        ≡ load_stream (stream t id)
  unfolding load_rows select_rows scan_events query call exec
  answered_rows id base t valid h b = elim (Result-cases (events_above is_uuid id base.version t)) [
    | inl (x, stopped) ↦ absurd (not_refused id base.version t valid stopped)
    | inr (rows, asked) ↦
        rw (asked, load_rows)
          (ap (rebuild base) (events_above-IsBase t id base h b asked)
            ∙ rebuild-IsBase (stream t id) base b)
  ]

  -- Where the database answers all calls, Load gives exactly what the store in memory gives, errors
  -- included: snapshots cannot be told from the replay of the whole stream.
  pub load-memory_of :
      (id : String) (t : EventTables)
      → IsStored t
      → is_uuid id ≡ true
      → load is_uuid id (record { faults = []; tables = t }) ≡ Memory.load id (memory_of t)
  unfolding load load_sql Memory.load
  load-memory_of id t h valid = elim (Result-cases (base_of (t.snapshots id))) [
    | inl (x, stopped) ↦ absurd (readable (stream t id) (t.snapshots id) (h.snapshots id) stopped)
    | inr (base, based) ↦
        let b = base_of-IsBase (stream t id) (t.snapshots id) (h.snapshots id) based in
        rw (answered_snapshot id t valid, load, load_sql)
          (rw based (answered_rows id base t valid h b))
  ]
