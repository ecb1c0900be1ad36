-- ===== src/Eventstore/Postgres/Keep.antt =====
-- The tables of internal/eventstore/postgres.go under the writes of Append and saveSnapshot.
use eventledger.Prelude.{
  ℕ, ◌+◌, ◌≤◌, ◌<◌, ◌≡◌, ◌≢◌, refl, sym, Bool, String, List, [], ◌++◌, length, arith, subst,
  Bool-cases, inl, inr, eq_iff, str_eq, ◌==◌, if◌then◌else◌, Option, none, some, length-append, ltb,
  ◌&&◌,
}
use mathlib.Core.List.{append-nil}
use eventledger.Prelude.Int.{half_range}
use eventledger.Domain.Errors.{ok}
use eventledger.Domain.Events.{Event}
use eventledger.Domain.Account.{Account, blank, replay}
use eventledger.Domain.Account.State.{marshal_account, unmarshal_account-marshal_account}
use eventledger.Domain.Replay.{replay-IsInt64}
use eventledger.Database.{Db}
use eventledger.Eventstore.Port.{IsNumbered}
use eventledger.Eventstore.Streams.{IsNumbered-append}
use eventledger.Eventstore.Memory.Contract.{load-replay}
use eventledger.Eventstore.Postgres.{restore, save_snapshot, load}
use eventledger.Eventstore.Postgres.Rows.{EventTables, Snapshot, upsert_snapshot, newer}
use eventledger.Eventstore.Postgres.Order.{IsRising-to}
use eventledger.Eventstore.Postgres.Insert.{IsGrown}
use eventledger.Eventstore.Postgres.Grown.{stream_own, stream_other}
use eventledger.Eventstore.Postgres.Stored.{stream, IsSnapshot, IsSnapshot-append, IsStored}
use eventledger.Eventstore.Postgres.Load.{memory_of, load-lem}
use eventledger.Eventstore.Postgres.Append.{save_snapshot-keeps}

pub IsGrown-IsStored :
    (id : String) (v : ℕ) (es : List Event) (t u : EventTables)
    → IsStored t
    → length (stream t id) ≡ v
    → IsGrown id (v + 1) es t u
    → IsStored u
IsGrown-IsStored id v es t u h start g = record {
  indexed = λ j.
      at j (λ i xs. IsNumbered i 1 xs)
        (IsNumbered-append id 1 (stream t id) g.fs (h.indexed id)
          (subst (λ n. IsNumbered id n g.fs) (omega arith) g.numbered))
        (h.indexed j);
  short = λ j.
      at j (λ i xs. length xs < half_range)
        (omega (
          arith,
          length-append (stream t id) g.fs,
          h.short id,
          g.below (omega (arith, h.short id)),
          start,
        ))
        (h.short j);
  snapshots = λ j.
      subst (λ m. IsSnapshot (stream u j) (m j)) (sym g.snapshots)
        (at j (λ i xs. IsSnapshot xs (t.snapshots i))
          (IsSnapshot-append (stream t id) g.fs (t.snapshots id) (h.snapshots id)) (h.snapshots j));
  ordered = g.rising h.ordered;
}
  where
    at :
        (j : String) (P : String → List Event → Type 0)
        → P id (stream t id ++ g.fs)
        → P j (stream t j)
        → P j (stream u j)
    at j P here there = elim (Bool-cases (str_eq j id)) [
      | inl p ↦
          subst (λ i. P i (stream u i)) (sym ((eq_iff j id).0 p))
            (subst (P id) (sym (stream_own id (v + 1) es t u g)) here)
      | inr p ↦
          subst (P j) (sym (stream_other id j (v + 1) es t u g (λ e. cc (p, (eq_iff j id).1 e))))
            there
    ]

-- A rollback leaves only a gap in the sequence.
pub restore-IsStored :
    (t u : EventTables) → t.next_seq ≤ u.next_seq → IsStored t → IsStored (restore t u)
restore-IsStored t u l h = record {
  indexed = h.indexed;
  short = h.short;
  snapshots = h.snapshots;
  ordered = IsRising-to (λ e. e.seq) 0 t.events t.next_seq u.next_seq l h.ordered;
}

-- The account that Load gives, as a base of its stream, and the snapshot that it leaves.
module _ (is_uuid : String → Bool) (id : String) (db : Db EventTables) (a : Account)
    (h : IsStored db.tables) (loaded : load is_uuid id db ≡ ok a) where
  pub load-ok :
      (stream db.tables id ≢ [])
      × (replay blank (stream db.tables id) ≡ ok a)
      × (a.version ≡ length (stream db.tables id))
  load-ok = load-replay (memory_of db.tables) id a h.indexed (load-lem is_uuid id db h loaded)

  saved-IsSnapshot :
      IsSnapshot
        (stream db.tables id)
        (some (record { version = a.version; state = marshal_account a }))
  saved-IsSnapshot =
      let (some_event, replayed, version) = load-ok in
      (
        a,
        unmarshal_account-marshal_account a
            (replay-IsInt64 blank (stream db.tables id) replayed (omega arith))
            (omega (arith, version, h.short id)),
        record {
          ys = stream db.tables id;
          zs = [];
          parts = sym (append-nil _);
          replayed = replayed;
          version = version;
        },
      )

  newer-IsSnapshot :
      (o : Option Snapshot)
      → IsSnapshot (stream db.tables id) o
      → IsSnapshot
          (stream db.tables id)
          (some (newer o (record { version = a.version; state = marshal_account a })))
  newer-IsSnapshot none k = saved-IsSnapshot
  newer-IsSnapshot (some old) k = elim (Bool-cases (ltb old.version a.version)) [
    | inl p ↦ rw p saved-IsSnapshot
    | inr p ↦ rw p k
  ]

  upserted-IsStored : IsStored (record db.tables {
    snapshots = λ j.
        if str_eq id j
        then some (
            newer
              (db.tables.snapshots id)
              (record { version = a.version; state = marshal_account a }))
        else db.tables.snapshots j;
  })
  upserted-IsStored = record {
    indexed = h.indexed;
    short = h.short;
    snapshots = λ j. elim (Bool-cases (str_eq id j)) [
      | inl p ↦
          let here : id ≡ j = (eq_iff id j).0 p in
          rw p (
            subst
              (λ i. IsSnapshot (stream db.tables i) (
                some (
                  newer (db.tables.snapshots id)
                    (record { version = a.version; state = marshal_account a }))))
              here (newer-IsSnapshot (db.tables.snapshots id) (h.snapshots id)))
      | inr p ↦ rw p (h.snapshots j)
    ];
    ordered = h.ordered;
  }

  upsert_snapshot-IsStored : IsStored (upsert_snapshot is_uuid id a db.tables).1
  unfolding upsert_snapshot
  upsert_snapshot-IsStored = elim (Bool-cases (is_uuid id && ltb a.version half_range)) [
    | inr p ↦ rw p h
    | inl p ↦ elim (Bool-cases (a.version == 0)) [
      | inl q ↦ rw (p, q) h
      | inr q ↦ rw (p, q) upserted-IsStored
    ]
  ]

-- Saving a snapshot, at any time and whatever fails, keeps the invariant and leaves the events.
module _ (is_uuid : String → Bool) where
  pub save_snapshot-IsStored :
      (id : String) (db : Db EventTables)
      → IsStored db.tables
      → IsStored (save_snapshot is_uuid id db).tables
  save_snapshot-IsStored id db h =
      save_snapshot-keeps is_uuid IsStored id db h
        (λ a loaded. upsert_snapshot-IsStored is_uuid id db a h loaded)

  upsert_snapshot-events :
      (id : String) (a : Account) (t : EventTables)
      → (upsert_snapshot is_uuid id a t).1.events ≡ t.events
  unfolding upsert_snapshot
  upsert_snapshot-events id a t = ground arith

  pub save_snapshot-events :
      (id : String) (db : Db EventTables)
      → (save_snapshot is_uuid id db).tables.events ≡ db.tables.events
  save_snapshot-events id db =
      save_snapshot-keeps is_uuid (λ t. t.events ≡ db.tables.events) id db refl
        (λ a loaded. upsert_snapshot-events id a db.tables)
