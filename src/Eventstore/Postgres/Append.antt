-- ===== src/Eventstore/Postgres/Append.antt =====
-- Append of internal/eventstore/postgres.go: its transaction, and the snapshot after it.
use eventledger.Prelude.{
  ℕ, ◌+◌, ◌≤◌, ◌<◌, ◌≡◌, refl, sym, ap, ◌∙◌, Bool, false, String, List, [], ◌∷◌, arith, subst,
  Bool-cases, inl, inr, str_eq, ◌==◌, if◌then◌else◌,
}
use Prim.Native.Nat.{◌%◌}
use eventledger.Prelude.Int.{half_range}
use eventledger.Domain.Errors.{Error, Result, ok, err}
use eventledger.Domain.Events.{Event}
use eventledger.Domain.Account.{Account}
use eventledger.Database.{
  Db, Sql, ◌>>=◌, ◌>>◌, and_then, exec, call, wrap, rolled_back, exec-ok, exec-keeps, and_then-ok,
  call-tables,
}
use eventledger.Eventstore.Postgres.{
  insert_all, inserted, append_rows, committed, restore, save_snapshot, saved, load_sql, load,
  snapshot_every,
}
use eventledger.Eventstore.Postgres.Rows.{
  EventTables, insert_event, any_event, clashes, upsert_snapshot,
}
use eventledger.Eventstore.Postgres.Insert.{
  IsGrown, insert_all-cons, insert_event-ok, insert_all-IsGrown,
}
use eventledger.Eventstore.Postgres.Load.{load_sql-IsReading}

-- The next value of the sequence never falls.
abbrev pub IsGrowing : {A : Type 0} → Sql EventTables A → Type 0
IsGrowing m = (db : Db EventTables) → db.tables.next_seq ≤ (m db).1.tables.next_seq

bind-IsGrowing :
    {A B : Type 0} (m : Sql EventTables A) (f : A → Sql EventTables B)
    → IsGrowing m
    → ((a : A) → IsGrowing (f a))
    → IsGrowing (m >>= f)
bind-IsGrowing m f hm hf db = after (m db) (hm db)
  where
    after :
        (r : Result _ × Db EventTables)
        → db.tables.next_seq ≤ r.1.tables.next_seq
        → db.tables.next_seq ≤ (and_then f r).1.tables.next_seq
    after (err x, d) h = h
    after (ok a, d) h = omega (arith, h, hf a d)

call-IsGrowing : IsGrowing call
call-IsGrowing db = rw (call-tables db) (omega arith)

-- What the transaction does to the tables, and how it ends with a commit or a rollback.
module _ (is_uuid : String → Bool) where
  insert_event-le :
      (e : Event) (t : EventTables) → t.next_seq ≤ (insert_event is_uuid e t).1.next_seq
  unfolding insert_event
  insert_event-le e t = ground arith

  insert-IsGrowing : (e : Event) → IsGrowing (λ db. inserted (exec (insert_event is_uuid e) db))
  insert-IsGrowing e db = kept (exec (insert_event is_uuid e) db) (
      exec-keeps (λ t. db.tables.next_seq ≤ t.next_seq) (insert_event is_uuid e) db (omega arith)
        (insert_event-le e db.tables))
    where
      kept :
          (r : Result ℕ × Db EventTables)
          → db.tables.next_seq ≤ r.1.tables.next_seq
          → db.tables.next_seq ≤ (inserted r).1.tables.next_seq
      kept (ok n, d) h = h
      kept (err x, d) h = h

  insert_all-IsGrowing :
      (id : String) (want : ℕ) (es : List Event) → IsGrowing (insert_all is_uuid id want es)
  unfolding insert_all
  insert_all-IsGrowing id want [] db = omega arith
  insert_all-IsGrowing id want (e ∷ es) db = elim (Bool-cases (str_eq e.aggregate_id id)) [
    | inr p ↦ rw p (omega arith)
    | inl p ↦ elim (Bool-cases (e.version == want)) [
      | inr q ↦ rw (p, q) (omega arith)
      | inl q ↦
          rw (p, q)
            (bind-IsGrowing (λ d. inserted (exec (insert_event is_uuid e) d))
              (λ w. insert_all is_uuid id (want + 1) es) (insert-IsGrowing e)
              (λ w. insert_all-IsGrowing id (want + 1) es) db)
    ]
  ]

  pub append_rows-IsGrowing :
      (id : String) (v : ℕ) (es : List Event) → IsGrowing (append_rows is_uuid id v es)
  unfolding append_rows
  append_rows-IsGrowing id v es =
      let commit = λ (d : Db EventTables). wrap "commit" (call d) in
      let rest = λ (d : Db EventTables). (insert_all is_uuid id (v + 1) es >> commit) d in
      bind-IsGrowing (λ db. wrap "begin tx" (call db)) (λ u. rest) call-IsGrowing
        (λ u.
          bind-IsGrowing (insert_all is_uuid id (v + 1) es) (λ w. commit)
            (insert_all-IsGrowing id (v + 1) es) (λ w. call-IsGrowing))

  -- The three parts of a transaction that is committed.
  append_rows-parts :
      (id : String) (v : ℕ) (es : List Event) (db : Db EventTables) {u : Unit {0}}
      → (append_rows is_uuid id v es db).0 ≡ ok u
      → let d = (call db).1 in
        (d.tables ≡ db.tables)
        × ((insert_all is_uuid id (v + 1) es d).0 ≡ ok tt)
        × ((append_rows is_uuid id v es db).1.tables
            ≡ (insert_all is_uuid id (v + 1) es d).1.tables)
  unfolding append_rows
  append_rows-parts id v es db h =
      let commit = λ (d : Db EventTables). wrap "commit" (call d) in
      let rest = λ (d : Db EventTables). (insert_all is_uuid id (v + 1) es >> commit) d in
      let (u, begun, same) = and_then-ok (λ u. rest) (wrap "begin tx" (call db)) h in
      let d = (call db).1 in
      let (w, stored, last) =
        and_then-ok (λ w. commit) (insert_all is_uuid id (v + 1) es d)
          (ap (λ r. r.0) (sym same) ∙ h) in
      (
        call-tables db,
        stored,
        ap (λ r. r.1.tables) (same ∙ last) ∙ call-tables (insert_all is_uuid id (v + 1) es d).1,
      )

  pub append_rows-IsGrown :
      (id : String) (v : ℕ) (es : List Event) (db : Db EventTables) {u : Unit {0}}
      → (append_rows is_uuid id v es db).0 ≡ ok u
      → IsGrown id (v + 1) es db.tables (append_rows is_uuid id v es db).1.tables
  append_rows-IsGrown id v es db h =
      let (start, stored, tables) = append_rows-parts id v es db h in
      subst (λ t. IsGrown id (v + 1) es t (append_rows is_uuid id v es db).1.tables) start
        (subst (IsGrown id (v + 1) es (call db).1.tables) (sym tables)
          (insert_all-IsGrown is_uuid id (v + 1) es (call db).1 stored))

  -- The first event of a committed batch has the version that follows the given one, and no event
  -- before it clashes with it.
  pub append_rows-first :
      (id : String) (v : ℕ) (e : Event) (es : List Event) (db : Db EventTables) {u : Unit {0}}
      → (append_rows is_uuid id v (e ∷ es) db).0 ≡ ok u
      → (e.aggregate_id ≡ id)
        × (e.version ≡ v + 1)
        × (e.version < half_range)
        × (any_event (clashes e) db.tables.events ≡ false)
  append_rows-first id v e es db h =
      let (start, stored, tables) = append_rows-parts id v (e ∷ es) db h in
      let (here, next, (n, answered), rest) =
        insert_all-cons is_uuid id (v + 1) e es (call db).1 stored in
      let (fresh, small, added) =
        insert_event-ok is_uuid e (call db).1.tables
          (exec-ok (insert_event is_uuid e) (call db).1 answered).0 in
      (here, next, small, ap (λ t. any_event (clashes e) t.events) (sym start) ∙ fresh)

  -- Append as a whole, by how its transaction ends.
  pub committed-ok :
      (id : String) (last : ℕ) (t : EventTables) (r : Result (Unit {0}) × Db EventTables)
      → (committed is_uuid id last (rolled_back restore t r)).0 ≡ ok tt
      → (r.0 ≡ ok tt)
        × ((committed is_uuid id last (rolled_back restore t r)).1
            ≡ (if last % snapshot_every == 0 then save_snapshot is_uuid id r.1 else r.1))
  committed-ok id last t (ok u, db) h = (refl, refl)
  committed-ok id last t (err x, db) h = absurd (cc)

  pub committed-err :
      (id : String) (last : ℕ) (t : EventTables) (r : Result (Unit {0}) × Db EventTables)
      {x : Error}
      → (committed is_uuid id last (rolled_back restore t r)).0 ≡ err x
      → (committed is_uuid id last (rolled_back restore t r)).1.tables ≡ restore t r.1.tables
  committed-err id last t (ok u, db) h = absurd (cc)
  committed-err id last t (err x, db) h = refl

  -- What holds before a snapshot is saved, and after the account that Load gives is put down, holds
  -- after it, whatever fails.
  pub save_snapshot-keeps :
      (P : EventTables → Type 0) (id : String) (db : Db EventTables)
      → P db.tables
      → ((a : Account) → load is_uuid id db ≡ ok a → P (upsert_snapshot is_uuid id a db.tables).1)
      → P (save_snapshot is_uuid id db).tables
  unfolding save_snapshot load
  save_snapshot-keeps P id db before after =
      kept (load_sql is_uuid id db) (load_sql-IsReading is_uuid id db) after
    where
      kept :
          (r : Result Account × Db EventTables)
          → r.1.tables ≡ db.tables
          → ((a : Account) → r.0 ≡ ok a → P (upsert_snapshot is_uuid id a db.tables).1)
          → P (saved is_uuid id r).tables
      kept (err x, d) same h = subst P (sym same) before
      kept (ok a, d) same h =
          exec-keeps P (upsert_snapshot is_uuid id a) d (subst P (sym same) before)
            (subst (λ t. P (upsert_snapshot is_uuid id a t).1) (sym same) (h a refl))
