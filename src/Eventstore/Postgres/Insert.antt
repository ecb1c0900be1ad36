-- ===== src/Eventstore/Postgres/Insert.antt =====
-- The loop of Postgres.Append: what it leaves in the tables where it comes to its end.
use eventledger.Prelude.{
  ℕ, ◌+◌, ◌≤◌, ◌<◌, ◌≡◌, refl, sym, ap, ◌∙◌, Bool, false, String, List, [], ◌∷◌, ◌++◌, length,
  arith, subst, Bool-cases, inl, inr, eq_iff, str_eq, ◌==◌,
}
use mathlib.Core.List.{append_assoc, append-nil}
use eventledger.Prelude.Int.{half_range}
use eventledger.Domain.Errors.{Result, ok, err}
use eventledger.Domain.Events.{Event}
use eventledger.Database.{Db, exec, exec-ok, and_then-ok}
use eventledger.Eventstore.Port.{IsNumbered, IsRecorded}
use eventledger.Eventstore.Postgres.{insert_all, inserted}
use eventledger.Eventstore.Postgres.Rows.{EventTables, insert_event, add_event, any_event, clashes}
use eventledger.Eventstore.Postgres.Order.{IsRising, IsRising-snoc}

-- The events `fs` have been recorded for `es` at the end of the table.
pub record IsGrown (id : String) (want : ℕ) (es : List Event) (t u : EventTables) : Type 0 where
  pub fs : List Event
  pub events : u.events ≡ t.events ++ fs
  pub recorded : IsRecorded es fs
  pub numbered : IsNumbered id want fs
  pub below : want ≤ half_range → want + length fs ≤ half_range
  pub snapshots : u.snapshots ≡ t.snapshots
  pub processed : u.processed ≡ t.processed
  pub rising :
      IsRising (λ e. e.seq) 0 t.events t.next_seq → IsRising (λ e. e.seq) 0 u.events u.next_seq

module _ (is_uuid : String → Bool) where
  pub insert_event-ok :
      (e : Event) (t : EventTables) {n : ℕ}
      → (insert_event is_uuid e t).0 ≡ ok n
      → (any_event (clashes e) t.events ≡ false)
        × (e.version < half_range)
        × ((insert_event is_uuid e t).1 ≡ add_event e t)
  unfolding insert_event
  insert_event-ok e t h = ground arith

  inserted-ok :
      (r : Result ℕ × Db EventTables) {u : Unit {0}}
      → (inserted r).0 ≡ ok u
      → (n : ℕ) × (r.0 ≡ ok n) × ((inserted r).1 ≡ r.1)
  inserted-ok (ok n, db) h = (n, refl, refl)
  inserted-ok (err x, db) h = absurd (ground arith)

  -- One round of the loop that does not end it by an error.
  pub insert_all-cons :
      (id : String) (want : ℕ) (e : Event) (es : List Event) (db : Db EventTables) {u : Unit {0}}
      → (insert_all is_uuid id want (e ∷ es) db).0 ≡ ok u
      → (e.aggregate_id ≡ id)
        × (e.version ≡ want)
        × ((n : ℕ) × ((exec (insert_event is_uuid e) db).0 ≡ ok n))
        × (insert_all is_uuid id want (e ∷ es) db
            ≡ insert_all is_uuid id (want + 1) es (exec (insert_event is_uuid e) db).1)
  unfolding insert_all
  insert_all-cons id want e es db h = elim (Bool-cases (str_eq e.aggregate_id id)) [
    | inr p ↦ absurd (ground arith)
    | inl p ↦ elim (Bool-cases (e.version == want)) [
      | inr q ↦ absurd (ground arith)
      | inl q ↦
          let (w, done, rest) =
            and_then-ok (λ w. insert_all is_uuid id (want + 1) es)
              (inserted (exec (insert_event is_uuid e) db)) (rw (p, q) at h) in
          let (n, stored, same) = inserted-ok (exec (insert_event is_uuid e) db) done in
          (
            (eq_iff e.aggregate_id id).0 p,
            ground arith,
            (n, stored),
            rw (p, q) (rest ∙ ap (insert_all is_uuid id (want + 1) es) same),
          )
    ]
  ]

  IsGrown-add_event :
      (id : String) (want : ℕ) (e : Event) (es : List Event) (t u : EventTables)
      → e.aggregate_id ≡ id
      → e.version ≡ want
      → e.version < half_range
      → IsGrown id (want + 1) es (add_event e t) u
      → IsGrown id want (e ∷ es) t u
  IsGrown-add_event id want e es t u here next small g = record {
    fs = record e { seq = t.next_seq } ∷ g.fs;
    events = g.events ∙ append_assoc t.events _ g.fs;
    recorded = (refl, g.recorded);
    numbered = (here, next, g.numbered);
    below = λ l. omega (arith, g.below (omega (arith, next, small)), next);
    snapshots = g.snapshots;
    processed = g.processed;
    rising = λ r. g.rising (
        subst (λ k. IsRising (λ f. f.seq) 0 (add_event e t).events k) (omega arith)
          (IsRising-snoc (λ f. f.seq) 0 t.events t.next_seq (record e { seq = t.next_seq })
            (omega arith) r));
  }

  pub insert_all-IsGrown :
      (id : String) (want : ℕ) (es : List Event) (db : Db EventTables) {u : Unit {0}}
      → (insert_all is_uuid id want es db).0 ≡ ok u
      → IsGrown id want es db.tables (insert_all is_uuid id want es db).1.tables
  unfolding insert_all
  insert_all-IsGrown id want [] db h = record {
    fs = [];
    events = sym (append-nil db.tables.events);
    recorded = tt;
    numbered = tt;
    below = λ l. omega arith;
    snapshots = refl;
    processed = refl;
    rising = λ r. r;
  }
  insert_all-IsGrown id want (e ∷ es) db h =
      let (here, next, (n, stored), rest) = insert_all-cons id want e es db h in
      let (answered, tables) = exec-ok (insert_event is_uuid e) db stored in
      let (fresh, small, added) = insert_event-ok e db.tables answered in
      let v = (exec (insert_event is_uuid e) db).1 in
      let tail = insert_all-IsGrown id (want + 1) es v (ap (λ r. r.0) (sym rest) ∙ h) in
      IsGrown-add_event id want e es db.tables _ here next small (
        subst (λ w. IsGrown id (want + 1) es w (insert_all is_uuid id want (e ∷ es) db).1.tables)
          (tables ∙ added)
          (subst (λ r. IsGrown id (want + 1) es v.tables r.1.tables) (sym rest) tail))
