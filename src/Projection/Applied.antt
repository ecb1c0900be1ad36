-- ===== src/Projection/Applied.antt =====
-- What one call of Apply of internal/projection/projector.go does that succeeds on a new event.
use eventledger.Prelude.{
  ℕ, ◌≡◌, refl, sym, ap, ◌∙◌, Bool, true, false, String, List, [], ◌∷◌, Option, none, some, arith,
  ◌==◌, if◌then◌else◌,
}
use eventledger.Domain.Errors.{Error, Result, ok, err, within}
use eventledger.Domain.Events.{Event}
use eventledger.Database.{Db, return, and_then-ok, exec-ok}
use eventledger.Projection.Tables.{Tables, assign, mark_processed}
use eventledger.Projection.Markless.{apply_event_type-IsMarkless}
use eventledger.Projection.Apply.{apply, apply_event, apply_event_type, body, mark, finish}

-- What the transaction of Apply did, where it did not find its event marked.
pub record IsApplied (is_uuid : String → Bool) (now : ℕ) (e : Event) (t u : Tables) : Type 0 where
  pub db : Db Tables
  pub start : db.tables.balances ≡ t.balances
  pub entries : db.tables.statements ≡ t.statements
  pub done : (apply_event_type is_uuid now e.type e db).0 ≡ ok tt
  pub result : u ≡ (apply_event_type is_uuid now e.type e db).1.tables
  pub marked : u.processed ≡ assign t.processed e.id true

module _ (is_uuid : String → Bool) (now : ℕ) where
  mark_processed-ok :
      (e : Event) (t : Tables) {n : ℕ}
      → t.processed e.id ≡ false
      → (mark_processed is_uuid e.id t).0 ≡ ok n
      → ((n == 0) ≡ false)
        × ((mark_processed is_uuid e.id t).1
            ≡ record t { processed = assign t.processed e.id true })
  unfolding mark_processed
  mark_processed-ok e t fresh h = ground (arith, fresh)

  finish-ok :
      (t : Tables) (r : Result (Unit {0}) × Db Tables) {u : Tables}
      → finish is_uuid now t r ≡ (ok tt, u)
      → (r.0 ≡ ok tt) × (u ≡ r.1.tables)
  finish-ok t (err x, db) h = absurd (cc)
  finish-ok t (ok v, db) {u} h = committed db.faults refl
    where
      committed :
          (fs : List (Option Error))
          → db.faults ≡ fs
          → (◌≡◌ {0} {A = Result (Unit {0})} (ok v) (ok tt)) × (u ≡ db.tables)
      committed [] q = (refl, sym (ap (λ r. r.1) (rw q at h)))
      committed (none ∷ fs) q = (refl, sym (ap (λ r. r.1) (rw q at h)))
      committed (some x ∷ fs) q = absurd (cc (ap (λ r. r.0) (rw q at h)))

  within-ok :
      {A : Type 0} (context : String) (r : Result A) {a : A} → within context r ≡ ok a → r ≡ ok a
  within-ok context (ok b) h = h
  within-ok context (err x) h = absurd (cc)

  body-IsApplied :
      (e : Event) (t u : Tables) (db : Db Tables)
      → db.tables ≡ t
      → t.processed e.id ≡ false
      → finish is_uuid now t (body is_uuid now e db) ≡ (ok tt, u)
      → IsApplied is_uuid now e t u
  unfolding body apply_event
  body-IsApplied e t u db same fresh h =
      let (ended, result) = finish-ok t (body is_uuid now e db) h in
      let (n, stored, steps) =
        and_then-ok (λ n. if n == 0 then return tt else apply_event is_uuid now e)
          (mark is_uuid now e db) ended in
      let d = (mark is_uuid now e db).1 in
      let (answered, tables) =
        exec-ok (mark_processed is_uuid e.id) db (within-ok "mark processed" _ stored) in
      let (fresh_mark, marked) =
        mark_processed-ok e db.tables (ap (λ v. v.processed e.id) same ∙ fresh) answered in
      let stepped : body is_uuid now e db ≡ apply_event_type is_uuid now e.type e d =
        steps ∙ (rw fresh_mark refl) in
      let tick : Tables → Tables = λ v. record v { processed = assign v.processed e.id true } in
      let reached : d.tables ≡ tick t = tables ∙ marked ∙ ap tick same in
      record {
        db = d;
        start = ap (λ v. v.balances) reached;
        entries = ap (λ v. v.statements) reached;
        done = ap (λ r. r.0) (sym stepped) ∙ ended;
        result = result ∙ ap (λ r. r.1.tables) stepped;
        marked =
            ap (λ v. v.processed) (result ∙ ap (λ r. r.1.tables) stepped)
            ∙ apply_event_type-IsMarkless is_uuid now e.type e d
            ∙ ap (λ v. v.processed) reached;
      }

  pub apply-IsApplied :
      (faults : List (Option Error)) (e : Event) (t u : Tables)
      → t.processed e.id ≡ false
      → apply is_uuid now faults e t ≡ (ok tt, u)
      → IsApplied is_uuid now e t u
  unfolding apply
  apply-IsApplied [] e t u fresh h = body-IsApplied e t u _ refl fresh h
  apply-IsApplied (none ∷ fs) e t u fresh h = body-IsApplied e t u _ refl fresh h
  apply-IsApplied (some x ∷ fs) e t u fresh h = absurd (cc (ap (λ r. r.0) h))
