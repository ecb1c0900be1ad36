-- ===== src/Projection/Atomic.antt =====
-- Projector.Apply of internal/projection/projector.go as a whole: its errors, and its repetition.
use eventledger.Prelude.{
  subst, ℕ, ◌≡◌, refl, ap, ◌∙◌, Bool, true, String, List, [], ◌∷◌, inl, inr, Option, none, some,
  ◌==◌, if◌then◌else◌, str_eq_refl, Bool-cases,
}
use eventledger.Domain.Errors.{within, Error, Result, ok, err}
use eventledger.Domain.Events.{Event}
use eventledger.Database.{Db, return, and_then, exec}
use eventledger.Projection.Tables.{Tables, mark_processed}
use eventledger.Projection.Apply.{apply_event, body, apply, mark, finish}
use eventledger.Projection.Markless.{apply_event_type-IsMarkless}

module _ (is_uuid : String → Bool) (now : ℕ) where
  -- What the mark leaves behind where it succeeds.
  abbrev Marks : Event → Tables → Result ℕ × Db Tables → Type 0
  Marks e t (err x, db) = Unit {0}
  Marks e t (ok n, db) =
      (is_uuid e.id ≡ true)
      × (db.tables.processed e.id ≡ true)
      × ((n == 0) ≡ true → db.tables ≡ t)
      × (t.processed e.id ≡ true → (n == 0) ≡ true)

  mark_processed-Marks :
      (e : Event) (fs : List (Option Error)) (t : Tables) (db : Db Tables)
      → Marks e t (
        within "mark processed" (mark_processed is_uuid e.id t).0,
        record db { faults = fs; tables = (mark_processed is_uuid e.id t).1 },
      )
  unfolding mark_processed
  mark_processed-Marks e fs t db = elim (Bool-cases (is_uuid e.id)) [
    | inl p ↦ elim (Bool-cases (t.processed e.id)) [
      | inl q ↦ rw (p, q) (p, q, (λ z. refl), (λ z. refl))
      | inr q ↦ rw (p, q) (p, rw (str_eq_refl e.id) refl, (λ z. absurd (cc)), (λ z. absurd (cc)))
    ]
    | inr p ↦ rw p tt
  ]

  mark-Marks :
      (e : Event) (fs : List (Option Error)) (t : Tables)
      → Marks e t (mark is_uuid now e (record { faults = fs; tables = t }))
  unfolding exec
  mark-Marks e [] t = mark_processed-Marks e [] t (record { faults = []; tables = t })
  mark-Marks e (none ∷ fs) t =
      mark_processed-Marks e fs t (record { faults = none ∷ fs; tables = t })
  mark-Marks e (some x ∷ fs) t = tt

  -- What the transaction leaves behind where it succeeds.
  abbrev Marked : Event → Tables → Result (Unit {0}) × Db Tables → Type 0
  Marked e t (err x, db) = Unit {0}
  Marked e t (ok u, db) =
      (is_uuid e.id ≡ true)
      × (db.tables.processed e.id ≡ true)
      × (t.processed e.id ≡ true → db.tables ≡ t)

  kept-Marked :
      (e : Event) (t : Tables) (r : Result (Unit {0}) × Db Tables)
      → is_uuid e.id ≡ true
      → r.1.tables.processed e.id ≡ true
      → (t.processed e.id ≡ true → ⊥)
      → Marked e t r
  kept-Marked e t (err x, db) valid marked fresh = tt
  kept-Marked e t (ok u, db) valid marked fresh = (valid, marked, λ z. absurd (fresh z))

  after_mark-Marked :
      (e : Event) (t : Tables) (r : Result ℕ × Db Tables)
      → Marks e t r
      → Marked e t (and_then (λ n. if n == 0 then return tt else apply_event is_uuid now e) r)
  unfolding apply_event
  after_mark-Marked e t (err x, db) h = tt
  after_mark-Marked e t (ok n, db) (valid, marked, unchanged, again) = elim (Bool-cases (n == 0)) [
    | inl p ↦ rw p (valid, marked, λ z. unchanged p)
    | inr p ↦ rw p (
        kept-Marked e t _ valid
          (ap (λ f. f e.id) (apply_event_type-IsMarkless is_uuid now e.type e db) ∙ marked)
          (λ z. absurd (cc (p, again z))))
  ]

  abbrev pub IsProjected : Event → Tables → Result (Unit {0}) × Tables → Type 0
  IsProjected e t (err x, t') = t' ≡ t
  IsProjected e t (ok u, t') =
      (is_uuid e.id ≡ true) × (t'.processed e.id ≡ true) × (t.processed e.id ≡ true → t' ≡ t)

  finish-IsProjected :
      (e : Event) (t : Tables) (r : Result (Unit {0}) × Db Tables)
      → Marked e t r
      → IsProjected e t (finish is_uuid now t r)
  finish-IsProjected e t (err x, db) h = refl
  finish-IsProjected e t (ok u, db) h = committed db.faults refl
    where
      committed :
          (fs : List (Option Error))
          → db.faults ≡ fs
          → IsProjected e t (finish is_uuid now t (ok u, db))
      committed [] q = rw q h
      committed (none ∷ fs) q = rw q h
      committed (some x ∷ fs) q = rw q refl

  -- Whatever Postgres answers, Apply that returns an error leaves every table as it was, and Apply
  -- that succeeds leaves its event marked as processed, and has changed nothing if it was so before.
  pub apply-IsProjected :
      (faults : List (Option Error)) (e : Event) (t : Tables)
      → IsProjected e t (apply is_uuid now faults e t)
  unfolding apply body
  apply-IsProjected [] e t = finish-IsProjected e t _ (after_mark-Marked e t _ (mark-Marks e [] t))
  apply-IsProjected (none ∷ fs) e t =
      finish-IsProjected e t _ (after_mark-Marked e t _ (mark-Marks e fs t))
  apply-IsProjected (some x ∷ fs) e t = refl

  marked_again :
      (e : Event) (t : Tables)
      → is_uuid e.id ≡ true
      → t.processed e.id ≡ true
      → apply is_uuid now [] e t ≡ (ok tt, t)
  unfolding apply body exec mark_processed
  marked_again e t p q = rw (p, q) refl

  unchanged :
      (e : Event) (t : Tables) (r : Result (Unit {0}) × Tables)
      → t.processed e.id ≡ true
      → IsProjected e t r
      → r.1 ≡ t
  unchanged e t (err x, t') q h = h
  unchanged e t (ok u, t') q (valid, marked, same) = same q

  -- Once Apply has succeeded on an event, it leaves every table as it is whenever the event comes
  -- again, whatever Postgres answers, and succeeds if Postgres does.
  pub apply_again :
      (faults later : List (Option Error)) (e : Event) (t t' : Tables)
      → apply is_uuid now faults e t ≡ (ok tt, t')
      → (apply is_uuid now [] e t' ≡ (ok tt, t')) × ((apply is_uuid now later e t').1 ≡ t')
  apply_again faults later e t t' done =
      let (valid, marked, same) = subst (IsProjected e t) done (apply-IsProjected faults e t) in
      (marked_again e t' valid marked, unchanged e t' _ marked (apply-IsProjected later e t'))
