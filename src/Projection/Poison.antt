-- ===== src/Projection/Poison.antt =====
-- internal/projection/projector.go on a debit whose destination is no UUID.
use Prim.Native.String.{◌++◌ as append}
use eventledger.Prelude.{
  ℕ, suc, ◌≡◌, refl, ap, Bool, false, String, List, [], ◌∷◌, ◌++◌, Option, none, some, arith, ◌==◌,
  if◌then◌else◌, inl, inr, Bool-cases,
}
use eventledger.Prelude.Int.{neg64}
use eventledger.Domain.Errors.{Error, Result, ok, err, text, wrapped}
use eventledger.Domain.Events.{Event, EventType, TransferDebited, unmarshal_transfer_debited}
use eventledger.Database.{Db, Sql, ◌>>=◌, return, and_then, exec, exec_on}
use eventledger.Projection.Tables.{Tables, mark_processed, insert_transfer, TransferRow}
use eventledger.Projection.Apply.{
  bump, apply_event, apply_event_type, body, apply, mark, finish, catch_up, catch_up_next,
}

-- A part of a transaction that cannot succeed.
abbrev pub IsFailing : {A : Type 0} → Sql Tables A → Type 0
IsFailing m = (db : Db Tables) → (x : Error) × ((m db).0 ≡ err x)

then_fails :
    {A B : Type 0} (m : Sql Tables A) (f : A → Sql Tables B)
    → ((a : A) → IsFailing (f a))
    → IsFailing (m >>= f)
then_fails m f h db = go (m db)
  where
    go : (r : Result _ × Db Tables) → (x : Error) × ((and_then f r).0 ≡ err x)
    go (err x, d) = (x, refl)
    go (ok a, d) = h a d

fails_then :
    {A B : Type 0} (m : Sql Tables A) (f : A → Sql Tables B) → IsFailing m → IsFailing (m >>= f)
fails_then m f h db = go (m db) (h db)
  where
    go :
        (r : Result _ × Db Tables)
        → (x : Error) × (r.0 ≡ err x)
        → (x : Error) × ((and_then f r).0 ≡ err x)
    go (err x, d) q = (x, refl)
    go (ok a, d) (x, q) = absurd (cc q)

exec_fails :
    (s : Tables → Result ℕ × Tables)
    → ((t : Tables) → (x : Error) × ((s t).0 ≡ err x))
    → IsFailing (exec s)
unfolding exec
exec_fails s h db = go db.faults
  where
    go : (fs : List (Option Error)) → (x : Error) × ((exec_on fs s db).0 ≡ err x)
    go [] = h db.tables
    go (none ∷ fs) = h db.tables
    go (some x ∷ fs) = (x, refl)

-- A call that returned an error, with these tables left.
abbrev pub Fails : Tables → Result (Unit {0}) × Tables → Type 0
Fails t r = (x : Error) × (r ≡ (err x, t))

module _ (is_uuid : String → Bool) (now : ℕ) (e : Event) (p : TransferDebited)
    (type : e.type ≡ EventType.transfer_debited)
    (decodes : unmarshal_transfer_debited e.payload ≡ ok p) (bad : is_uuid p.to ≡ false) where
  insert_transfer_fails :
      (id : String) (row : TransferRow) (t : Tables)
      → is_uuid row.to_id ≡ false
      → (insert_transfer is_uuid id row t).0 ≡ err (text "pq: refused")
  unfolding insert_transfer
  insert_transfer_fails id row t q = ground arith

  debit_fails : IsFailing (apply_event is_uuid now e)
  unfolding apply_event apply_event_type
  debit_fails =
      rw (type, decodes)
        (then_fails
          (bump is_uuid now (record e { type = EventType.transfer_debited }) (neg64 p.amount)) _
          (λ u. then_fails _ _ (λ v.
            fails_then _ _ (exec_fails _ (λ t. (_, insert_transfer_fails p.transfer_id _ t bad))))))

  finish-Fails :
      (t : Tables) (r : Result (Unit {0}) × Db Tables)
      → (x : Error) × (r.0 ≡ err x)
      → Fails t (finish is_uuid now t r)
  finish-Fails t (err x, db) h = (x, refl)
  finish-Fails t (ok u, db) (x, q) = absurd (cc q)

  -- A mark that is not that of an event marked before.
  abbrev IsFresh : Result ℕ × Db Tables → Type 0
  IsFresh (err x, db) = Unit {0}
  IsFresh (ok n, db) = (n == 0) ≡ false

  effect_fails :
      (r : Result ℕ × Db Tables)
      → IsFresh r
      → (x : Error) × ((and_then (λ n. if n == 0 then return tt else apply_event is_uuid now e) r).0
          ≡ err x)
  effect_fails (err x, db) h = (x, refl)
  effect_fails (ok n, db) h = rw h (debit_fails db)

  mark-IsFresh :
      (fs : List (Option Error)) (t : Tables)
      → t.processed e.id ≡ false
      → IsFresh (mark is_uuid now e (record { faults = fs; tables = t }))
  unfolding exec mark_processed
  mark-IsFresh [] t fresh = elim (Bool-cases (is_uuid e.id)) [
    | inl q ↦ rw (q, fresh) refl
    | inr q ↦ rw q tt
  ]
  mark-IsFresh (none ∷ fs) t fresh = elim (Bool-cases (is_uuid e.id)) [
    | inl q ↦ rw (q, fresh) refl
    | inr q ↦ rw q tt
  ]
  mark-IsFresh (some x ∷ fs) t fresh = tt

  -- Apply fails on a debit towards a text that Postgres takes for no UUID, whatever else it answers,
  -- as long as the event is not processed yet, and changes nothing.
  pub apply-Fails :
      (faults : List (Option Error)) (t : Tables)
      → t.processed e.id ≡ false
      → Fails t (apply is_uuid now faults e t)
  unfolding apply body
  apply-Fails [] t fresh = finish-Fails t _ (effect_fails _ (mark-IsFresh [] t fresh))
  apply-Fails (none ∷ fs) t fresh = finish-Fails t _ (effect_fails _ (mark-IsFresh fs t fresh))
  apply-Fails (some x ∷ fs) t fresh = (_, refl)

  next-Fails :
      (rest : Tables → Result (Unit {0}) × Tables) (t : Tables) (r : Result (Unit {0}) × Tables)
      → Fails t r
      → Fails t (catch_up_next is_uuid now e rest r)
  next-Fails rest t (err x, t') (y, q) =
      let report = wrapped (append "catch-up event " e.id) x in
      (report, ap (λ (z : Result (Unit {0}) × Tables). (err report, z.1)) q)
  next-Fails rest t (ok u, t') (y, q) = absurd (cc (ap (λ z. z.0) q))

  through :
      (f : Event) (run run' : Tables → Result (Unit {0}) × Tables) (t' : Tables)
      (r : Result (Unit {0}) × Tables)
      → ((s : Tables) → run s ≡ (ok tt, t') → Fails t' (run' s))
      → catch_up_next is_uuid now f run r ≡ (ok tt, t')
      → Fails t' (catch_up_next is_uuid now f run' r)
  through f run run' t' (err x, s) h d = absurd (cc (ap (λ z. z.0) d))
  through f run run' t' (ok u, s) h d = h s d

  -- The catch-up stops at a debit whose destination Postgres does not take for a UUID, unless the
  -- event is marked as processed by then: whatever else Postgres answers, it returns an error,
  -- with the tables as the events before the debit left them, if those succeeded.
  pub catch_up_stuck :
      (faults : ℕ → List (Option Error)) (before after : List Event) (t t' : Tables)
      → catch_up is_uuid now faults before t ≡ (ok tt, t')
      → t'.processed e.id ≡ false
      → Fails t' (catch_up is_uuid now faults (before ++ e ∷ after) t)
  unfolding catch_up
  catch_up_stuck faults [] after t t' done fresh =
      rw (ap (λ z. z.1) done) (next-Fails _ _ _ (apply-Fails (faults 0) t' fresh))
  catch_up_stuck faults (f ∷ before) after t t' done fresh =
      through f _ _ t' (apply is_uuid now (faults 0) f t)
        (λ s d. catch_up_stuck (λ k. faults (suc k)) before after s t' d fresh) done
