-- ===== src/Projection/Apply.antt =====
-- The methods of the projector, internal/projection/projector.go.
use Prim.Native.String.{◌++◌ as append}
use eventledger.Prelude.{
  ℕ, Bool, true, false, String, List, [], ◌∷◌, Option, none, some, ◌==◌, if◌then◌else◌,
}
use eventledger.Prelude.Int.{ℤ, neg64}
use eventledger.Domain.Errors.{Error, text, wrapped, within, Result, ok, err}
use eventledger.Domain.Events.{
  Event, EventType, unmarshal_account_opened, unmarshal_money_deposited, unmarshal_money_withdrawn,
  unmarshal_transfer_debited, unmarshal_transfer_credited, unmarshal_transfer_reversed,
}
use eventledger.Database.{Db, Sql, ◌>>=◌, ◌>>◌, return, exec}
use eventledger.Projection.Tables.{
  Status, Tables, mark_processed, open_balance, add_balance, insert_entry, insert_transfer,
  update_transfer,
}

-- `json.Unmarshal` in a transaction.
abbrev pub decoded : {A : Type 0} → Result A → Sql Tables A
decoded r db = (r, db)

abbrev pub fail_unless : Bool → Error → Sql Tables (Unit {0})
fail_unless true e db = (ok tt, db)
fail_unless false e db = (err e, db)

module _ (is_uuid : String → Bool) (now : ℕ) where
  unfoldable pub bump : Event → ℤ → Sql Tables (Unit {0})
  bump e delta = do
    n ← exec (add_balance is_uuid e delta)
    fail_unless (n == 1) (
        text (
          append "projection invariant failed: account "
            (append e.aggregate_id (append " missing for event " e.id))))

  unfoldable pub statement : Event → String → ℤ → String → String → String → Sql Tables (Unit {0})
  statement e kind amount counterparty transfer_id description = do
    n ← exec (
        insert_entry is_uuid (record {
          event_id = e.id;
          account_id = e.aggregate_id;
          kind = kind;
          amount = amount;
          counterparty = counterparty;
          transfer_id = transfer_id;
          description = description;
          occurred_at = e.occurred_at;
        }))
    return tt

  -- The switch of applyEvent, on the event's type.
  unfoldable pub apply_event_type : EventType → Event → Sql Tables (Unit {0})
  apply_event_type EventType.account_opened e = do
    d ← decoded (unmarshal_account_opened e.payload)
    n ← exec (open_balance is_uuid now e d.owner)
    return tt
  apply_event_type EventType.money_deposited e = do
    d ← decoded (unmarshal_money_deposited e.payload)
    bump e d.amount
    statement e "deposit" d.amount "" "" d.description
  apply_event_type EventType.money_withdrawn e = do
    d ← decoded (unmarshal_money_withdrawn e.payload)
    bump e (neg64 d.amount)
    statement e "withdrawal" (neg64 d.amount) "" "" d.description
  apply_event_type EventType.transfer_debited e = do
    d ← decoded (unmarshal_transfer_debited e.payload)
    bump e (neg64 d.amount)
    statement e "transfer_out" (neg64 d.amount) d.to d.transfer_id ""
    n ← exec (
        insert_transfer is_uuid d.transfer_id (record {
          from_id = e.aggregate_id;
          to_id = d.to;
          amount = d.amount;
          status = Status.pending;
          reason = "";
          created_at = e.occurred_at;
          updated_at = e.occurred_at;
        }))
    return tt
  apply_event_type EventType.transfer_credited e = do
    d ← decoded (unmarshal_transfer_credited e.payload)
    bump e d.amount
    statement e "transfer_in" d.amount d.from d.transfer_id ""
    n ← exec (
        update_transfer is_uuid d.transfer_id
          (λ row. record row { status = Status.completed; updated_at = e.occurred_at }))
    return tt
  apply_event_type EventType.transfer_reversed e = do
    d ← decoded (unmarshal_transfer_reversed e.payload)
    bump e d.amount
    statement e "transfer_reversal" d.amount "" d.transfer_id d.reason
    n ← exec (
        update_transfer is_uuid d.transfer_id (λ row. record row {
          status = Status.reversed;
          reason = d.reason;
          updated_at = e.occurred_at;
        }))
    return tt
  apply_event_type (EventType.other s) e = return tt

  unfoldable pub apply_event : Event → Sql Tables (Unit {0})
  unfolding apply_event_type
  apply_event e = apply_event_type e.type e

  abbrev pub mark : Event → Sql Tables ℕ
  mark e db =
      let (r, db') = exec (mark_processed is_uuid e.id) db in (within "mark processed" r, db')

  -- What Apply does between the begin and the commit of its transaction.
  unfoldable pub body : Event → Sql Tables (Unit {0})
  unfolding apply_event
  body e = do n ← mark e; (if n == 0 then return tt else apply_event e)

  -- The commit, or the rollback that is deferred.
  abbrev pub finish : Tables → Result (Unit {0}) × Db Tables → Result (Unit {0}) × Tables
  finish before (err x, db) = (err x, before)
  finish before (ok u, db) = elim db.faults [
    | [] ↦ (ok tt, db.tables)
    | fault ∷ fs ↦ elim fault [ none ↦ (ok tt, db.tables) | some x ↦ (err x, before) ]
  ]

  -- Apply; the first of `faults` answers the begin, the next ones the statements and the commit.
  unfoldable pub apply : List (Option Error) → Event → Tables → Result (Unit {0}) × Tables
  apply [] e t = finish t (body e (record { faults = []; tables = t }))
  apply (none ∷ fs) e t = finish t (body e (record { faults = fs; tables = t }))
  apply (some x ∷ fs) e t = (err (wrapped "begin" x), t)

  -- Handle, which only logs the error.
  abbrev pub handle : List (Option Error) → Event → Tables → Tables
  handle faults e t = (apply faults e t).1

  abbrev pub catch_up_next :
      Event
      → (Tables → Result (Unit {0}) × Tables)
      → Result (Unit {0}) × Tables
      → Result (Unit {0}) × Tables
  catch_up_next e rest (ok u, t) = rest t
  catch_up_next e rest (err x, t) = (err (wrapped (append "catch-up event " e.id) x), t)

  -- CatchUp, with the faults of each event.
  unfoldable pub catch_up :
      (ℕ → List (Option Error)) → List Event → Tables → Result (Unit {0}) × Tables
  catch_up faults [] t = (ok tt, t)
  catch_up faults (e ∷ events) t =
      catch_up_next e (catch_up (λ k. faults (ℕ.suc k)) events) (apply (faults 0) e t)
