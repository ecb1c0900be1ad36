-- ===== src/Projection/Demands.antt =====
-- What each event asks of the tables, as a list of SQL statements, and a transaction that obeys all of
-- such a list or nothing: a description of Apply of internal/projection/projector.go apart from its
-- error handling and from the errors of the connection.
use Prim.Native.String.{◌++◌ as append}
use eventledger.Prelude.{ℕ, Bool, String, List, [], ◌∷◌, Option, none, some, ◌==◌, if◌then◌else◌}
use eventledger.Prelude.Int.{ℤ, neg64}
use eventledger.Domain.Errors.{Error, text, wrapped, Result, ok, err, ◌>>=◌}
use eventledger.Domain.Events.{
  Event, EventType, unmarshal_account_opened, unmarshal_money_deposited, unmarshal_money_withdrawn,
  unmarshal_transfer_debited, unmarshal_transfer_credited, unmarshal_transfer_reversed,
}
use eventledger.Projection.Tables.{
  Status, Tables, TransferRow, mark_processed, open_balance, add_balance, insert_entry,
  insert_transfer, update_transfer,
}

-- A statement, and the complaint if it must change one row and does not.
pub record Demand : Type 0 where
  pub statement : Tables → Result ℕ × Tables
  pub complaint : Option Error

abbrev pub plainly : (Tables → Result ℕ × Tables) → Demand
plainly statement = record { statement = statement; complaint = none }

-- What follows a statement: the rest, unless it is refused or complained of.
abbrev pub obey :
    Option Error
    → (Tables → Result (Unit {0}) × Tables)
    → Result ℕ × Tables
    → Result (Unit {0}) × Tables
obey complaint rest (err x, t) = (err x, t)
obey none rest (ok n, t) = rest t
obey (some x) rest (ok n, t) = if n == 1 then rest t else (err x, t)

-- The statements one after the other, up to the first that is refused or complained of.
unfoldable pub run : List Demand → Tables → Result (Unit {0}) × Tables
run [] t = (ok tt, t)
run (d ∷ ds) t = obey d.complaint (run ds) (d.statement t)

module _ (is_uuid : String → Bool) (now : ℕ) where
  abbrev pub moves : Event → ℤ → Demand
  moves e delta = record {
    statement = add_balance is_uuid e delta;
    complaint = some (
        text (
          append "projection invariant failed: account "
            (append e.aggregate_id (append " missing for event " e.id))));
  }

  abbrev pub enters : Event → String → ℤ → String → String → String → Demand
  enters e kind amount counterparty transfer_id description = plainly (
      insert_entry is_uuid (record {
        event_id = e.id;
        account_id = e.aggregate_id;
        kind = kind;
        amount = amount;
        counterparty = counterparty;
        transfer_id = transfer_id;
        description = description;
        occurred_at = e.occurred_at;
      }))

  abbrev pub transfers_to : Event → String → String → ℤ → Demand
  transfers_to e transfer_id to amount = plainly (
      insert_transfer is_uuid transfer_id (record {
        from_id = e.aggregate_id;
        to_id = to;
        amount = amount;
        status = Status.pending;
        reason = "";
        created_at = e.occurred_at;
        updated_at = e.occurred_at;
      }))

  abbrev pub settles_transfer : String → (TransferRow → TransferRow) → Demand
  settles_transfer transfer_id change = plainly (update_transfer is_uuid transfer_id change)

  -- An opening asks for a row of balances; an event that moves money for the change of one balance by
  -- its amount and for an entry of the same amount, and that of a transfer for its row as well.
  unfoldable pub demands : EventType → Event → Result (List Demand)
  demands EventType.account_opened e = unmarshal_account_opened e.payload >>= λ d.
      ok (plainly (open_balance is_uuid now e d.owner) ∷ [])
  demands EventType.money_deposited e = unmarshal_money_deposited e.payload >>= λ d.
      ok (moves e d.amount ∷ enters e "deposit" d.amount "" "" d.description ∷ [])
  demands EventType.money_withdrawn e = unmarshal_money_withdrawn e.payload >>= λ d.
      ok
        (moves e (neg64 d.amount) ∷ enters e "withdrawal" (neg64 d.amount) "" "" d.description ∷ [])
  demands EventType.transfer_debited e = unmarshal_transfer_debited e.payload >>= λ d. ok (
      moves e (neg64 d.amount)
      ∷ enters e "transfer_out" (neg64 d.amount) d.to d.transfer_id ""
      ∷ transfers_to e d.transfer_id d.to d.amount
      ∷ [])
  demands EventType.transfer_credited e = unmarshal_transfer_credited e.payload >>= λ d. ok (
      moves e d.amount
      ∷ enters e "transfer_in" d.amount d.from d.transfer_id ""
      ∷ settles_transfer d.transfer_id
          (λ row. record row { status = Status.completed; updated_at = e.occurred_at })
      ∷ [])
  demands EventType.transfer_reversed e = unmarshal_transfer_reversed e.payload >>= λ d. ok (
      moves e d.amount
      ∷ enters e "transfer_reversal" d.amount "" d.transfer_id d.reason
      ∷ settles_transfer d.transfer_id (λ row. record row {
        status = Status.reversed;
        reason = d.reason;
        updated_at = e.occurred_at;
      })
      ∷ [])
  demands (EventType.other s) e = ok []

  abbrev pub run_all : Result (List Demand) → Tables → Result (Unit {0}) × Tables
  run_all (err x) t = (err x, t)
  run_all (ok ds) t = run ds t

  -- The demands of an event that is not marked yet.
  abbrev pub unless_marked : Event → Result ℕ × Tables → Result (Unit {0}) × Tables
  unless_marked e (err x, t) = (err (wrapped "mark processed" x), t)
  unless_marked e (ok n, t) = if n == 0 then (ok tt, t) else run_all (demands e.type e) t

  -- All or nothing.
  abbrev pub all_or_nothing : Tables → Result (Unit {0}) × Tables → Result (Unit {0}) × Tables
  all_or_nothing before (err x, t) = (err x, before)
  all_or_nothing before (ok u, t) = (ok tt, t)

  unfoldable pub projected : Event → Tables → Result (Unit {0}) × Tables
  projected e t = all_or_nothing t (unless_marked e (mark_processed is_uuid e.id t))
