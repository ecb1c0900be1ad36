-- ===== src/Projection/Tables.antt =====
-- The tables of the read side, transactions, and the statements of the projector.
use eventledger.Prelude.{
  ℕ, Bool, true, false, ◌&&◌, ◌||◌, not, String, List, [], ◌∷◌, ◌++◌, Option, none, some, str_eq,
  ltb, leb, ◌==◌, if◌then◌else◌,
}
use eventledger.Prelude.Int.{ℤ, pos, pos_part, neg_part, half_range, ◌+ℤ◌, leb_ℤ}
use eventledger.Domain.Errors.{text, Result, ok, err}
use eventledger.Domain.Events.{Event}

pub data Status : Type 0 where
  pending completed reversed : Status

-- A row of account_balances; the key account_id is that of the map.
pub record BalanceRow : Type 0 where
  pub owner : String
  pub balance : ℤ
  pub is_open : Bool
  pub last_version : ℕ
  pub updated_at : ℕ

-- A row of statement_entries. The empty text stands for NULL.
pub record StatementRow : Type 0 where
  pub event_id : String
  pub account_id : String
  pub kind : String
  pub amount : ℤ
  pub counterparty : String
  pub transfer_id : String
  pub description : String
  pub occurred_at : ℕ

-- A row of transfers; the key transfer_id is that of the map.
pub record TransferRow : Type 0 where
  pub from_id : String
  pub to_id : String
  pub amount : ℤ
  pub status : Status
  pub reason : String
  pub created_at : ℕ
  pub updated_at : ℕ

pub record Tables : Type 0 where
  pub processed : String → Bool
  pub balances : String → Option BalanceRow
  pub statements : List StatementRow
  pub transfers : String → Option TransferRow

abbrev pub assign : {V : Type 0} → (String → V) → String → V → String → V
assign m k v j = if str_eq k j then v else m j

-- A statement that is refused by a constraint or a cast leaves the tables alone.
abbrev pub checked : Bool → Tables → Result ℕ × Tables → Result ℕ × Tables
checked true t done = done
checked false t done = (err (text "pq: refused"), t)

-- A column of type BIGINT holds an int64.
abbrev pub is_bigint : ℤ → Bool
is_bigint n = ltb (pos_part n) half_range && leb (neg_part n) half_range

module _ (is_uuid : String → Bool) where
  -- `NULLIF(x, '')::uuid`
  abbrev pub is_nullable_uuid : String → Bool
  is_nullable_uuid s = str_eq s "" || is_uuid s

  -- INSERT INTO processed_events … ON CONFLICT DO NOTHING
  unfoldable pub mark_processed : String → Tables → Result ℕ × Tables
  mark_processed id t = checked (is_uuid id) t (
      if t.processed id
      then (ok 0, t)
      else (ok 1, record t { processed = assign t.processed id true }))

  abbrev pub insert_balance : Option BalanceRow → String → BalanceRow → Tables → Result ℕ × Tables
  insert_balance (some old) id row t = (ok 0, t)
  insert_balance none id row t = (ok 1, record t { balances = assign t.balances id (some row) })

  -- INSERT INTO account_balances … ON CONFLICT (account_id) DO NOTHING. The time of the row is the
  -- clock of the database.
  unfoldable pub open_balance : ℕ → Event → String → Tables → Result ℕ × Tables
  open_balance now e owner t = checked (is_uuid e.aggregate_id) t (
      insert_balance (t.balances e.aggregate_id) e.aggregate_id
        (record {
          owner = owner;
          balance = pos 0;
          is_open = true;
          last_version = e.version;
          updated_at = now;
        })
        t)

  abbrev pub update_balance : Option BalanceRow → Event → ℤ → Tables → Result ℕ × Tables
  update_balance none e delta t = (ok 0, t)
  update_balance (some row) e delta t = checked (is_bigint (row.balance +ℤ delta)) t (
    ok 1,
    record t {
      balances = assign t.balances e.aggregate_id (
          some (record row {
            balance = row.balance +ℤ delta;
            last_version = e.version;
            updated_at = e.occurred_at;
          }));
    },
  )

  -- UPDATE account_balances SET balance = balance + $2, …
  unfoldable pub add_balance : Event → ℤ → Tables → Result ℕ × Tables
  add_balance e delta t =
      checked (is_uuid e.aggregate_id) t (update_balance (t.balances e.aggregate_id) e delta t)

  unfoldable pub has_entry : String → List StatementRow → Bool
  has_entry id [] = false
  has_entry id (row ∷ rows) = str_eq row.event_id id || has_entry id rows

  -- INSERT INTO statement_entries … ON CONFLICT (event_id) DO NOTHING, with CHECK (amount <> 0).
  unfoldable pub insert_entry : StatementRow → Tables → Result ℕ × Tables
  insert_entry row t =
      checked
        (is_uuid row.event_id
          && is_uuid row.account_id
          && is_nullable_uuid row.counterparty
          && is_nullable_uuid row.transfer_id
          && not (pos_part row.amount == neg_part row.amount))
        t
        (if has_entry row.event_id t.statements
          then (ok 0, t)
          else (ok 1, record t { statements = t.statements ++ row ∷ [] }))

  abbrev pub insert_row : Option TransferRow → String → TransferRow → Tables → Result ℕ × Tables
  insert_row (some old) id row t = (ok 0, t)
  insert_row none id row t = (ok 1, record t { transfers = assign t.transfers id (some row) })

  -- INSERT INTO transfers … ON CONFLICT (transfer_id) DO NOTHING, with CHECK (amount > 0).
  unfoldable pub insert_transfer : String → TransferRow → Tables → Result ℕ × Tables
  insert_transfer id row t =
      checked
        (is_uuid id && is_uuid row.from_id && is_uuid row.to_id && not (leb_ℤ row.amount (pos 0))) t
        (insert_row (t.transfers id) id row t)

  abbrev pub update_row :
      Option TransferRow → String → (TransferRow → TransferRow) → Tables → Result ℕ × Tables
  update_row none id change t = (ok 0, t)
  update_row (some row) id change t =
      (ok 1, record t { transfers = assign t.transfers id (some (change row)) })

  -- UPDATE transfers SET … WHERE transfer_id = $1
  unfoldable pub update_transfer : String → (TransferRow → TransferRow) → Tables → Result ℕ × Tables
  update_transfer id change t = checked (is_uuid id) t (update_row (t.transfers id) id change t)
