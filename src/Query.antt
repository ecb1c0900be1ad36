-- ===== src/Query.antt =====
-- internal/query/query.go: the reads of the read side, over the tables that the projector fills.
pub mod Order
pub mod Pages
use Prim.Native.Nat.{Ordering}
use Prim.Native.String.{compare}
use eventledger.Prelude.{
  ℕ, zero, suc, Bool, true, false, ◌&&◌, ◌||◌, String, List, [], ◌∷◌, Option, none, some, str_eq,
  ltb, ◌==◌, if◌then◌else◌,
}
use eventledger.Prelude.Int.{ℤ, pos, pos_part, leb_ℤ, ltb_ℤ}
use eventledger.Domain.Errors.{Sentinel, Error, pq, text, is, Result, ok, err, fail}
use eventledger.Database.{Db, Sql, ◌>>=◌, ◌>>◌, return, query, call}
use eventledger.Projection.Tables.{Tables, BalanceRow, StatementRow, Status, TransferRow}

-- The JSON forms leave out an empty counterparty, transfer_id, description and reason.
pub record Balance : Type 0 where
  pub account_id : String
  pub owner : String
  pub balance : ℤ
  pub is_open : Bool
  pub updated_at : ℕ

pub record StatementEntry : Type 0 where
  pub event_id : String
  pub kind : String
  pub amount : ℤ
  pub counterparty : String
  pub transfer_id : String
  pub description : String
  pub occurred_at : ℕ

pub record Transfer : Type 0 where
  pub transfer_id : String
  pub from_id : String
  pub to_id : String
  pub amount : ℤ
  pub status : Status
  pub reason : String
  pub created_at : ℕ
  pub updated_at : ℕ

-- No connection stands for a nil `db`.
unfoldable pub ping : Option (Db Tables) → Result (Unit {0}) × Option (Db Tables)
unfolding call
ping none = (err (text "query database is not configured"), none)
ping (some db) = let (r, d) = call db in (r, some d)

-- QueryRowContext and Scan, where the key has no row.
abbrev pub row_or_none : {R : Type 0} → Option R → Result R
row_or_none none = fail Sentinel.no_rows
row_or_none (some row) = ok row

abbrev pub not_uuid : {A : Type 0} → Result A
not_uuid = err (pq "22P02" "invalid input syntax for type uuid")

abbrev pub select_rows : (StatementRow → Bool) → List StatementRow → List StatementRow
select_rows test [] = []
select_rows test (row ∷ rows) =
    let rest = select_rows test rows in if test row then row ∷ rest else rest

abbrev pub is_later_id : String → String → Bool
is_later_id id other = elim (compare id other) [ Ordering.gt ↦ true | _ ↦ false ]

-- ORDER BY occurred_at DESC, event_id DESC; texts of UUIDs compare as the UUIDs do.
abbrev pub is_newer : StatementRow → StatementRow → Bool
is_newer row other =
    ltb other.occurred_at row.occurred_at
    || (row.occurred_at == other.occurred_at && is_later_id row.event_id other.event_id)

abbrev pub insert_newest : StatementRow → List StatementRow → List StatementRow
insert_newest row [] = row ∷ []
insert_newest row (other ∷ rows) =
    let rest = insert_newest row rows in
    if is_newer other row then other ∷ rest else row ∷ other ∷ rows

abbrev pub newest_first : List StatementRow → List StatementRow
newest_first [] = []
newest_first (row ∷ rows) = insert_newest row (newest_first rows)

-- LIMIT
abbrev pub take_rows : ℕ → List StatementRow → List StatementRow
take_rows zero rows = []
take_rows (suc n) [] = []
take_rows (suc n) (row ∷ rows) = row ∷ take_rows n rows

abbrev pub entries_of : List StatementRow → List StatementEntry
entries_of [] = []
entries_of (row ∷ rows) =
    record {
      event_id = row.event_id;
      kind = row.kind;
      amount = row.amount;
      counterparty = row.counterparty;
      transfer_id = row.transfer_id;
      description = row.description;
      occurred_at = row.occurred_at;
    }
    ∷ entries_of rows

-- The default of the page size.
abbrev pub page_size : ℤ → ℕ
page_size limit = if leb_ℤ limit (pos 0) || ltb_ℤ (pos 100) limit then 20 else pos_part limit

abbrev pub is_entry_before : String → ℕ → StatementRow → Bool
is_entry_before account_id before row =
    str_eq row.account_id account_id && ltb row.occurred_at before

abbrev pub page : ℕ → String → ℕ → Tables → List StatementRow
page size account_id before t =
    take_rows size (newest_first (select_rows (is_entry_before account_id before) t.statements))

-- `is_uuid` tells the texts that Postgres takes for a UUID.
module _ (is_uuid : String → Bool) where
  abbrev pub balance_row : String → Tables → Result BalanceRow
  balance_row account_id t =
      if is_uuid account_id then row_or_none (t.balances account_id) else not_uuid

  abbrev pub balance_of : String → Result BalanceRow → Result Balance
  balance_of account_id (ok row) = ok (record {
    account_id = account_id;
    owner = row.owner;
    balance = row.balance;
    is_open = row.is_open;
    updated_at = row.updated_at;
  })
  balance_of account_id (err x) =
      if is x Sentinel.no_rows then fail Sentinel.account_not_found else err x

  unfoldable pub balance : String → Db Tables → Result Balance × Db Tables
  unfolding query
  balance account_id db =
      let (r, d) = query (balance_row account_id) db in (balance_of account_id r, d)

  abbrev pub page_rows : ℕ → String → ℕ → Tables → Result (List StatementRow)
  page_rows size account_id before t =
      if is_uuid account_id then ok (page size account_id before t) else not_uuid

  -- The rows are read one by one, and the reading may fail.
  unfoldable pub statement : String → ℤ → ℕ → Sql Tables (List StatementEntry)
  unfolding query call
  statement account_id limit before = do
    rows ← query (page_rows (page_size limit) account_id before)
    call
    return (entries_of rows)

  abbrev pub transfer_row : String → Tables → Result TransferRow
  transfer_row transfer_id t =
      if is_uuid transfer_id then row_or_none (t.transfers transfer_id) else not_uuid

  abbrev pub transfer_of : String → Result TransferRow → Result Transfer
  transfer_of transfer_id (ok row) = ok (record {
    transfer_id = transfer_id;
    from_id = row.from_id;
    to_id = row.to_id;
    amount = row.amount;
    status = row.status;
    reason = row.reason;
    created_at = row.created_at;
    updated_at = row.updated_at;
  })
  transfer_of transfer_id (err x) = if is x Sentinel.no_rows then fail Sentinel.no_rows else err x

  unfoldable pub transfer : String → Db Tables → Result Transfer × Db Tables
  unfolding query
  transfer transfer_id db =
      let (r, d) = query (transfer_row transfer_id) db in (transfer_of transfer_id r, d)
