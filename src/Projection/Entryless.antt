-- ===== src/Projection/Entryless.antt =====
-- The statements of internal/projection/projector.go that leave the rows of statement_entries.
use eventledger.Prelude.{ℕ, ◌≡◌, String, List, Bool, arith}
use eventledger.Prelude.Int.{ℤ}
use eventledger.Domain.Events.{Event}
use eventledger.Database.{exec}
use eventledger.Projection.Tables.{
  Tables, StatementRow, TransferRow, open_balance, add_balance, insert_transfer, update_transfer,
}
use eventledger.Projection.Keep.{IsKept, bind-IsKept, exec-IsKept}
use eventledger.Projection.Apply.{bump}

abbrev pub statements_of : Tables → List StatementRow
statements_of t = t.statements

module _ (is_uuid : String → Bool) (now : ℕ) where
  add_balance-statements :
      (e : Event) (delta : ℤ) (t : Tables)
      → (add_balance is_uuid e delta t).1.statements ≡ t.statements
  unfolding add_balance
  add_balance-statements e delta t = ground arith

  pub bump-statements : (e : Event) (delta : ℤ) → IsKept statements_of (bump is_uuid now e delta)
  unfolding bump
  bump-statements e delta =
      bind-IsKept statements_of (exec (add_balance is_uuid e delta)) _
        (exec-IsKept statements_of _ (add_balance-statements e delta)) (λ n db. ground arith)

  pub insert_transfer-statements :
      (id : String) (row : TransferRow) (t : Tables)
      → (insert_transfer is_uuid id row t).1.statements ≡ t.statements
  unfolding insert_transfer
  insert_transfer-statements id row t = ground arith

  pub update_transfer-statements :
      (id : String) (change : TransferRow → TransferRow) (t : Tables)
      → (update_transfer is_uuid id change t).1.statements ≡ t.statements
  unfolding update_transfer
  update_transfer-statements id change t = ground arith

  pub open_balance-statements :
      (e : Event) (owner : String) (t : Tables)
      → (open_balance is_uuid now e owner t).1.statements ≡ t.statements
  unfolding open_balance
  open_balance-statements e owner t = ground arith
