-- ===== src/Projection/Markless.antt =====
-- The statements of internal/projection/projector.go and the marks of processed events.
use eventledger.Prelude.{ℕ, ◌≡◌, refl, Bool, String, arith}
use eventledger.Prelude.Int.{ℤ, neg64}
use eventledger.Domain.Errors.{Result}
use eventledger.Domain.Events.{
  Event, EventType, unmarshal_account_opened, unmarshal_money_deposited, unmarshal_money_withdrawn,
  unmarshal_transfer_debited, unmarshal_transfer_credited, unmarshal_transfer_reversed,
}
use eventledger.Database.{Sql, ◌>>=◌, exec}
use eventledger.Projection.Tables.{
  Tables, open_balance, add_balance, insert_entry, insert_transfer, update_transfer, StatementRow,
  TransferRow,
}
use eventledger.Projection.Keep.{IsKept, bind-IsKept, exec-IsKept, discard-IsKept}
use eventledger.Projection.Apply.{bump, statement, apply_event_type, decoded}

-- A part of a transaction that marks nothing.
abbrev pub IsMarkless : {A : Type 0} → Sql Tables A → Type 0
IsMarkless m = IsKept (λ t. t.processed) m

module _ (is_uuid : String → Bool) (now : ℕ) where
  open_balance-processed :
      (e : Event) (owner : String) (t : Tables)
      → (open_balance is_uuid now e owner t).1.processed ≡ t.processed
  unfolding open_balance
  open_balance-processed e owner t = ground arith

  add_balance-processed :
      (e : Event) (delta : _) (t : Tables)
      → (add_balance is_uuid e delta t).1.processed ≡ t.processed
  unfolding add_balance
  add_balance-processed e delta t = ground arith

  insert_entry-processed :
      (row : StatementRow) (t : Tables) → (insert_entry is_uuid row t).1.processed ≡ t.processed
  unfolding insert_entry
  insert_entry-processed row t = ground arith

  insert_transfer-processed :
      (id : String) (row : TransferRow) (t : Tables)
      → (insert_transfer is_uuid id row t).1.processed ≡ t.processed
  unfolding insert_transfer
  insert_transfer-processed id row t = ground arith

  update_transfer-processed :
      (id : String) (change : TransferRow → TransferRow) (t : Tables)
      → (update_transfer is_uuid id change t).1.processed ≡ t.processed
  unfolding update_transfer
  update_transfer-processed id change t = ground arith

  bump-IsMarkless : (e : Event) (delta : ℤ) → IsMarkless (bump is_uuid now e delta)
  unfolding bump
  bump-IsMarkless e delta =
      bind-IsKept (λ t. t.processed) (exec (add_balance is_uuid e delta)) _
        (exec-IsKept (λ t. t.processed) _ (add_balance-processed e delta)) (λ n db. ground arith)

  statement-IsMarkless :
      (e : Event) (kind : String) (amount : ℤ) (counterparty transfer_id description : String)
      → IsMarkless (statement is_uuid now e kind amount counterparty transfer_id description)
  unfolding statement
  statement-IsMarkless e kind amount counterparty transfer_id description =
      discard-IsKept (λ t. t.processed) _ (insert_entry-processed _)

  moved-IsMarkless :
      (e : Event) (delta : ℤ) (kind counterparty transfer_id description : String)
      (rest : Sql Tables (Unit {0}))
      → IsMarkless rest
      → IsMarkless (
          bump is_uuid now e delta >>= λ u.
          statement is_uuid now e kind delta counterparty transfer_id description >>= λ v. rest)
  moved-IsMarkless e delta kind counterparty transfer_id description rest h =
      bind-IsKept (λ t. t.processed) (bump is_uuid now e delta) _ (bump-IsMarkless e delta)
        (λ u.
          bind-IsKept (λ t. t.processed) _ _
            (statement-IsMarkless e kind delta counterparty transfer_id description) (λ v. h))

  single-IsMarkless :
      (e : Event) (delta : ℤ) (kind description : String)
      → IsMarkless
          (bump is_uuid now e delta >>= λ u. statement is_uuid now e kind delta "" "" description)
  single-IsMarkless e delta kind description =
      bind-IsKept (λ t. t.processed) (bump is_uuid now e delta) _ (bump-IsMarkless e delta)
        (λ u. statement-IsMarkless e kind delta "" "" description)

  decoded-IsMarkless :
      {A B : Type 0} (r : Result A) (f : A → Sql Tables B)
      → ((a : A) → IsMarkless (f a))
      → IsMarkless (decoded r >>= f)
  decoded-IsMarkless r f h = bind-IsKept (λ t. t.processed) (decoded r) f (λ db. refl) h

  pub apply_event_type-IsMarkless :
      (type : EventType) (e : Event) → IsMarkless (apply_event_type is_uuid now type e)
  unfolding apply_event_type
  apply_event_type-IsMarkless EventType.account_opened e =
      decoded-IsMarkless (unmarshal_account_opened e.payload) _
        (λ d. discard-IsKept (λ t. t.processed) _ (open_balance-processed e d.owner))
  apply_event_type-IsMarkless EventType.money_deposited e =
      decoded-IsMarkless (unmarshal_money_deposited e.payload) _
        (λ d. single-IsMarkless e d.amount "deposit" d.description)
  apply_event_type-IsMarkless EventType.money_withdrawn e =
      decoded-IsMarkless (unmarshal_money_withdrawn e.payload) _
        (λ d. single-IsMarkless e (neg64 d.amount) "withdrawal" d.description)
  apply_event_type-IsMarkless EventType.transfer_debited e =
      decoded-IsMarkless (unmarshal_transfer_debited e.payload) _ (λ d.
        moved-IsMarkless e (neg64 d.amount) "transfer_out" d.to d.transfer_id "" _
          (discard-IsKept (λ t. t.processed) _ (insert_transfer-processed d.transfer_id _)))
  apply_event_type-IsMarkless EventType.transfer_credited e =
      decoded-IsMarkless (unmarshal_transfer_credited e.payload) _ (λ d.
        moved-IsMarkless e d.amount "transfer_in" d.from d.transfer_id "" _
          (discard-IsKept (λ t. t.processed) _ (update_transfer-processed d.transfer_id _)))
  apply_event_type-IsMarkless EventType.transfer_reversed e =
      decoded-IsMarkless (unmarshal_transfer_reversed e.payload) _ (λ d.
        moved-IsMarkless e d.amount "transfer_reversal" "" d.transfer_id d.reason _
          (discard-IsKept (λ t. t.processed) _ (update_transfer-processed d.transfer_id _)))
  apply_event_type-IsMarkless (EventType.other s) e = λ db. refl
