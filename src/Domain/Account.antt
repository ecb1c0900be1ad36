-- ===== src/Domain/Account.antt =====
-- internal/domain/account.go: the aggregate, the replay of its events, and its decisions.
pub mod Text
pub mod State
use Prim.Native.String.{◌++◌ as append}
use eventledger.Prelude.{ℕ, ◌+◌, Bool, true, false, String, List, [], ◌∷◌, str_eq, not}
use eventledger.Prelude.Int.{ℤ, pos, add64, sub64, ltb_ℤ, leb_ℤ}
use eventledger.Domain.Errors.{Sentinel, Result, ok, err, text, fail_if, within, ◌>>=◌, ◌>>◌}
use eventledger.Domain.Events.{
  Event, EventType, Payload, Stamp, type_name, new_event, unmarshal_account_opened,
  unmarshal_money_deposited, unmarshal_money_withdrawn, unmarshal_transfer_debited,
  unmarshal_transfer_credited, unmarshal_transfer_reversed,
}
use Text.{trim_space}

-- MaxOperationAmount, in cents.
abbrev pub max_operation_amount : ℤ
max_operation_amount = pos 100_000_000

-- `is_open` is the field Open; the balance is an int64.
pub record Account : Type 0 where
  pub id : String
  pub owner : String
  pub balance : ℤ
  pub is_open : Bool
  pub version : ℕ

-- `Account{}`
abbrev pub blank : Account
blank = record { id = ""; owner = ""; balance = pos 0; is_open = false; version = 0 }

-- The switch of Apply, on the event's type.
apply_type : EventType → Event → Account → Result Account
apply_type EventType.account_opened e a = do
  p ← within (append "apply " (type_name e.type)) (unmarshal_account_opened e.payload)
  ok (record a { id = e.aggregate_id; owner = p.owner; is_open = true; version = e.version })
apply_type EventType.money_deposited e a = do
  p ← within (append "apply " (type_name e.type)) (unmarshal_money_deposited e.payload)
  ok (record a { balance = add64 a.balance p.amount; version = e.version })
apply_type EventType.money_withdrawn e a = do
  p ← within (append "apply " (type_name e.type)) (unmarshal_money_withdrawn e.payload)
  ok (record a { balance = sub64 a.balance p.amount; version = e.version })
apply_type EventType.transfer_debited e a = do
  p ← within (append "apply " (type_name e.type)) (unmarshal_transfer_debited e.payload)
  ok (record a { balance = sub64 a.balance p.amount; version = e.version })
apply_type EventType.transfer_credited e a = do
  p ← within (append "apply " (type_name e.type)) (unmarshal_transfer_credited e.payload)
  ok (record a { balance = add64 a.balance p.amount; version = e.version })
apply_type EventType.transfer_reversed e a = do
  p ← within (append "apply " (type_name e.type)) (unmarshal_transfer_reversed e.payload)
  ok (record a { balance = add64 a.balance p.amount; version = e.version })
apply_type (EventType.other s) e a = err (text (append "unknown event type \"" (append s "\"")))

-- Apply. It returns early on an error, with the receiver as it was.
unfoldable pub apply : Event → Account → Result Account
unfolding apply_type
apply e a = apply_type e.type e a

-- Replay: the error drops what was built so far.
unfoldable pub replay : Account → List Event → Result Account
replay a [] = ok a
replay a (e ∷ events) = do a' ← apply e a; replay a' events

-- OpenAccount; the event is the first of its stream.
unfoldable pub open_account : Stamp → String → String → Result Event
unfolding trim_space
open_account s id owner = do
  fail_if (str_eq (trim_space owner) "") Sentinel.owner_required
  ok (
      new_event s id 1 EventType.account_opened
        (Payload.opened (record { owner = trim_space owner })))

guard : ℤ → Account → Result (Unit {0})
guard amount a = do
  fail_if (str_eq a.id "") Sentinel.account_not_found
  fail_if (not a.is_open) Sentinel.account_closed
  fail_if (leb_ℤ amount (pos 0)) Sentinel.invalid_amount
  fail_if (ltb_ℤ max_operation_amount amount) Sentinel.amount_too_large
  ok tt

unfoldable pub deposit : Stamp → ℤ → String → Account → Result Event
unfolding guard
deposit s amount description a = do
  guard amount a
  ok (
      new_event s a.id (a.version + 1) EventType.money_deposited
        (Payload.deposited (record { amount = amount; description = description })))

unfoldable pub withdraw : Stamp → ℤ → String → Account → Result Event
unfolding guard
withdraw s amount description a = do
  guard amount a
  fail_if (ltb_ℤ a.balance amount) Sentinel.insufficient_funds
  ok (
      new_event s a.id (a.version + 1) EventType.money_withdrawn
        (Payload.withdrawn (record { amount = amount; description = description })))

unfoldable pub debit_transfer : Stamp → String → String → ℤ → Account → Result Event
unfolding guard
debit_transfer s transfer_id to amount a = do
  guard amount a
  fail_if (str_eq a.id to) Sentinel.same_account
  fail_if (ltb_ℤ a.balance amount) Sentinel.insufficient_funds
  ok (
      new_event s a.id (a.version + 1) EventType.transfer_debited
        (Payload.debited (record { transfer_id = transfer_id; to = to; amount = amount })))

unfoldable pub credit_transfer : Stamp → String → String → ℤ → Account → Result Event
unfolding guard
credit_transfer s transfer_id from amount a = do
  guard amount a
  ok (
      new_event s a.id (a.version + 1) EventType.transfer_credited
        (Payload.credited (record { transfer_id = transfer_id; from = from; amount = amount })))

unfoldable pub reverse_transfer : Stamp → String → ℤ → String → Account → Result Event
reverse_transfer s transfer_id amount reason a = do
  fail_if (leb_ℤ amount (pos 0)) Sentinel.invalid_amount
  fail_if (str_eq a.id "") Sentinel.account_not_found
  ok (
      new_event s a.id (a.version + 1) EventType.transfer_reversed
        (Payload.reversed (record { transfer_id = transfer_id; amount = amount; reason = reason })))
