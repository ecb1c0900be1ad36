-- ===== src/Domain/Decide.antt =====
-- The five decisions of an account as one function of a command, as internal/app/app.go hands them
-- to `mutate`, and what the event of each does when it is applied.
use eventledger.Prelude.{◌+◌, Bool, true, false, ◌≡◌, String, arith, if◌then◌else◌}
use eventledger.Prelude.Int.{ℤ, add64, sub64, IsInt64}
use eventledger.Domain.Errors.{Result, ok}
use eventledger.Domain.Events.{Event, EventType, Payload, Stamp, new_event}
use eventledger.Domain.Account.{
  Account, apply, deposit, withdraw, debit_transfer, credit_transfer, reverse_transfer,
}
use eventledger.Domain.RoundTrip.{unmarshal-marshal}

-- What the closures of app.go capture.
pub data Command : Type 0 where
  deposits withdraws : ℤ → String → Command
  debits credits : String → String → ℤ → Command
  reverses : String → ℤ → String → Command

unfoldable pub decide : Command → Stamp → Account → Result Event
decide (deposits amount description) s a = deposit s amount description a
decide (withdraws amount description) s a = withdraw s amount description a
decide (debits transfer_id to amount) s a = debit_transfer s transfer_id to amount a
decide (credits transfer_id from amount) s a = credit_transfer s transfer_id from amount a
decide (reverses transfer_id amount reason) s a = reverse_transfer s transfer_id amount reason a

abbrev pub amount_of : Command → ℤ
amount_of (deposits amount description) = amount
amount_of (withdraws amount description) = amount
amount_of (debits transfer_id to amount) = amount
amount_of (credits transfer_id from amount) = amount
amount_of (reverses transfer_id amount reason) = amount

-- Withdrawals and debits take money out.
abbrev pub takes_out : Command → Bool
takes_out (withdraws amount description) = true
takes_out (debits transfer_id to amount) = true
takes_out c = false

-- The state that a command aims at.
abbrev pub after : Command → Account → Account
after c a = record a {
  balance = if takes_out c then sub64 a.balance (amount_of c) else add64 a.balance (amount_of c);
  version = a.version + 1;
}

abbrev pub type_of : Command → EventType
type_of (deposits amount description) = EventType.money_deposited
type_of (withdraws amount description) = EventType.money_withdrawn
type_of (debits transfer_id to amount) = EventType.transfer_debited
type_of (credits transfer_id from amount) = EventType.transfer_credited
type_of (reverses transfer_id amount reason) = EventType.transfer_reversed

abbrev pub payload_of : Command → Payload
payload_of (deposits x d) = Payload.deposited (record { amount = x; description = d })
payload_of (withdraws x d) = Payload.withdrawn (record { amount = x; description = d })
payload_of (debits t to x) = Payload.debited (record { transfer_id = t; to = to; amount = x })
payload_of (credits t from x) =
    Payload.credited (record { transfer_id = t; from = from; amount = x })
payload_of (reverses t x r) = Payload.reversed (record { transfer_id = t; amount = x; reason = r })

-- The event that a command amounts to: the next one of its account.
abbrev pub event_of : Command → Stamp → Account → Event
event_of c s a = new_event s a.id (a.version + 1) (type_of c) (payload_of c)

-- A decision that is not refused is that event.
pub decide-event_of :
    (c : Command) (s : Stamp) (a : Account) {e : Event} → decide c s a ≡ ok e → e ≡ event_of c s a
unfolding decide deposit withdraw debit_transfer credit_transfer reverse_transfer
decide-event_of (deposits amount description) s a d = ground arith
decide-event_of (withdraws amount description) s a d = ground arith
decide-event_of (debits t to amount) s a d = ground arith
decide-event_of (credits t from amount) s a d = ground arith
decide-event_of (reverses t amount reason) s a d = ground arith

apply-event_of :
    (c : Command) (s : Stamp) (a : Account)
    → IsInt64 (amount_of c)
    → apply (event_of c s a) a ≡ ok (after c a)
unfolding apply new_event
apply-event_of (deposits x d) s a h = rw (unmarshal-marshal (payload_of (deposits x d)) h)
apply-event_of (withdraws x d) s a h = rw (unmarshal-marshal (payload_of (withdraws x d)) h)
apply-event_of (debits t to x) s a h = rw (unmarshal-marshal (payload_of (debits t to x)) h)
apply-event_of (credits t from x) s a h = rw (unmarshal-marshal (payload_of (credits t from x)) h)
apply-event_of (reverses t x r) s a h = rw (unmarshal-marshal (payload_of (reverses t x r)) h)

-- An event that a command decides on, applied to the account that it was decided for, moves the
-- balance by the amount of the command (in int64 arithmetic), counts one version, and changes
-- nothing else. The amount is an int64.
pub decide-apply :
    (c : Command) (s : Stamp) (a : Account) {e : Event}
    → IsInt64 (amount_of c)
    → decide c s a ≡ ok e
    → apply e a ≡ ok (after c a)
decide-apply c s a h d = rw (decide-event_of c s a d) (apply-event_of c s a h)
