-- ===== src/Domain/Rules.antt =====
-- Which commands internal/domain/account.go accepts, stated apart from the order of its tests, and
-- the errors with which it refuses the others.
use eventledger.Prelude.{◌≡◌, ◌≢◌, ◌↔◌, ◌⊎◌, true, arith, eq_iff}
use eventledger.Prelude.Int.{pos, ◌≤ℤ◌}
use eventledger.Domain.Errors.{Sentinel, Error, ok, err, sentinel}
use eventledger.Domain.Events.{Event, Stamp}
use eventledger.Domain.Account.{
  Account, max_operation_amount, deposit, withdraw, debit_transfer, credit_transfer,
  reverse_transfer,
}
use eventledger.Domain.Decide.{
  Command, deposits, withdraws, debits, credits, reverses, decide, amount_of, event_of,
}

-- An open account takes amounts up to the limit; what leaves it is covered, and a transfer goes to
-- another account. A reversal needs none of this.
abbrev pub Rules : Command → Account → Type 0
Rules (deposits amount description) a = (a.is_open ≡ true) × (amount ≤ℤ max_operation_amount)
Rules (withdraws amount description) a =
    (a.is_open ≡ true) × (amount ≤ℤ max_operation_amount) × (amount ≤ℤ a.balance)
Rules (debits t to amount) a =
    (a.is_open ≡ true) × (amount ≤ℤ max_operation_amount) × (amount ≤ℤ a.balance) × (a.id ≢ to)
Rules (credits t from amount) a = (a.is_open ≡ true) × (amount ≤ℤ max_operation_amount)
Rules (reverses t amount reason) a = Unit {0}

abbrev pub IsAllowed : Command → Account → Type 0
IsAllowed c a = (a.id ≢ "") × (pos 1 ≤ℤ amount_of c) × Rules c a

pub decide-IsAllowed :
    (c : Command) (s : Stamp) (a : Account) {e : Event} → decide c s a ≡ ok e → IsAllowed c a
unfolding decide deposit withdraw debit_transfer credit_transfer reverse_transfer
decide-IsAllowed (deposits amount description) s a d = ground (arith, eq_iff a.id "")
decide-IsAllowed (withdraws amount description) s a d = ground (arith, eq_iff a.id "")
decide-IsAllowed (debits t to amount) s a d = ground (arith, eq_iff a.id "", eq_iff a.id to)
decide-IsAllowed (credits t from amount) s a d = ground (arith, eq_iff a.id "")
decide-IsAllowed (reverses t amount reason) s a d = ground (arith, eq_iff a.id "")

IsAllowed-decide :
    (c : Command) (s : Stamp) (a : Account) → IsAllowed c a → decide c s a ≡ ok (event_of c s a)
unfolding decide deposit withdraw debit_transfer credit_transfer reverse_transfer
IsAllowed-decide (deposits amount description) s a h = ground (arith, eq_iff a.id "")
IsAllowed-decide (withdraws amount description) s a h = ground (arith, eq_iff a.id "")
IsAllowed-decide (debits t to amount) s a h = ground (arith, eq_iff a.id "", eq_iff a.id to)
IsAllowed-decide (credits t from amount) s a h = ground (arith, eq_iff a.id "")
IsAllowed-decide (reverses t amount reason) s a h = ground (arith, eq_iff a.id "")

-- A command yields its event, the next one of the account, exactly when the account exists, the
-- amount is positive and the rules of the command hold.
pub decide_iff :
    (c : Command) (s : Stamp) (a : Account) → (decide c s a ≡ ok (event_of c s a)) ↔ IsAllowed c a
decide_iff c s a = (decide-IsAllowed c s a, IsAllowed-decide c s a)

-- What a command may be refused with.
abbrev pub IsRefusal : Error → Type 0
IsRefusal e =
    (e ≡ sentinel Sentinel.account_not_found)
    ⊎ (e ≡ sentinel Sentinel.account_closed)
    ⊎ (e ≡ sentinel Sentinel.invalid_amount)
    ⊎ (e ≡ sentinel Sentinel.amount_too_large)
    ⊎ (e ≡ sentinel Sentinel.insufficient_funds)
    ⊎ (e ≡ sentinel Sentinel.same_account)

-- Whatever error a command is refused with, it is one of six business errors: account not found,
-- account closed, invalid amount, amount too large, insufficient funds, or same account.
pub decide-IsRefusal :
    (c : Command) (s : Stamp) (a : Account) {e : Error} → decide c s a ≡ err e → IsRefusal e
unfolding decide deposit withdraw debit_transfer credit_transfer reverse_transfer
decide-IsRefusal (deposits amount description) s a d = ground arith
decide-IsRefusal (withdraws amount description) s a d = ground arith
decide-IsRefusal (debits t to amount) s a d = ground arith
decide-IsRefusal (credits t from amount) s a d = ground arith
decide-IsRefusal (reverses t amount reason) s a d = ground arith
