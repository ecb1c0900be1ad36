-- ===== src/Saga.antt =====
-- internal/saga/transfer.go: the orchestration of a transfer after its debit. Handle and CatchUp put
-- debits into a queue, and workers take them out; one worker's work on one debit is `process`.
pub mod Tally
pub mod Attempts
pub mod Once
pub mod Redelivery
pub mod Twice
pub mod Workers
use eventledger.Prelude.{
  ℕ, ◌-◌, zero, suc, Bool, true, false, ◌||◌, String, List, [], ◌∷◌, ◌++◌, if◌then◌else◌,
}
use eventledger.Prelude.Int.{ℤ}
use eventledger.Domain.Errors.{Sentinel, Error, Result, ok, err, is, message, ◌>>=◌}
use eventledger.Domain.Events.{
  Event, EventType, TransferDebited, type_eq, unmarshal_transfer_debited,
}

-- The interface Commands, on the world that its calls change. Two calls of the same command may meet
-- different steps of others, so each call that `process` makes has its own value of this record.
pub record Commands (W : Type 0) : Type 0 where
  pub credit_transfer : String → String → String → ℤ → W → Result (Unit {0}) × W
  pub reverse_transfer : String → String → ℤ → String → W → Result (Unit {0}) × W

-- creditRetries
abbrev pub credit_retries : ℕ
credit_retries = 3

abbrev pub is_business_error : Error → Bool
is_business_error e =
    is e Sentinel.account_not_found
    || is e Sentinel.account_closed
    || is e Sentinel.invalid_amount
    || is e Sentinel.amount_too_large

-- Handle on the queue of the saga, while there is room in it or the context is not done: the queue is
-- a channel of 1024, and a full one makes the caller wait.
unfoldable pub handle : Bool → Event → List Event → List Event
handle done e queue =
    if type_eq e.type EventType.transfer_debited
    then (if done then queue else queue ++ e ∷ [])
    else queue

-- The loop of CatchUp over the pending debits, on a world that has the queue. A send waits until there
-- is room; `others` are the steps of others after each send.
unfoldable pub enqueue_all : {W : Type 0} → (Event → W → W) → (ℕ → W → W) → List Event → W → W
enqueue_all put others [] w = w
enqueue_all put others (e ∷ pending) w =
    enqueue_all put (λ k. others (suc k)) pending (others 0 (put e w))

-- CatchUp, with the query for the pending debits.
unfoldable pub catch_up :
    {W : Type 0}
    → (W → Result (List Event))
    → (Event → W → W)
    → (ℕ → W → W)
    → W
    → Result (Unit {0}) × W
catch_up query put others w = elim (query w) [
  | ok pending ↦ (ok tt, enqueue_all put others pending w)
  | err x ↦ (err x, w)
]

-- What one attempt to credit meets: its command, the steps of others during the back-off, and whether
-- the context is done by then.
pub record Attempt (W : Type 0) : Type 0 where
  pub commands : Commands W
  pub during_backoff : W → W
  pub done : Bool

-- How the loop over the attempts ends.
pub data Credit : Type 0 where
  credited interrupted : Credit
  given_up : Error → Credit

-- How `process` ends: the lines that it logs.
pub data Outcome : Type 0 where
  bad_payload completed abandoned : Outcome
  compensated : Error → Outcome
  stuck : Error → Error → Outcome

module _ {W : Type 0} where
  abbrev pub call_credit : Attempt W → TransferDebited → String → W → Result (Unit {0}) × W
  call_credit t p from = t.commands.credit_transfer p.to p.transfer_id from p.amount

  -- What follows a call that failed; `rest` is the loop from the next attempt on.
  abbrev pub after_failure : Attempt W → (Error → W → Credit × W) → Error → W → Credit × W
  after_failure t rest x w =
      if is_business_error x
      then (given_up x, w)
      else if t.done
      then (interrupted, t.during_backoff w)
      else rest x (t.during_backoff w)

  abbrev pub after_call : Attempt W → (Error → W → Credit × W) → Result (Unit {0}) × W → Credit × W
  after_call t rest (ok u, w) = (credited, w)
  after_call t rest (err x, w) = after_failure t rest x w

  -- The loop, with the number of attempts that are left after the next one. The last attempt's
  -- failure ends it, after its back-off.
  unfoldable pub credit_from : ℕ → (ℕ → Attempt W) → TransferDebited → String → W → Credit × W
  credit_from zero attempts p from w =
      after_call (attempts 0) (λ x v. (given_up x, v)) (call_credit (attempts 0) p from w)
  credit_from (suc left) attempts p from w =
      after_call (attempts 0) (λ x v. credit_from left (λ k. attempts (suc k)) p from v)
        (call_credit (attempts 0) p from w)

  abbrev pub reversal : Error → Result (Unit {0}) × W → Outcome × W
  reversal x (ok u, w) = (compensated x, w)
  reversal x (err y, w) = (stuck x y, w)

  -- What follows the loop.
  abbrev pub compensate : Commands W → TransferDebited → String → Credit × W → Outcome × W
  compensate c p from (credited, w) = (completed, w)
  compensate c p from (interrupted, w) = (abandoned, w)
  compensate c p from (given_up x, w) =
      reversal x (c.reverse_transfer from p.transfer_id p.amount (message x) w)

  -- process; `c` is the command of the reversal.
  unfoldable pub process : (ℕ → Attempt W) → Commands W → Event → W → Outcome × W
  process attempts c e w = elim (unmarshal_transfer_debited e.payload) [
    | err x ↦ (bad_payload, w)
    | ok p ↦
        compensate c p e.aggregate_id (credit_from (credit_retries - 1) attempts p e.aggregate_id w)
  ]
