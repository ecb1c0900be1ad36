-- ===== src/Tests/Saga.antt =====
-- A transfer of 30 cents from bob to alice, open or reversed before: the theorems on the saga at these
-- inputs.
use eventledger.Prelude.{
  true, suc, zero, ◌⊎◌, [], ℕ, ◌≡◌, refl, arith, none, ◌<◌, inl, inr, false, Bool-cases, str_eq,
  Option, eq_iff,
}
use eventledger.Prelude.Int.{pos}
use eventledger.Domain.Errors.{Error, ◌>>=◌}
use eventledger.Domain.Events.{Event, EventType, Payload, Stamp, TransferDebited, new_event}
use eventledger.Domain.Account.{Account}
use eventledger.Domain.Decide.{debits, reverses, decide}
use eventledger.Eventstore.Memory.{memory_store, load}
use eventledger.Eventstore.Memory.Contract.{memory_IsEventStore}
use eventledger.App.{World, mutate}
use eventledger.App.Extends.{IsLedger, Fits}
use eventledger.App.Undisturbed.{still, concluded, mutate_undisturbed}
use eventledger.App.Ledger.{mutate-IsLedger}
use eventledger.Saga.{Outcome, completed, process, credit_from}
use eventledger.Saga.Tally.{credits_of, reversals_of, undisturbed, count}
use eventledger.Saga.Attempts.{alone}
use eventledger.Saga.Once.{Settles, process-Settles}
use eventledger.Saga.Redelivery.{process_again, process_after_reversal}
use eventledger.Saga.Twice.{beside, process_twice}
use eventledger.Saga.Workers.{
  Pool, absent, exited, new_pool, enqueue, start_workers, receive, finish_process, exit_worker,
  Reaches, done, next, starts, handles, receives, finishes, closes, exits,
}
use eventledger.Saga.Workers.Finished.{IsIn, Reaches_finished}
use eventledger.Tests.Data.{alice, program, stamp, world, quiet, quiet-IsTurn, world-IsLedger}

abbrev stamps : ℕ → Stamp
stamps k = stamp "e9"

abbrev calm : ℕ → Option Error
calm k = none

abbrev transfer : TransferDebited
transfer = record { transfer_id = "t1"; to = "alice"; amount = pos 30 }

abbrev debit : Event
debit = new_event (stamp "e3") "bob" 4 EventType.transfer_debited (Payload.debited transfer)

abbrev outcome : World memory_store → Outcome × World memory_store
outcome w = process (alone (λ k. stamps) (λ k. calm) (λ k. false)) (undisturbed stamps calm) debit w

mutate_undisturbed_example :
    mutate memory_store
      (λ k. still (stamps k) (calm k))
      "alice"
      (λ s a. decide (debits "t9" "bob" (pos 40)) s a)
      world
    ≡ concluded "alice" world
        (load "alice" world.store >>= λ a. decide (debits "t9" "bob" (pos 40)) (stamps 0) a)
mutate_undisturbed_example =
    mutate_undisturbed stamps calm "alice" (debits "t9" "bob" (pos 40)) world world-IsLedger

process-Settles_example : Settles "t1" world (outcome world)
unfolding program count
process-Settles_example =
    process-Settles (λ k. stamps) (λ k. calm) (λ k. false) stamps calm debit transfer world
      world-IsLedger refl refl refl

abbrev settled : World memory_store
settled = (outcome world).1

process_again_example : outcome settled ≡ (completed, settled)
unfolding program count process credit_from
process_again_example =
    process_again (λ k. stamps) (λ k. calm) (λ k. false) stamps calm debit transfer settled refl
      (omega arith)

-- The world after a reversal of the transfer, to its source alice.
abbrev reversed : World memory_store
reversed =
    (mutate memory_store quiet "alice" (λ s a. decide (reverses "t1" (pos 30) "late") s a) world).1

reversed-Fits : Fits memory_IsEventStore reversed
unfolding program
reversed-Fits j = elim (Bool-cases (str_eq "alice" j)) [
  | inl p ↦ rw p (omega arith)
  | inr p ↦ rw p (omega arith)
]

reversed-IsLedger : IsLedger memory_IsEventStore reversed
reversed-IsLedger =
    (mutate-IsLedger memory_IsEventStore quiet "alice" (reverses "t1" (pos 30) "late") world
      quiet-IsTurn (omega arith) world-IsLedger reversed-Fits).0

abbrev richer : Account
richer = record alice { balance = pos 130; version = 3 }

process_after_reversal_example :
    let (r, v) = outcome reversed in
    (r ≡ completed) × (credits_of "t1" v ≡ 1) × (0 < reversals_of "t1" v)
unfolding program count
process_after_reversal_example =
    process_after_reversal (λ k. stamps) (λ k. calm) (λ k. false) stamps calm debit transfer
      reversed richer reversed-IsLedger refl refl (omega arith) refl
      (ground (arith, eq_iff "alice" ""), omega arith, (refl, omega arith))

settled-Fits : Fits memory_IsEventStore settled
unfolding program count process credit_from
settled-Fits j = elim (Bool-cases (str_eq "alice" j)) [
  | inl p ↦ rw p (omega arith)
  | inr p ↦ rw p (omega arith)
]

process_twice_example :
    let (r, v) =
      process
        (beside (λ w. (outcome w).1) (λ k. stamps) (λ k. calm) (λ k. false))
        (undisturbed stamps calm)
        debit
        world in
    (r ≡ completed) × (credits_of "t1" v ≡ 2)
unfolding program count
process_twice_example =
    process_twice (λ k. stamps) (λ k. stamps) (λ k. calm) (λ k. calm) (λ k. false) (λ k. false)
      stamps calm debit transfer world alice world-IsLedger refl refl refl
      (ground (arith, eq_iff "alice" ""), omega arith, (refl, omega arith)) settled-Fits

-- Two workers, of which the first one takes the debit.
abbrev busy : Pool
busy = receive 0 debit [] (enqueue debit (start_workers 2 new_pool))

abbrev over : Pool
over = exit_worker 1 (exit_worker 0 (record (finish_process 0 debit busy) { is_closed = true }))

to_over : Reaches 2 1024 new_pool over
unfolding program
to_over =
    next
      (next
        (next
          (next
            (next (next (next done (starts (λ i. refl))) (handles debit refl refl (omega arith)))
              (receives 0 debit [] refl refl))
            (finishes 0 debit refl))
          closes)
        (exits 0 refl refl refl))
      (exits 1 refl refl refl)

over-ended : (i : ℕ) → (over.workers i ≡ exited) ⊎ (over.workers i ≡ absent)
over-ended zero = inl refl
over-ended (suc zero) = inl refl
over-ended (suc (suc i)) = inr (ground arith)

Reaches_finished_example :
    (over.queued ≡ over.taken) × ((e : Event) → IsIn e over.queued → IsIn e over.finished)
Reaches_finished_example = Reaches_finished 2 1024 to_over over-ended refl
