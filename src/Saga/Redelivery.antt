-- ===== src/Saga/Redelivery.antt =====
-- What `process` does to a debit that is delivered again, after its credit and after its reversal.
use eventledger.Prelude.{◌<◌, ℕ, ◌≡◌, refl, ap, Bool, String, inl, inr, Option, arith}
use eventledger.Prelude.Int.{ℤ}
use eventledger.Domain.Errors.{Error, Result, ok, err}
use eventledger.Domain.Events.{Event, EventType, Stamp, TransferDebited, unmarshal_transfer_debited}
use eventledger.Domain.Account.{Account}
use eventledger.Domain.Decide.{credits, decide}
use eventledger.Domain.Rules.{IsAllowed, decide_iff}
use eventledger.Eventstore.Memory.{memory_store, has_transfer_event, load}
use eventledger.Eventstore.Memory.Contract.{memory_IsEventStore}
use eventledger.App
use eventledger.App.{World, Turn, mutate}
use eventledger.App.Extends.{IsLedger}
use eventledger.App.Undisturbed.{mutate_undisturbed}
use eventledger.Saga.{Commands, Attempt, completed, credit_from, call_credit, process}
use eventledger.Saga.Tally.{
  credits_of, reversals_of, undisturbed, mentions_of_count, mentions_of_pos,
}
use eventledger.Saga.Attempts.{alone, credit-Added}

-- While nobody else runs, the work of the saga on a debit with a readable payload, whose transfer
-- has a credit already, reports success and changes nothing.
pub process_again :
    (stamps : ℕ → ℕ → Stamp) (cancelled : ℕ → ℕ → Option Error) (done : ℕ → Bool) (last : ℕ → Stamp)
    (last_cancelled : ℕ → Option Error) (e : Event) (p : TransferDebited) (w : World memory_store)
    → unmarshal_transfer_debited e.payload ≡ ok p
    → 0 < credits_of p.transfer_id w
    → process (alone stamps cancelled done) (undisturbed last last_cancelled) e w ≡ (completed, w)
unfolding process credit_from App.credit_transfer has_transfer_event
process_again stamps cancelled done last last_cancelled e p w decoded once_credited =
    rw (decoded, process)
      (rw (mentions_of_pos EventType.transfer_credited p.transfer_id w.store.log once_credited)
        refl)

pub credit_accepted :
    (stamps : ℕ → Stamp) (cancelled : ℕ → Option Error) (to t from : String) (x : ℤ)
    (w : World memory_store) (a : Account)
    → IsLedger memory_IsEventStore w
    → credits_of t w ≡ 0
    → load to w.store ≡ ok a
    → IsAllowed (credits t from x) a
    → ((undisturbed stamps cancelled).credit_transfer to t from x w).0 ≡ ok tt
unfolding App.credit_transfer has_transfer_event decide
credit_accepted stamps cancelled to t from x w a h none_yet loaded allowed =
    rw (mentions_of_count EventType.transfer_credited t w.store.log none_yet) (
      rw (mutate_undisturbed stamps cancelled to (credits t from x) w h)
        (rw loaded (rw ((decide_iff (credits t from x) (stamps 0) a).1 allowed))))

pub process_credited :
    (attempts : ℕ → Attempt (World memory_store)) (c : Commands (World memory_store)) (e : Event)
    (p : TransferDebited) (w : World memory_store) (r : Result (Unit {0}) × World memory_store)
    → unmarshal_transfer_debited e.payload ≡ ok p
    → call_credit (attempts 0) p e.aggregate_id w ≡ r
    → r.0 ≡ ok tt
    → process attempts c e w ≡ (completed, r.1)
unfolding process credit_from
process_credited attempts c e p w (ok u, v) decoded call done = rw (decoded, process) (rw call)
process_credited attempts c e p w (err x, v) decoded call done = absurd (cc)

-- On a ledger in order that nobody else changes meanwhile, the work of the saga on a debit with a
-- readable payload, whose transfer has no credit but a reversal, credits the destination wherever
-- that can be loaded and takes the amount: the transfer then has both a credit and a reversal.
pub process_after_reversal :
    (stamps : ℕ → ℕ → Stamp) (cancelled : ℕ → ℕ → Option Error) (done : ℕ → Bool) (last : ℕ → Stamp)
    (last_cancelled : ℕ → Option Error) (e : Event) (p : TransferDebited) (w : World memory_store)
    (a : Account)
    → IsLedger memory_IsEventStore w
    → unmarshal_transfer_debited e.payload ≡ ok p
    → credits_of p.transfer_id w ≡ 0
    → 0 < reversals_of p.transfer_id w
    → load p.to w.store ≡ ok a
    → IsAllowed (credits p.transfer_id e.aggregate_id p.amount) a
    → let (r, v) = process (alone stamps cancelled done) (undisturbed last last_cancelled) e w in
      (r ≡ completed) × (credits_of p.transfer_id v ≡ 1) × (0 < reversals_of p.transfer_id v)
process_after_reversal stamps cancelled done last last_cancelled e p w a h decoded no_credit
      reversed_before loaded allowed =
    let accepted =
      credit_accepted (stamps 0) (cancelled 0) p.to p.transfer_id e.aggregate_id p.amount w a h
        no_credit loaded allowed in
    rw
      (process_credited (alone stamps cancelled done) (undisturbed last last_cancelled) e p w _
        decoded refl accepted)
      (elim (credit-Added (stamps 0) (cancelled 0) w h p.to p.transfer_id e.aggregate_id p.amount
        no_credit) [
          | inl (x, q) ↦ absurd (cc (accepted, ap (λ s. s.0) q))
          | inr (q, c, r) ↦ (refl, omega arith, omega arith)
        ])
