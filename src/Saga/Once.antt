-- ===== src/Saga/Once.antt =====
-- `process` of internal/saga/transfer.go on a transfer that has no outcome yet, while nobody else runs.
use eventledger.Prelude.{ℕ, ◌≡◌, refl, ap, Bool, String, inl, inr, Option, arith}
use eventledger.Domain.Errors.{Error, Result, ok, err, message}
use eventledger.Domain.Events.{Event, Stamp, TransferDebited, unmarshal_transfer_debited}
use eventledger.Eventstore.Memory.{memory_store}
use eventledger.Eventstore.Memory.Contract.{memory_IsEventStore}
use eventledger.App.{World}
use eventledger.App.Extends.{IsLedger}
use eventledger.Saga.{
  Outcome, Credit, credited, interrupted, given_up, bad_payload, completed, abandoned, compensated,
  stuck, compensate, reversal, process,
}
use eventledger.Saga.Tally.{credits_of, reversals_of, undisturbed, Added}
use eventledger.Saga.Attempts.{Tried, alone, reverse-Added, credit_from-Tried}

-- What `process` has done to a transfer without an outcome, by how it ended.
abbrev pub Settles : String → World memory_store → Outcome × World memory_store → Type 0
Settles t w (completed, v) = (credits_of t v ≡ 1) × (reversals_of t v ≡ 0)
Settles t w (compensated x, v) = (credits_of t v ≡ 0) × (reversals_of t v ≡ 1)
Settles t w (bad_payload, v) = v ≡ w
Settles t w (abandoned, v) = v ≡ w
Settles t w (stuck x y, v) = v ≡ w

module _ (p : TransferDebited) (from : String) (w : World memory_store)
    (h : IsLedger memory_IsEventStore w) (no_credit : credits_of p.transfer_id w ≡ 0)
    (no_reversal : reversals_of p.transfer_id w ≡ 0) (stamps : ℕ → Stamp)
    (cancelled : ℕ → Option Error) where
  reversal-Settles :
      (x : Error) (r : Result (Unit {0}) × World memory_store)
      → Added p.transfer_id 0 1 w r
      → Settles p.transfer_id w (reversal x r)
  reversal-Settles x (ok u, v) (inl (y, e)) = absurd (cc (ap (λ q. q.0) e))
  reversal-Settles x (ok u, v) (inr (e, c, r)) = (omega arith, omega arith)
  reversal-Settles x (err y, v) (inl (z, e)) = ap (λ q. q.1) e
  reversal-Settles x (err y, v) (inr (e, c, r)) = absurd (cc)

  compensate-Settles :
      (q : Credit × World memory_store)
      → Tried p.transfer_id w q
      → Settles p.transfer_id w (compensate (undisturbed stamps cancelled) p from q)
  compensate-Settles (credited, v) (inl (e, c, r)) = (omega arith, omega arith)
  compensate-Settles (credited, v) (inr (ne, e)) = absurd (ne refl)
  compensate-Settles (interrupted, v) (inl (e, c, r)) = absurd (cc)
  compensate-Settles (interrupted, v) (inr (ne, e)) = e
  compensate-Settles (given_up x, v) (inl (e, c, r)) = absurd (cc)
  compensate-Settles (given_up x, v) (inr (ne, e)) = rw e (
      reversal-Settles x _
        (reverse-Added stamps cancelled w h from p.transfer_id p.amount (message x) no_reversal))

-- On a ledger in order that nobody else changes meanwhile, the work of the saga on a debit with a
-- readable payload, whose transfer has neither a credit nor a reversal yet, ends with one credit
-- and no reversal, or with one reversal and no credit, or with nothing changed.
pub process-Settles :
    (stamps : ℕ → ℕ → Stamp) (cancelled : ℕ → ℕ → Option Error) (done : ℕ → Bool) (last : ℕ → Stamp)
    (last_cancelled : ℕ → Option Error) (e : Event) (p : TransferDebited) (w : World memory_store)
    → IsLedger memory_IsEventStore w
    → unmarshal_transfer_debited e.payload ≡ ok p
    → credits_of p.transfer_id w ≡ 0
    → reversals_of p.transfer_id w ≡ 0
    → Settles p.transfer_id w
        (process (alone stamps cancelled done) (undisturbed last last_cancelled) e w)
unfolding process
process-Settles stamps cancelled done last last_cancelled e p w h decoded no_credit no_reversal =
    rw (decoded, process)
      (compensate-Settles p e.aggregate_id w h no_credit no_reversal last last_cancelled _
        (credit_from-Tried p e.aggregate_id w h no_credit 2 stamps cancelled done))
