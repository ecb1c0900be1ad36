-- ===== src/Tests/App.antt =====
-- A withdrawal that meets another one: its theorems at this input.
use eventledger.Prelude.{ℕ, ◌≡◌, refl, arith, none, Bool-cases, str_eq, inl, inr}
use eventledger.Prelude.Int.{pos, ◌≤ℤ◌}
use eventledger.Domain.Errors.{ok, Result}
use eventledger.Domain.Decide.{Command, withdraws, decide}
use eventledger.Eventstore.Memory.{memory_store}
use eventledger.Eventstore.Memory.Contract.{memory_IsEventStore}
use eventledger.App.{World, Turn, mutate}
use eventledger.App.Extends.{IsLedger, Extends, Fits, quiet-IsTraffic}
use eventledger.App.Loop.{IsTurn}
use eventledger.App.Ledger.{mutate-IsLedger, mutate_never_overdraws, mutate-IsTraffic}
use eventledger.App.Success.{Success, mutate-Success}
use eventledger.Tests.Data.{alice, program, stamp, world, quiet, quiet-IsTurn, world-IsLedger}

-- Another caller withdraws 80 before each append.
abbrev busy : ℕ → Turn memory_store
busy k = record {
  stamp = stamp "b";
  before_append =
      λ w. (mutate memory_store quiet "alice" (λ s a. decide (withdraws (pos 80) "") s a) w).1;
  before_publish = λ w. w;
  during_backoff = λ w. w;
  cancelled = none;
}

busy-IsTurn : (k : ℕ) → IsTurn memory_IsEventStore (busy k)
busy-IsTurn k = record {
  appending =
      mutate-IsTraffic memory_IsEventStore quiet "alice" (withdraws (pos 80) "") quiet-IsTurn tt;
  publishing = quiet-IsTraffic memory_IsEventStore;
  waiting = quiet-IsTraffic memory_IsEventStore;
}

abbrev small : Command
small = withdraws (pos 20) ""

abbrev later : Result (Unit {0}) × World memory_store
later = mutate memory_store busy "alice" (λ s a. decide small s a) world

later-ok : later.0 ≡ ok tt
unfolding program
later-ok = refl

later-Fits : Fits memory_IsEventStore later.1
unfolding program
later-Fits j = elim (Bool-cases (str_eq "alice" j)) [
  | inl p ↦ rw p (omega arith)
  | inr p ↦ rw p (omega arith)
]

mutate-IsLedger_example :
    IsLedger memory_IsEventStore later.1 × Extends memory_IsEventStore world later.1
mutate-IsLedger_example =
    mutate-IsLedger memory_IsEventStore busy "alice" small world busy-IsTurn tt world-IsLedger
      later-Fits

mutate_never_overdraws_example : pos 0 ≤ℤ pos 0
unfolding program
mutate_never_overdraws_example =
    mutate_never_overdraws memory_IsEventStore busy "alice" small world busy-IsTurn tt
      world-IsLedger later-Fits "alice" (record alice { balance = pos 0; version = 4 }) refl

mutate-Success_example : Success memory_IsEventStore busy "alice" small later.1
mutate-Success_example =
    mutate-Success memory_IsEventStore busy "alice" small world busy-IsTurn tt world-IsLedger
      later-Fits later-ok
