-- ===== src/Tests/Store.antt =====
-- The store in memory: its theorems at concrete inputs.
use eventledger.Prelude.{◌≡◌, refl, ◌≢◌, ◌⊎◌, ◌++◌, [], ◌∷◌, List, length}
use eventledger.Prelude.Int.{pos}
use eventledger.Domain.Errors.{ok, fail, Sentinel}
use eventledger.Domain.Events.{Event}
use eventledger.Domain.Decide.{deposits, event_of}
use eventledger.Eventstore.Port.{IsRecorded}
use eventledger.Eventstore.Memory.{append, new_memory}
use eventledger.Eventstore.Memory.Lock.{IsGrown, append_twice, append_batch, append_leaks}
use eventledger.Eventstore.Memory.Coherent.{IsCoherent, new_memory-IsCoherent, append-IsCoherent}
use eventledger.Tests.Data.{program, stamp, alice, alice_opened, alice_deposit, bank}

abbrev next : Event
next = event_of (deposits (pos 5) "") (stamp "e3") alice

abbrev stray : Event
stray = record next { aggregate_id = "bob" }

append_twice_example :
    append "alice" 2 (next ∷ []) (append "alice" 2 (next ∷ []) bank).1
    ≡ (fail Sentinel.concurrency, (append "alice" 2 (next ∷ []) bank).1)
unfolding program
append_twice_example = append_twice "alice" 2 next [] (next ∷ []) bank refl

append_batch_example :
    ((length (bank.streams "alice") ≡ 2)
      × ((append "alice" 2 (next ∷ []) bank).0 ≡ ok tt)
      × IsGrown "alice" (next ∷ []) bank (append "alice" 2 (next ∷ []) bank).1)
    ⊎ ((length (bank.streams "alice") ≢ 2)
        × (append "alice" 2 (next ∷ []) bank ≡ (fail Sentinel.concurrency, bank)))
unfolding program
append_batch_example = append_batch "alice" 2 (next ∷ []) bank (refl, refl, tt)

append_leaks_example :
    let (r, t) = append "alice" 2 (next ∷ stray ∷ []) bank in
    (r ≡ fail Sentinel.aggregate_mismatch)
    × (t.streams ≡ bank.streams)
    × ((fs : List Event) × (t.log ≡ bank.log ++ fs) × IsRecorded (next ∷ []) fs)
unfolding program
append_leaks_example = append_leaks "alice" (next ∷ []) stray bank (refl, refl, tt) (λ e. cc)

append-IsCoherent_example :
    IsCoherent (append "alice" 0 (alice_opened ∷ alice_deposit ∷ []) new_memory).1
unfolding program
append-IsCoherent_example =
    append-IsCoherent "alice" 0 (alice_opened ∷ alice_deposit ∷ []) new_memory new_memory-IsCoherent
      (refl, refl, (refl, refl, tt))
