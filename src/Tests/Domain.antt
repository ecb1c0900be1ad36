-- ===== src/Tests/Domain.antt =====
-- The account's theorems at concrete inputs.
use eventledger.Domain.Id.{new_id, is_uuid_v4, new_id-is_uuid_v4}
use eventledger.Prelude.{true, ◌*◌, ◌≡◌, refl, ◌↔◌, arith}
use eventledger.Prelude.Int.{pos}
use eventledger.Domain.Errors.{ok}
use eventledger.Domain.Events.{Payload}
use eventledger.Domain.Account.{apply}
use eventledger.Domain.RoundTrip.{Survives, unmarshal-marshal}
use eventledger.Domain.Decide.{withdraws, debits, decide, after, event_of}
use eventledger.Domain.Rules.{IsAllowed, decide_iff}
use eventledger.Domain.Sound.{IsSound, exact, decide-IsSound}
use eventledger.Tests.Data.{program, stamp, alice}

unmarshal-marshal_example :
    Survives (Payload.deposited (record { amount = pos 5; description = "" }))
unmarshal-marshal_example =
    unmarshal-marshal (Payload.deposited (record { amount = pos 5; description = "" }))
      (omega arith)

decide_iff_example :
    (decide (debits "t" "alice" (pos 30)) (stamp "q") alice
      ≡ ok (event_of (debits "t" "alice" (pos 30)) (stamp "q") alice))
    ↔ IsAllowed (debits "t" "alice" (pos 30)) alice
decide_iff_example = decide_iff (debits "t" "alice" (pos 30)) (stamp "q") alice

decide-IsSound_example :
    (apply (event_of (withdraws (pos 30) "") (stamp "q") alice) alice
      ≡ ok (after (withdraws (pos 30) "") alice))
    × IsSound (after (withdraws (pos 30) "") alice)
    × ((after (withdraws (pos 30) "") alice).balance ≡ exact (withdraws (pos 30) "") (pos 100))
unfolding program
decide-IsSound_example =
    decide-IsSound (withdraws (pos 30) "") (stamp "q") alice (omega arith) tt (omega arith) refl

new_id-is_uuid_v4_example : is_uuid_v4 (new_id (λ i. 255)) ≡ true
new_id-is_uuid_v4_example = new_id-is_uuid_v4 (λ i. 255) (λ i. omega arith)

new_id_text : new_id (λ i. i * 17) ≡ "00112233-4455-4677-8899-aabbccddeeff"
unfolding new_id
new_id_text = refl
