-- ===== src/Tests/Pipeline.antt =====
-- Transfers of bob to an account that does not exist, with the sizes of main.go: the theorem on the
-- pipeline at this input.
use Prim.Native.String.count
use Prim.Native.String.{count}
use Prim.Native.Char.{Char}
use eventledger.Prelude.{ℕ, zero, suc, ◌+◌, String}
use eventledger.Prelude.Int.{pos}
use eventledger.Domain.Events.{Event, EventType, Payload, TransferDebited, new_event}
use eventledger.Pipeline.{Pipeline}
use eventledger.Pipeline.Flood.{Flood}
use eventledger.Tests.Data.{stamp}

abbrev hash : String → ℕ
hash id = 13

-- So many marks, after a letter.
unfoldable tally : ℕ → String
tally zero = ""
tally (suc k) = String.◌∷◌ "x" (tally k)

abbrev name : Char → ℕ → String
name c k = String.◌∷◌ c (tally k)

abbrev letter_r : Char
letter_r = "r"

abbrev letter_d : Char
letter_d = "d"

-- The first character, if there is one.
abbrev first : Char → String → Char
first c String.[] = c
first c (String.◌∷◌ d s) = d

abbrev transfer : ℕ → TransferDebited
transfer k = record { transfer_id = name "t" k; to = "nobody"; amount = pos 30 }

abbrev debit : ℕ → Event
debit k =
    new_event (stamp (name "d" k)) "bob" (3 + k) EventType.transfer_debited
      (Payload.debited (transfer k))

abbrev reversal : ℕ → Event
reversal k = new_event (stamp (name "r" k)) "bob" (3 + 2053 + k) EventType.transfer_reversed (
    Payload.reversed
      (record { transfer_id = name "t" k; amount = pos 30; reason = "account not found" }))
