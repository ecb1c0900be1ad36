-- ===== src/Domain/Events.antt =====
-- internal/domain/events.go: the event types, the envelope, and the payloads with their JSON form.
use eventledger.Prelude.{ℕ, Bool, String, [], ◌∷◌, str_eq}
use eventledger.Prelude.Int.{ℤ}
use eventledger.Domain.Errors.{Result, ok, ◌>>=◌}
use eventledger.Domain.Json.{RawMessage, object, str, num, string_field, int64_field, omit_empty}

-- EventType is a string. The six constants, and `other` for a string that is none of them.
pub data EventType : Type 0 where
  account_opened money_deposited money_withdrawn : EventType
  transfer_debited transfer_credited transfer_reversed : EventType
  other : String → EventType

abbrev pub type_name : EventType → String
type_name account_opened = "account.opened"
type_name money_deposited = "money.deposited"
type_name money_withdrawn = "money.withdrawn"
type_name transfer_debited = "transfer.debited"
type_name transfer_credited = "transfer.credited"
type_name transfer_reversed = "transfer.reversed"
type_name (other s) = s

-- `==` on event types is that of the strings.
unfoldable pub type_eq : EventType → EventType → Bool
type_eq t u = str_eq (type_name t) (type_name u)

-- The envelope. `payload` is the field Data; the time is an instant in nanoseconds; `version` and
-- `seq` count stored events from 1.
pub record Event : Type 0 where
  pub id : String
  pub aggregate_id : String
  pub version : ℕ
  pub type : EventType
  pub payload : RawMessage
  pub occurred_at : ℕ
  pub seq : ℕ

pub record AccountOpened : Type 0 where
  pub owner : String

pub record MoneyDeposited : Type 0 where
  pub amount : ℤ
  pub description : String

pub record MoneyWithdrawn : Type 0 where
  pub amount : ℤ
  pub description : String

pub record TransferDebited : Type 0 where
  pub transfer_id : String
  pub to : String
  pub amount : ℤ

pub record TransferCredited : Type 0 where
  pub transfer_id : String
  pub from : String
  pub amount : ℤ

pub record TransferReversed : Type 0 where
  pub transfer_id : String
  pub amount : ℤ
  pub reason : String

-- The structs that are handed to NewEvent.
pub data Payload : Type 0 where
  opened : AccountOpened → Payload
  deposited : MoneyDeposited → Payload
  withdrawn : MoneyWithdrawn → Payload
  debited : TransferDebited → Payload
  credited : TransferCredited → Payload
  reversed : TransferReversed → Payload

-- `json.Marshal`, which cannot fail on these structs.
unfoldable pub marshal : Payload → RawMessage
marshal (opened p) = object (("owner", str p.owner) ∷ [])
marshal (deposited p) = object (("amount", num p.amount) ∷ omit_empty "description" p.description)
marshal (withdrawn p) = object (("amount", num p.amount) ∷ omit_empty "description" p.description)
marshal (debited p) =
    object (("transfer_id", str p.transfer_id) ∷ ("to", str p.to) ∷ ("amount", num p.amount) ∷ [])
marshal (credited p) =
    object
      (("transfer_id", str p.transfer_id) ∷ ("from", str p.from) ∷ ("amount", num p.amount) ∷ [])
marshal (reversed p) =
    object (
      ("transfer_id", str p.transfer_id) ∷ ("amount", num p.amount) ∷ ("reason", str p.reason) ∷ [])

-- `json.Unmarshal(e.Data, &p)` for a variable `p` of each struct.
unfoldable pub unmarshal_account_opened : RawMessage → Result AccountOpened
unmarshal_account_opened m = do owner ← string_field "owner" m; ok (record { owner = owner })

unfoldable pub unmarshal_money_deposited : RawMessage → Result MoneyDeposited
unmarshal_money_deposited m = do
  amount ← int64_field "amount" m
  description ← string_field "description" m
  ok (record { amount = amount; description = description })

unfoldable pub unmarshal_money_withdrawn : RawMessage → Result MoneyWithdrawn
unmarshal_money_withdrawn m = do
  amount ← int64_field "amount" m
  description ← string_field "description" m
  ok (record { amount = amount; description = description })

unfoldable pub unmarshal_transfer_debited : RawMessage → Result TransferDebited
unmarshal_transfer_debited m = do
  transfer_id ← string_field "transfer_id" m
  to ← string_field "to" m
  amount ← int64_field "amount" m
  ok (record { transfer_id = transfer_id; to = to; amount = amount })

unfoldable pub unmarshal_transfer_credited : RawMessage → Result TransferCredited
unmarshal_transfer_credited m = do
  transfer_id ← string_field "transfer_id" m
  from ← string_field "from" m
  amount ← int64_field "amount" m
  ok (record { transfer_id = transfer_id; from = from; amount = amount })

unfoldable pub unmarshal_transfer_reversed : RawMessage → Result TransferReversed
unmarshal_transfer_reversed m = do
  transfer_id ← string_field "transfer_id" m
  amount ← int64_field "amount" m
  reason ← string_field "reason" m
  ok (record { transfer_id = transfer_id; amount = amount; reason = reason })

-- What NewEvent takes from outside the program: an id of NewID, and the clock.
pub record Stamp : Type 0 where
  pub id : String
  pub now : ℕ

-- NewEvent; its error is that of `json.Marshal`, which does not occur.
unfoldable pub new_event : Stamp → String → ℕ → EventType → Payload → Event
new_event s aggregate_id version type payload = record {
  id = s.id;
  aggregate_id = aggregate_id;
  version = version;
  type = type;
  payload = marshal payload;
  occurred_at = s.now;
  seq = 0;
}
