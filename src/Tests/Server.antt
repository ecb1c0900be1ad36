-- ===== src/Tests/Server.antt =====
-- Requests to the handlers and to the queries: their theorems at concrete inputs.
use eventledger.Prelude.{
  some, ℕ, ◌≡◌, ◌≤◌, refl, arith, Bool, true, false, not, String, List, [], ◌∷◌, length, str_eq,
  none, inl, inr, Bool-cases, if◌then◌else◌, ◌+◌, ◌-◌, ◌*◌, leb,
}
use eventledger.Prelude.Int.{ℤ, pos, pos_part}
use eventledger.Domain.Errors.{Result, ok, err, text}
use eventledger.Domain.Json.{RawMessage, object, num, str}
use eventledger.Database.{exec, query, call}
use eventledger.Eventstore.Memory.{memory_store}
use eventledger.Eventstore.Memory.Contract.{memory_IsEventStore}
use eventledger.App.{World}
use eventledger.App.Success.{Success}
use eventledger.App.Extends.{Fits}
use eventledger.Projection.Tables.{Tables, StatementRow}
use eventledger.Query.{page, entries_of, statement, StatementEntry}
use eventledger.Query.Pages.{pages, entries, pages-entries}
use eventledger.Api.Handlers.{
  Answer, handle_movement, replied, decode_movement, limit_param, handle_statement,
}
use eventledger.Api.Confirmed.{handle_move, moves, handle_move-Success}
use eventledger.Api.Limits.{IsPageSize, handle_statement-IsPageSize}
use eventledger.Api.RateLimit.{Float, IsFloat, new_rate_limiter, allowed, allowed-bounds}
use eventledger.Database.{Db}
use eventledger.Api.Keys.{Records, new_mem_idempotency}
use eventledger.Api.Stored.{rows}
use eventledger.Api.Serve.{Request, validate_idempotency_key, byte_length}
use eventledger.Api.Handlers.{handle_deposit}
use eventledger.Api.Server.{Write, Handler, recorded_status, captured, answer_writes, idempotent}
use eventledger.Api.Replay.{idempotent_twice}
use eventledger.Tests.Data.{program, world, quiet, quiet-IsTurn, world-IsLedger}

abbrev body : List RawMessage
body = object (("amount_cents", num (pos 30)) ∷ ("description", str "rent") ∷ []) ∷ []

abbrev withdrawn : Answer (Unit {0}) × World memory_store
withdrawn = handle_move memory_store true quiet "alice" body world

withdrawn-Fits : Fits memory_IsEventStore withdrawn.1
unfolding program handle_movement
withdrawn-Fits j = elim (Bool-cases (str_eq "alice" j)) [
  | inl p ↦ rw p (omega arith)
  | inr p ↦ rw p (omega arith)
]

withdrawn_200 : withdrawn.0 ≡ replied 200 tt
unfolding program handle_movement
withdrawn_200 = refl

handle_move-Success_example :
    (req : ℤ × String) × (decode_movement body ≡ ok req)
    × Success memory_IsEventStore quiet "alice" (moves true req.0 req.1) withdrawn.1
handle_move-Success_example =
    handle_move-Success memory_IsEventStore true quiet "alice" body world quiet-IsTurn
      world-IsLedger withdrawn-Fits withdrawn_200

abbrev row : String → ℕ → StatementRow
row id time = record {
  event_id = id;
  account_id = "alice";
  kind = "deposit";
  amount = pos 5;
  counterparty = "";
  transfer_id = "";
  description = "";
  occurred_at = time;
}

abbrev tables : Tables
tables = record {
  processed = λ id. false;
  balances = λ id. none;
  statements = row "e2" 4 ∷ row "e1" 3 ∷ row "e3" 8 ∷ [];
  transfers = λ id. none;
}

abbrev is_text : String → Bool
is_text s = not (str_eq s "")

pages-entries_example :
    ((b : ℕ)
      → (statement is_text "alice" (pos 2) b (record { faults = []; tables = tables })).0
        ≡ ok (entries_of (page 2 "alice" b tables)))
    × (pages 4 2 "alice" 9 tables ≡ entries "alice" 9 tables)
pages-entries_example = pages-entries is_text "alice" (pos 2) 9 tables refl (
  ((λ q. absurd (omega (arith, q))), ((λ q. absurd (omega (arith, q))), tt)),
  (((λ q. absurd (omega (arith, q))), tt), (tt, tt)),
)

abbrev parse_time : String → Result ℕ
parse_time s = err (text "cannot parse")

abbrev parse_int : String → Result ℤ
parse_int s = if str_eq s "2" then ok (pos 2) else err (text "invalid syntax")

abbrev answer : List StatementEntry
answer = entries_of (page 2 "alice" 10 tables)

handle_statement-IsPageSize_example :
    (n : ℤ) × (limit_param is_text parse_time parse_int "2" ≡ ok n)
    × IsPageSize is_text parse_time parse_int n
    × (length answer ≤ pos_part n)
unfolding statement query call exec handle_statement
handle_statement-IsPageSize_example =
    handle_statement-IsPageSize is_text parse_time parse_int 9 1 "alice" "" "2"
      (record { faults = []; tables = tables }) answer refl

-- Whole numbers in place of float64.
abbrev counts : Float
counts = record {
  F = ℕ;
  add = λ a b. a + b;
  mul = λ a b. a * b;
  min = λ a b. if leb a b then a else b;
  decrement = λ a. a - 1;
  at_least_one = λ a. leb 1 a;
  seconds = λ now last. now - last;
}

counts-IsFloat : IsFloat counts (λ a. a)
counts-IsFloat = record {
  min_first = λ a b. ground arith;
  min_second = λ a b. ground arith;
  same_time = λ a r t. ground arith;
  spends = λ a q. ground arith;
}

allowed-bounds_example : allowed counts 9 "10.0.0.1" 7 (new_rate_limiter counts 2 5) ≤ 5
unfolding new_rate_limiter
allowed-bounds_example =
    allowed-bounds counts (λ a. a) counts-IsFloat 9 "10.0.0.1" 7 (new_rate_limiter counts 2 5)

abbrev deposit_request : Request
deposit_request = record {
  method = "POST";
  path = "/accounts/alice/deposits";
  key = "k1";
  body = some "{…}";
}

abbrev deposit_handler : Handler (World memory_store)
deposit_handler w =
    let (a, w') = handle_deposit memory_store quiet "alice" body w in
    (answer_writes (λ t. t) (λ u. "{}") a, w')

abbrev sent : List Write × (Db Records × World memory_store)
sent =
    idempotent (λ t. t) (λ t. t) deposit_request (λ t. t) deposit_handler (rows new_mem_idempotency)
      world

abbrev sent_again : List Write × (Db Records × World memory_store)
sent_again = idempotent (λ t. t) (λ t. t) deposit_request (λ t. t) deposit_handler sent.1.0 sent.1.1

idempotent_twice_example :
    (sent.0 ≡ (deposit_handler world).0)
    × (sent.1.1 ≡ (deposit_handler world).1)
    × (sent_again.1 ≡ sent.1)
    × (recorded_status 200 sent_again.0 ≡ recorded_status 200 sent.0)
    × (captured sent_again.0 ≡ captured sent.0)
unfolding program handle_movement validate_idempotency_key byte_length recorded_status
idempotent_twice_example =
    idempotent_twice (λ t. t) (λ t. t) deposit_request "{…}" refl refl deposit_handler
      deposit_handler new_mem_idempotency world refl refl
