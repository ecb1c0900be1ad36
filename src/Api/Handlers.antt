-- ===== src/Api/Handlers.antt =====
-- internal/api/server.go: the handlers of the commands and of the queries, as the reply that each
-- gives. A body is the JSON values that it holds; the path values and query parameters are given.
use Prim.Native.String.{◌++◌ as append}
use eventledger.Prelude.{
  ℕ, ◌+◌, Bool, true, false, ◌&&◌, ◌||◌, String, List, [], ◌∷◌, Option, str_eq, if◌then◌else◌,
}
use eventledger.Prelude.Int.{ℤ, pos, leb_ℤ, ltb_ℤ}
use eventledger.Domain.Errors.{
  Sentinel, Error, sentinel, text, message, is, Result, ok, err, ◌>>=◌, ◌>>◌,
}
use eventledger.Domain.Json.{
  RawMessage, object, null_message, malformed, Value, string_field, int64_field,
}
use eventledger.Domain.Events.{Event, Stamp}
use eventledger.Database.{Db}
use eventledger.Eventstore.Port.{Store}
use eventledger.App
use eventledger.App.{World, Turn}
use eventledger.Projection.Tables.{Tables}
use eventledger.Query
use eventledger.Query.{Balance, StatementEntry, Transfer}
use eventledger.Api.Serve.{Reply, error_reply, write_error}

-- An error, or a status with the value that is written as JSON.
pub data Answer (A : Type 0) : Type 0 where
  refused : Reply → Answer A
  replied : ℕ → A → Answer A

abbrev is_key : List String → String → Bool
is_key [] key = false
is_key (k ∷ keys) key = str_eq k key || is_key keys key

abbrev has_only : List String → List (String × Value) → Bool
has_only keys [] = true
has_only keys ((k, v) ∷ fields) = is_key keys k && has_only keys fields

-- DisallowUnknownFields
abbrev known_fields : List String → RawMessage → Result (Unit {0})
known_fields keys (object fields) =
    if has_only keys fields then ok tt else err (text "json: unknown field")
known_fields keys null_message = ok tt
known_fields keys malformed = err (text "json: cannot unmarshal")

abbrev single : {A : Type 0} → List RawMessage → A → Result A
single [] a = ok a
single (m ∷ rest) a = err (text "multiple JSON values")

-- decode, with the fields of the struct and how each is read.
abbrev pub decode :
    {A : Type 0} → List String → (RawMessage → Result A) → List RawMessage → Result A
decode keys read [] = err (text "EOF")
decode keys read (m ∷ rest) = do known_fields keys m; a ← read m; single rest a

abbrev pub invalid_body : {A : Type 0} → Error → Answer A
invalid_body x = refused (error_reply 400 false (append "invalid JSON body: " (message x)))

abbrev pub decode_movement : List RawMessage → Result (ℤ × String)
decode_movement body =
    decode ("amount_cents" ∷ "description" ∷ [])
      (λ m. do
        amount ← int64_field "amount_cents" m
        description ← string_field "description" m
        ok (amount, description))
      body

abbrev pub decode_opening : List RawMessage → Result (String × ℤ)
decode_opening body =
    decode ("owner" ∷ "initial_deposit_cents" ∷ [])
      (λ m. do
        owner ← string_field "owner" m
        initial_deposit ← int64_field "initial_deposit_cents" m
        ok (owner, initial_deposit))
      body

abbrev pub decode_transfer : List RawMessage → Result (String × String × ℤ)
decode_transfer body =
    decode ("from_account_id" ∷ "to_account_id" ∷ "amount_cents" ∷ [])
      (λ m. do
        from ← string_field "from_account_id" m
        to ← string_field "to_account_id" m
        amount ← int64_field "amount_cents" m
        ok (from, to, amount))
      body

-- What follows a command or a query: writeError, or writeJSON with a status.
abbrev pub answer_with : {A S : Type 0} → ℕ → Result A × S → Answer A × S
answer_with status (ok a, s) = (replied status a, s)
answer_with status (err x, s) = (refused (write_error x), s)

module _ (st : Store) where
  -- A command that runs on a decoded body.
  abbrev pub on_body :
      {A B : Type 0}
      → ℕ
      → Result B
      → (B → World st → Result A × World st)
      → World st
      → Answer A × World st
  on_body status (ok req) command w = answer_with status (command req w)
  on_body status (err x) command w = (invalid_body x, w)

  -- The ids, the times and the steps of others are those of OpenAccount.
  unfoldable pub handle_open_account :
      Stamp
      → Stamp
      → (World st → World st)
      → String
      → List RawMessage
      → World st
      → Answer String × World st
  handle_open_account s s' before_publish id body =
      on_body 201 (decode_opening body)
        (λ req. App.open_account st s s' before_publish id req.0 req.1)

  unfoldable pub handle_movement :
      (String → ℤ → String → World st → Result (Unit {0}) × World st)
      → String
      → List RawMessage
      → World st
      → Answer (Unit {0}) × World st
  handle_movement command id body =
      on_body 200 (decode_movement body) (λ req. command id req.0 req.1)

  abbrev pub handle_deposit :
      (ℕ → Turn st) → String → List RawMessage → World st → Answer (Unit {0}) × World st
  handle_deposit turns = handle_movement (App.deposit st turns)

  abbrev pub handle_withdraw :
      (ℕ → Turn st) → String → List RawMessage → World st → Answer (Unit {0}) × World st
  handle_withdraw turns = handle_movement (App.withdraw st turns)

  -- The reply holds the id of the transfer, with the status "pending".
  unfoldable pub handle_transfer :
      (ℕ → Turn st) → String → List RawMessage → World st → Answer String × World st
  handle_transfer turns transfer_id body =
      on_body 202 (decode_transfer body)
        (λ req. App.start_transfer st turns transfer_id req.0 req.1 req.2)

  abbrev pub events_reply : Result (List Event) → Answer (List Event)
  events_reply (err x) = refused (write_error x)
  events_reply (ok []) = refused (write_error (sentinel Sentinel.account_not_found))
  events_reply (ok (e ∷ events)) = replied 200 (e ∷ events)

  unfoldable pub handle_events : String → World st → Answer (List Event)
  handle_events id w = events_reply (st.events_by_aggregate id w.store)

abbrev pub health_reply :
    Result (Unit {0}) × Option (Db Tables) → Answer String × Option (Db Tables)
health_reply (ok u, db) = (replied 200 "ok", db)
health_reply (err x, db) = (replied 503 "unavailable", db)

-- GET /healthz
unfoldable pub handle_health : Option (Db Tables) → Answer String × Option (Db Tables)
handle_health db = health_reply (Query.ping db)

abbrev pub transfer_reply : Result Transfer × Db Tables → Answer Transfer × Db Tables
transfer_reply (ok t, db) = (replied 200 t, db)
transfer_reply (err x, db) = (
  refused
      (if is x Sentinel.no_rows then error_reply 404 false "transfer not found" else write_error x),
  db,
)

-- `is_uuid` tells the texts that Postgres takes for a UUID.
module _ (is_uuid : String → Bool) where
  unfoldable pub handle_balance : String → Db Tables → Answer Balance × Db Tables
  handle_balance id db = answer_with 200 (Query.balance is_uuid id db)

  unfoldable pub handle_get_transfer : String → Db Tables → Answer Transfer × Db Tables
  handle_get_transfer id db = transfer_reply (Query.transfer is_uuid id db)

  -- `parse_time` is time.Parse with RFC3339Nano, and `parse_int` is strconv.Atoi.
  module _ (parse_time : String → Result ℕ) (parse_int : String → Result ℤ) where
    abbrev pub before_param : ℕ → String → Result ℕ
    before_param default v = if str_eq v "" then ok default else parse_time v

    abbrev pub in_range : ℤ → Result ℤ
    in_range n = if leb_ℤ n (pos 0) || ltb_ℤ (pos 100) n then err (text "out of range") else ok n

    abbrev pub limit_param : String → Result ℤ
    limit_param v = if str_eq v "" then ok (pos 20) else parse_int v >>= in_range

    abbrev pub page_reply :
        String → Result ℕ → Result ℤ → Db Tables → Answer (List StatementEntry) × Db Tables
    page_reply id (err x) limit db =
        (refused (error_reply 400 false "invalid 'before': use RFC3339"), db)
    page_reply id (ok before) (err x) db =
        (refused (error_reply 400 false "invalid 'limit': use an integer between 1 and 100"), db)
    page_reply id (ok before) (ok limit) db =
        answer_with 200 (Query.statement is_uuid id limit before db)

    -- `now` is the time of the request, in the unit of the rows; one second is added to it.
    unfoldable pub handle_statement :
        ℕ → ℕ → String → String → String → Db Tables → Answer (List StatementEntry) × Db Tables
    handle_statement now second id before limit =
        page_reply id (before_param (now + second) before) (limit_param limit)
