-- ===== src/Api/Serve.antt =====
-- internal/api/server.go: the wrapper `idempotent` up to the call of the handler, and the replies to
-- the errors of commands.
use Prim.Native.Char.{code}
use Prim.Native.String.{◌∷◌ as cons, [] as nil}
use eventledger.Prelude.{
  ℕ, ◌+◌, Bool, true, false, not, ◌&&◌, ◌||◌, String, Option, none, some, str_eq, ltb, ◌==◌,
  if◌then◌else◌,
}
use eventledger.Domain.Errors.{Sentinel, Error, is, message}
use eventledger.Domain.Account.Text.{trim_space}
use eventledger.Api.Keys.{IdempotencyRecord, Records, reserve, hash_request}

-- What the code reads of a request; no body stands for one that cannot be read, or not within 1 MiB.
pub record Request : Type 0 where
  pub method : String
  pub path : String
  pub key : String
  pub body : Option String

-- What a client receives: a status, the body of an error and whether it has Retry-After, or the
-- response that was stored for its key.
pub data Reply : Type 0 where
  error_reply : ℕ → Bool → String → Reply
  replay : ℕ → String → Reply

-- The number of bytes of the UTF-8 form.
unfoldable pub byte_length : String → ℕ
byte_length nil = 0
byte_length (cons c s) =
    (if ltb (code c) 0x80
      then 1
      else if ltb (code c) 0x800
      then 2
      else if ltb (code c) 0x10000
      then 3
      else 4)
    + byte_length s

unfoldable pub validate_idempotency_key : String → Option String
unfolding trim_space
validate_idempotency_key key =
    let trimmed = trim_space key in
    if str_eq trimmed ""
    then some "Idempotency-Key header is required"
    else if ltb 128 (byte_length trimmed)
    then some "Idempotency-Key header is too long"
    else none

-- writeError
unfoldable pub write_error : Error → Reply
write_error e =
    if is e Sentinel.account_not_found
    then error_reply 404 false (message e)
    else if is e Sentinel.insufficient_funds
    then error_reply 422 false (message e)
    else if is e Sentinel.invalid_amount
        || is e Sentinel.owner_required
        || is e Sentinel.same_account
        || is e Sentinel.amount_too_large
    then error_reply 400 false (message e)
    else if is e Sentinel.account_closed
    then error_reply 409 false (message e)
    else if is e Sentinel.too_many_conflicts
    then error_reply 409 true (message e)
    else if is e Sentinel.deadline_exceeded
    then error_reply 504 false "operation timed out"
    else error_reply 500 false "internal error"

-- What becomes of a request before its handler runs.
pub data Admission : Type 0 where
  answered : Reply → Admission
  executes : String → Admission

-- The switch on the record of a key that exists.
abbrev pub known_key : String → IdempotencyRecord → Reply
known_key hash rec =
    if not (str_eq rec.request_hash "") && not (str_eq rec.request_hash hash)
    then error_reply 422 false "Idempotency-Key already used with a different request"
    else if rec.status_code == 0
    then error_reply 409 true "original request still processing"
    else replay rec.status_code rec.body

abbrev pub reserved : String → String → (Bool × IdempotencyRecord) × Records → Admission × Records
reserved key hash ((true, rec), recs) = (executes key, recs)
reserved key hash ((false, rec), recs) = (answered (known_key hash rec), recs)

module _ (digest : String → String) where
  abbrev pub with_body : Option String → Request → Records → Admission × Records
  with_body none r recs = (answered (error_reply 400 false "cannot read body"), recs)
  with_body (some body) r recs =
      let hash = hash_request digest r.method r.path body in
      reserved r.key hash (reserve r.key hash recs)

  abbrev pub with_key : Option String → Request → Records → Admission × Records
  with_key (some problem) r recs = (answered (error_reply 400 false problem), recs)
  with_key none r recs = with_body r.body r recs

  -- `idempotent` until it calls the handler, over the store in memory.
  unfoldable pub admit : Request → Records → Admission × Records
  admit r recs = with_key (validate_idempotency_key r.key) r recs
