-- ===== src/Api/Keys.antt =====
-- internal/api/idempotency.go with the store in memory: each method holds the mutex, so it is one
-- step. The digest is SHA-256 in hexadecimal, a parameter.
use Prim.Native.String.{◌++◌ as append}
use eventledger.Prelude.{ℕ, Bool, true, false, String, Option, none, some, str_eq, if◌then◌else◌}

pub record IdempotencyRecord : Type 0 where
  pub request_hash : String
  pub status_code : ℕ
  pub body : String

abbrev pub no_record : IdempotencyRecord
no_record = record { request_hash = ""; status_code = 0; body = "" }

-- recs
abbrev pub Records : Type 0
Records = String → Option IdempotencyRecord

abbrev pub new_mem_idempotency : Records
new_mem_idempotency key = none

abbrev pub store_record : Records → String → IdempotencyRecord → Records
store_record recs key rec k = if str_eq key k then some rec else recs k

abbrev pub reserve_in :
    Option IdempotencyRecord → String → String → Records → (Bool × IdempotencyRecord) × Records
reserve_in (some rec) key hash recs = ((false, rec), recs)
reserve_in none key hash recs = (
  (true, no_record),
  store_record recs key (record { request_hash = hash; status_code = 0; body = "" }),
)

unfoldable pub reserve : String → String → Records → (Bool × IdempotencyRecord) × Records
reserve key hash recs = reserve_in (recs key) key hash recs

abbrev pub complete_in : Option IdempotencyRecord → String → ℕ → String → Records → Records
complete_in none key status body recs = recs
complete_in (some rec) key status body recs =
    store_record recs key (record rec { status_code = status; body = body })

unfoldable pub complete : String → ℕ → String → Records → Records
complete key status body recs = complete_in (recs key) key status body recs

unfoldable pub hash_request : (String → String) → String → String → String → String
hash_request digest method path body =
    digest (append method (append "\0" (append path (append "\0" body))))
