-- ===== src/Domain/Errors.antt =====
-- Go errors as the program uses them: the sentinels of internal/domain/account.go,
-- internal/eventstore/store.go and internal/app/app.go, with those of the standard library that the
-- code tests for; `errors.Is`; the texts that `Error()` returns; and calls that can fail.
use Prim.Native.String.{◌++◌ as append}
use eventledger.Prelude.{ℕ, Bool, true, false, String, str_eq, ◌==◌, ◌≡◌, refl, ◌⊎◌, inl, inr}

-- The values that are compared by identity.
pub data Sentinel : Type 0 where
  account_closed account_not_found insufficient_funds invalid_amount : Sentinel
  owner_required same_account amount_too_large : Sentinel
  concurrency aggregate_mismatch too_many_conflicts : Sentinel
  deadline_exceeded canceled no_rows : Sentinel

-- `wrapped` is `fmt.Errorf("<context>: %w", err)`; `pq` is an error of the driver, with its code;
-- `text` is any other error, of which only the text matters.
pub data Error : Type 0 where
  sentinel : Sentinel → Error
  wrapped : String → Error → Error
  text : String → Error
  pq : String → String → Error

abbrev index : Sentinel → ℕ
index Sentinel.account_closed = 0
index Sentinel.account_not_found = 1
index Sentinel.insufficient_funds = 2
index Sentinel.invalid_amount = 3
index Sentinel.owner_required = 4
index Sentinel.same_account = 5
index Sentinel.amount_too_large = 6
index Sentinel.concurrency = 7
index Sentinel.aggregate_mismatch = 8
index Sentinel.too_many_conflicts = 9
index Sentinel.deadline_exceeded = 10
index Sentinel.canceled = 11
index Sentinel.no_rows = 12

-- `errors.Is(err, target)` for a target that is one of the values above.
abbrev pub is : Error → Sentinel → Bool
is (sentinel s) target = index s == index target
is (wrapped context e) target = is e target
is (text t) target = false
is (pq code t) target = false

-- `errors.As(err, &pqErr) && pqErr.Code == code`
abbrev pub has_code : Error → String → Bool
has_code (sentinel s) code = false
has_code (wrapped context e) code = has_code e code
has_code (text t) code = false
has_code (pq c t) code = str_eq c code

sentinel_message : Sentinel → String
sentinel_message Sentinel.account_closed = "account is closed"
sentinel_message Sentinel.account_not_found = "account not found"
sentinel_message Sentinel.insufficient_funds = "insufficient funds"
sentinel_message Sentinel.invalid_amount = "amount must be positive"
sentinel_message Sentinel.owner_required = "owner is required"
sentinel_message Sentinel.same_account = "transfer to the same account"
sentinel_message Sentinel.amount_too_large = "amount exceeds per-operation limit"
sentinel_message Sentinel.concurrency = "concurrency conflict: aggregate was modified"
sentinel_message Sentinel.aggregate_mismatch = "event aggregate does not match stream"
sentinel_message Sentinel.too_many_conflicts = "too many concurrent updates, retry later"
sentinel_message Sentinel.deadline_exceeded = "context deadline exceeded"
sentinel_message Sentinel.canceled = "context canceled"
sentinel_message Sentinel.no_rows = "sql: no rows in result set"

-- `err.Error()`.
unfoldable pub message : Error → String
unfolding sentinel_message
message (sentinel s) = sentinel_message s
message (wrapped context e) = append context (append ": " (message e))
message (text t) = t
message (pq code t) = append "pq: " t

-- What a call `(A, error)` returns: where the error is not nil the callers read nothing else.
pub data Result {ℓ} (A : Type ℓ) : Type ℓ where
  ok : A → Result A
  err : Error → Result A

abbrev pub fail {ℓ} : {A : Type ℓ} → Sentinel → Result A
fail s = err (sentinel s)

-- `if err != nil { return err }` between two calls.
infixl 5 ◌>>=◌
infixl 5 ◌>>◌
abbrev pub ◌>>=◌ {κ ℓ} : {B : Type κ} {A : Type ℓ} → Result A → (A → Result B) → Result B
err stopped >>= next = err stopped
ok value >>= next = next value

abbrev pub ◌>>◌ {κ} : {B : Type κ} → Result (Unit {0}) → Result B → Result B
err stopped >> next = err stopped
ok done >> next = next

-- `if condition { return err }`
abbrev pub fail_if : Bool → Sentinel → Result (Unit {0})
fail_if true s = fail s
fail_if false s = ok tt

-- `if err != nil { return fmt.Errorf("<context>: %w", err) }`
abbrev pub within {ℓ} : {A : Type ℓ} → String → Result A → Result A
within context (ok a) = ok a
within context (err e) = err (wrapped context e)

pub Result-cases {ℓ} :
    {A : Type ℓ} (r : Result A) → ((e : Error) × (r ≡ err e)) ⊎ ((a : A) × (r ≡ ok a))
Result-cases (ok a) = inr (a, refl)
Result-cases (err e) = inl (e, refl)
