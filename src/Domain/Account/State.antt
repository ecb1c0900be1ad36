-- ===== src/Domain/Account/State.antt =====
-- The JSON form of an account, by the tags of internal/domain/account.go, as snapshots hold it.
use eventledger.Prelude.{ℕ, ◌≡◌, ◌<◌, [], ◌∷◌, arith}
use eventledger.Prelude.Int.{ℤ, pos, negsuc, half_range, IsInt64}
use eventledger.Domain.Errors.{Result, ok, err, text, ◌>>=◌}
use eventledger.Domain.Json.{
  RawMessage, object, str, num, boolean, string_field, int64_field, bool_field,
}
use eventledger.Domain.Account.{Account}

-- A version is never negative: no stream has one.
abbrev natural : ℤ → Result ℕ
natural (pos n) = ok n
natural (negsuc n) = err (text "negative version")

-- `json.Marshal` on an Account, which cannot fail.
unfoldable pub marshal_account : Account → RawMessage
marshal_account a = object (
    ("id", str a.id)
    ∷ ("owner", str a.owner)
    ∷ ("balance", num a.balance)
    ∷ ("open", boolean a.is_open)
    ∷ ("version", num (pos a.version))
    ∷ [])

-- `json.Unmarshal` into a blank Account.
unfoldable pub unmarshal_account : RawMessage → Result Account
unmarshal_account state = do
  id ← string_field "id" state
  owner ← string_field "owner" state
  balance ← int64_field "balance" state
  is_open ← bool_field "open" state
  version ← int64_field "version" state
  v ← natural version
  ok (record { id = id; owner = owner; balance = balance; is_open = is_open; version = v })

-- An account whose balance and version are int64 values survives the round trip through a snapshot.
pub unmarshal_account-marshal_account :
    (a : Account)
    → IsInt64 a.balance
    → a.version < half_range
    → unmarshal_account (marshal_account a) ≡ ok a
unfolding unmarshal_account marshal_account
unmarshal_account-marshal_account a h v = ground arith
