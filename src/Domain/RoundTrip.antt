-- ===== src/Domain/RoundTrip.antt =====
-- The JSON form of the payloads of internal/domain/events.go, there and back.
use eventledger.Prelude.{◌≡◌, refl, arith, eq_iff}
use eventledger.Prelude.Int.{IsInt64}
use eventledger.Domain.Errors.{ok}
use eventledger.Domain.Events.{
  Payload, opened, deposited, withdrawn, debited, credited, reversed, marshal,
  unmarshal_account_opened, unmarshal_money_deposited, unmarshal_money_withdrawn,
  unmarshal_transfer_debited, unmarshal_transfer_credited, unmarshal_transfer_reversed,
}

-- The amount of a payload, where it has one, is an int64.
abbrev pub HasInt64 : Payload → Type 0
HasInt64 (opened p) = Unit {0}
HasInt64 (deposited p) = IsInt64 p.amount
HasInt64 (withdrawn p) = IsInt64 p.amount
HasInt64 (debited p) = IsInt64 p.amount
HasInt64 (credited p) = IsInt64 p.amount
HasInt64 (reversed p) = IsInt64 p.amount

-- Decoding the encoded payload into its own struct gives the payload back.
abbrev pub Survives : Payload → Type 0
Survives (opened p) = unmarshal_account_opened (marshal (opened p)) ≡ ok p
Survives (deposited p) = unmarshal_money_deposited (marshal (deposited p)) ≡ ok p
Survives (withdrawn p) = unmarshal_money_withdrawn (marshal (withdrawn p)) ≡ ok p
Survives (debited p) = unmarshal_transfer_debited (marshal (debited p)) ≡ ok p
Survives (credited p) = unmarshal_transfer_credited (marshal (credited p)) ≡ ok p
Survives (reversed p) = unmarshal_transfer_reversed (marshal (reversed p)) ≡ ok p

-- Every payload whose amount is an int64 survives the round trip through JSON, also where
-- `omitempty` leaves an empty description out.
pub unmarshal-marshal : (p : Payload) → HasInt64 p → Survives p
unfolding marshal unmarshal_account_opened unmarshal_money_deposited unmarshal_money_withdrawn
    unmarshal_transfer_debited unmarshal_transfer_credited unmarshal_transfer_reversed
unmarshal-marshal (opened p) h = refl
unmarshal-marshal (deposited p) h = ground (arith, eq_iff p.description "")
unmarshal-marshal (withdrawn p) h = ground (arith, eq_iff p.description "")
unmarshal-marshal (debited p) h = ground arith
unmarshal-marshal (credited p) h = ground arith
unmarshal-marshal (reversed p) h = ground arith
