-- ===== src/Domain/Replay.antt =====
-- Replay in two parts: what a snapshot stands for, and what one more event does.
use eventledger.Prelude.{◌≡◌, refl, List, [], ◌∷◌, ◌++◌, inl, inr, ℕ, arith}
use eventledger.Domain.Errors.{Result, ok, err, ◌>>=◌, Result-cases}
use eventledger.Prelude.Int.{IsInt64, add64-IsInt64, sub64-IsInt64}
use eventledger.Domain.Events.{Event}
use eventledger.Domain.Account.{Account, apply, replay}

-- Replaying a stream is replaying a first part, then the rest on top of the state so reached: the
-- load from a snapshot agrees with the load from the whole stream.
pub replay-append :
    (a : Account) (xs ys : List Event) → replay a (xs ++ ys) ≡ (replay a xs >>= λ b. replay b ys)
unfolding replay
replay-append a [] ys = refl
replay-append a (x ∷ xs) ys = elim (Result-cases (apply x a)) [
  | inl (e, p) ↦ rw p
  | inr (b, p) ↦ rw p (replay-append b xs ys)
]

-- One more event at the end of a stream that replays.
pub replay-snoc :
    (a b : Account) (xs : List Event) (e : Event)
    → replay a xs ≡ ok b
    → replay a (xs ++ e ∷ []) ≡ apply e b
unfolding replay
replay-snoc a b xs e h = rw (replay-append a xs (e ∷ []), h) (unit (apply e b))
  where
    unit : (r : Result Account) → (r >>= λ c. ok c) ≡ r
    unit (ok c) = refl
    unit (err x) = refl

-- An applied event hands its version to the account.
pub apply-version :
    (e : Event) (a : Account) {b : Account} → apply e a ≡ ok b → b.version ≡ e.version
unfolding apply
apply-version e a h = ground arith

-- The global order that a store assigns is not read.
pub apply-seq : (e : Event) (n : ℕ) (a : Account) → apply (record e { seq = n }) a ≡ apply e a
unfolding apply
apply-seq e n a = ground arith

-- Balances are int64 values.
pub apply-IsInt64 :
    (e : Event) (a : Account) {b : Account}
    → apply e a ≡ ok b
    → IsInt64 a.balance
    → IsInt64 b.balance
unfolding apply
apply-IsInt64 e a h k = grind (arith, add64-IsInt64, sub64-IsInt64)

pub replay-IsInt64 :
    (a : Account) (es : List Event) {b : Account}
    → replay a es ≡ ok b
    → IsInt64 a.balance
    → IsInt64 b.balance
unfolding replay
replay-IsInt64 a [] h k = ground arith
replay-IsInt64 a (e ∷ es) {b} h k = elim (Result-cases (apply e a)) [
  | inl (x, stopped) ↦ absurd (ground arith)
  | inr (c, done) ↦
      let rest : replay c es ≡ ok b = ground arith in
      replay-IsInt64 c es {b = b} rest (apply-IsInt64 e a done k)
]
