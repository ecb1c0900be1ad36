-- ===== src/Api/Confirmed.antt =====
-- The replies to POST /accounts/{id}/deposits and /withdrawals of internal/api/server.go, and what
-- internal/app/app.go has done by then.
use eventledger.Prelude.{ℕ, ◌≡◌, refl, sym, Bool, true, false, String, List, subst}
use eventledger.Prelude.Int.{ℤ}
use eventledger.Domain.Errors.{Result, ok, err}
use eventledger.Domain.Json.{RawMessage}
use eventledger.Domain.Decide.{Command, deposits, withdraws, decide}
use eventledger.Domain.Sound.{IsLimited}
use eventledger.Eventstore.Port.{Store, IsEventStore}
use eventledger.App
use eventledger.App.{World, Turn, mutate}
use eventledger.App.Extends.{IsLedger, Fits}
use eventledger.App.Loop.{IsTurn}
use eventledger.App.Success.{Success, mutate-Success}
use eventledger.Api.Handlers.{
  Answer, replied, answer_with, decode_movement, handle_movement, handle_deposit, handle_withdraw,
}

-- The two handlers: of a withdrawal, and of a deposit.
abbrev pub handle_move :
    (st : Store)
    → Bool
    → (ℕ → Turn st)
    → String
    → List RawMessage
    → World st
    → Answer (Unit {0}) × World st
handle_move st true = handle_withdraw st
handle_move st false = handle_deposit st

abbrev pub moves : Bool → ℤ → String → Command
moves true amount description = withdraws amount description
moves false amount description = deposits amount description

answer_with-ok :
    {A S : Type 0} (status status' : ℕ) (r : Result A × S) {a : A}
    → (answer_with status r).0 ≡ replied status' a
    → (r.0 ≡ ok a) × ((answer_with status r).1 ≡ r.1)
answer_with-ok status status' (ok b, s) h = (cc, refl)
answer_with-ok status status' (err x, s) h = absurd (cc)

module _ {st : Store} (es : IsEventStore st) where
  move-decided :
      (out : Bool) (turns : ℕ → Turn st) (id : String) (body : List RawMessage) (w : World st)
      (r : Result (ℤ × String))
      → decode_movement body ≡ r
      → (handle_move st out turns id body w).0 ≡ replied 200 tt
      → (req : ℤ × String) × (r ≡ ok req)
        × ((mutate st turns id (λ s a. decide (moves out req.0 req.1) s a) w).0 ≡ ok tt)
        × ((handle_move st out turns id body w).1
            ≡ (mutate st turns id (λ s a. decide (moves out req.0 req.1) s a) w).1)
  unfolding handle_movement App.deposit App.withdraw decide
  move-decided true turns id body w (err x) q h = absurd (cc (rw q at h))
  move-decided false turns id body w (err x) q h = absurd (cc (rw q at h))
  move-decided true turns id body w (ok req) q h =
      let (done, same) =
        answer_with-ok 200 200 (App.withdraw st turns id req.0 req.1 w) (rw q at h) in
      (req, refl, done, rw q same)
  move-decided false turns id body w (ok req) q h =
      let (done, same) =
        answer_with-ok 200 200 (App.deposit st turns id req.0 req.1 w) (rw q at h) in
      (req, refl, done, rw q same)

  moves-IsLimited :
      (out : Bool) (amount : ℤ) (description : String) → IsLimited (moves out amount description)
  moves-IsLimited true amount description = tt
  moves-IsLimited false amount description = tt

  -- A deposit or a withdrawal that is answered with 200 was done: on a ledger in order, and among
  -- steps of others that keep it so, its body was one JSON value that gives an amount and a description, and
  -- exactly the event decided for them was recorded in the stream of the account and published. No
  -- stream outgrows the bound on versions.
  pub handle_move-Success :
      (out : Bool) (turns : ℕ → Turn st) (id : String) (body : List RawMessage) (w : World st)
      → ((k : ℕ) → IsTurn es (turns k))
      → IsLedger es w
      → Fits es (handle_move st out turns id body w).1
      → (handle_move st out turns id body w).0 ≡ replied 200 tt
      → (req : ℤ × String) × (decode_movement body ≡ ok req)
        × Success es turns id (moves out req.0 req.1) (handle_move st out turns id body w).1
  handle_move-Success out turns id body w others ledger fits h =
      let (req, decoded, done, same) =
        move-decided out turns id body w (decode_movement body) refl h in
      (
        req,
        decoded,
        subst (Success es turns id (moves out req.0 req.1)) (sym same) (
            mutate-Success es turns id (moves out req.0 req.1) w others
              (moves-IsLimited out req.0 req.1) ledger (subst (Fits es) same fits) done),
      )
