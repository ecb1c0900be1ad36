-- ===== src/Api/Errors.antt =====
-- writeError on the errors of the decisions.
use eventledger.Prelude.{◌≡◌, ◌≤◌, ◌<◌, ℕ, arith, inl, inr}
use eventledger.Domain.Errors.{Error, err}
use eventledger.Domain.Events.{Stamp}
use eventledger.Domain.Account.{Account}
use eventledger.Domain.Decide.{Command, decide}
use eventledger.Domain.Rules.{IsRefusal, decide-IsRefusal}
use eventledger.Api.Serve.{Reply, error_reply, replay, write_error}

-- The status of a reply.
abbrev pub status_of : Reply → ℕ
status_of (error_reply status retry body) = status
status_of (replay status body) = status

refusal-bounds :
    (x : Error)
    → IsRefusal x
    → (400 ≤ status_of (write_error x)) × (status_of (write_error x) < 500)
unfolding write_error
refusal-bounds x (inl q) = rw q (omega arith, omega arith)
refusal-bounds x (inr (inl q)) = rw q (omega arith, omega arith)
refusal-bounds x (inr (inr (inl q))) = rw q (omega arith, omega arith)
refusal-bounds x (inr (inr (inr (inl q)))) = rw q (omega arith, omega arith)
refusal-bounds x (inr (inr (inr (inr (inl q))))) = rw q (omega arith, omega arith)
refusal-bounds x (inr (inr (inr (inr (inr q))))) = rw q (omega arith, omega arith)

-- Every error with which an account refuses a command is answered with a status of the client's
-- errors, 400 to 499.
pub refusal_status :
    (c : Command) (s : Stamp) (a : Account) (x : Error)
    → decide c s a ≡ err x
    → (400 ≤ status_of (write_error x)) × (status_of (write_error x) < 500)
refusal_status c s a x refused = refusal-bounds x (decide-IsRefusal c s a refused)
