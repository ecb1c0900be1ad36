-- ===== src/Tests/Projection.antt =====
-- The projector on the events of alice and on a debit towards a text that is no UUID: its theorems at
-- these inputs.
use eventledger.Prelude.{
  ℕ, ◌≡◌, ◌⊎◌, refl, not, Bool, String, List, [], ◌∷◌, Option, none, some, str_eq, false, inl, inr,
  Bool-cases,
}
use eventledger.Prelude.Int.{pos, neg64}
use eventledger.Domain.Errors.{Error, ok, err, text}
use eventledger.Domain.Events.{Event, EventType, Payload, TransferDebited, new_event}
use eventledger.Domain.Account.{blank}
use eventledger.Database.{exec}
use eventledger.Projection.Tables.{
  Tables, mark_processed, open_balance, add_balance, has_entry, insert_entry, insert_transfer,
  update_transfer,
}
use eventledger.Projection.Apply.{
  bump, statement, apply_event, apply_event_type, body, apply, catch_up,
}
use eventledger.Projection.Atomic.{apply_again}
use eventledger.Projection.Demands.{projected}
use eventledger.Projection.Whole.{apply-projected}
use eventledger.Projection.Balanced.{IsBalanced, total, apply-IsBalanced}
use eventledger.Projection.Poison.{Fails, catch_up_stuck}
use eventledger.Projection.Rebuild.{IsHistory, IsMirror, catch_up-IsMirror}
use eventledger.Tests.Data.{program, stamp, alice_opened, alice_deposit, alice}

unfoldable pub projector : Unit {0}
unfolding program exec mark_processed open_balance add_balance has_entry insert_entry
    insert_transfer update_transfer bump statement apply_event apply_event_type body apply catch_up
    neg64
projector = tt

abbrev pub is_uuid : String → Bool
is_uuid s = not (str_eq s "nowhere")

abbrev pub empty : Tables
empty = record {
  processed = λ id. false;
  balances = λ id. none;
  statements = [];
  transfers = λ id. none;
}

abbrev lost : TransferDebited
lost = record { transfer_id = "t1"; to = "nowhere"; amount = pos 30 }

abbrev lost_debit : Event
lost_debit = new_event (stamp "e3") "alice" 3 EventType.transfer_debited (Payload.debited lost)

abbrev pub healthy : ℕ → List (Option Error)
healthy k = []

abbrev opened : Tables
opened = (catch_up is_uuid 9 healthy (alice_opened ∷ alice_deposit ∷ []) empty).1

apply-projected_example :
    (apply is_uuid 9 [] alice_deposit opened ≡ projected is_uuid 9 alice_deposit opened)
    × ((faults : List (Option Error))
        → (apply is_uuid 9 faults alice_deposit opened ≡ projected is_uuid 9 alice_deposit opened)
          ⊎ ((x : Error) × (apply is_uuid 9 faults alice_deposit opened ≡ (err x, opened))))
apply-projected_example = apply-projected is_uuid 9 alice_deposit opened

abbrev started : Tables
started = (apply is_uuid 9 [] alice_opened empty).1

started-IsBalanced : IsBalanced is_uuid started
unfolding projector total
started-IsBalanced = record {
  sums = λ id. elim (Bool-cases (str_eq "alice" id)) [ inl p ↦ rw p refl | inr p ↦ rw p refl ];
  marked = λ id p. absurd (cc);
}

apply-IsBalanced_example : IsBalanced is_uuid (apply is_uuid 9 [] alice_deposit started).1
apply-IsBalanced_example = apply-IsBalanced is_uuid 9 [] alice_deposit started started-IsBalanced

apply_again_example :
    (apply is_uuid 9 [] alice_opened started ≡ (ok tt, started))
    × ((apply is_uuid 9 (none ∷ some (text "connection lost") ∷ []) alice_opened started).1
        ≡ started)
unfolding projector
apply_again_example =
    apply_again is_uuid 9 [] (none ∷ some (text "connection lost") ∷ []) alice_opened empty started
      refl

catch_up_stuck_example : Fails opened (
    catch_up is_uuid 9 healthy
      (alice_opened ∷ alice_deposit ∷ lost_debit ∷ alice_deposit ∷ [])
      empty)
unfolding projector
catch_up_stuck_example =
    catch_up_stuck is_uuid 9 lost_debit lost refl refl refl healthy
      (alice_opened ∷ alice_deposit ∷ []) (alice_deposit ∷ []) empty opened refl refl

abbrev log : List Event
log = alice_opened ∷ alice_deposit ∷ []

log-IsHistory : IsHistory log
unfolding projector
log-IsHistory = record {
  opened_once = λ id. elim (Bool-cases (str_eq "alice" id)) [
    | inl p ↦ rw p (refl, ((λ q. absurd (cc)), tt))
    | inr p ↦ rw p tt
  ];
  replays = λ id. elim (Bool-cases (str_eq "alice" id)) [
    | inl p ↦ rw p (alice, refl)
    | inr p ↦ rw p (blank, refl)
  ];
}

catch_up-IsMirror_example : IsMirror log opened
unfolding projector
catch_up-IsMirror_example =
    catch_up-IsMirror is_uuid 9 healthy log empty opened (refl, (refl, tt)) (λ id. refl)
      ((refl, tt), (tt, tt)) log-IsHistory refl
