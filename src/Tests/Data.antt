-- ===== src/Tests/Data.antt =====
-- A bank with one account of 100 cents, and the names that a run of the model unfolds.
use eventledger.Prelude.{ℕ, refl, String, List, [], ◌∷◌, none, true, false, inl, inr, arith}
use eventledger.Prelude.Int.{pos, add64, sub64, wrap64, ◌+ℤ◌, ◌-ℤ◌}
use eventledger.Domain.Events.{
  Event, EventType, Payload, Stamp, new_event, marshal, unmarshal_account_opened,
  unmarshal_money_deposited, unmarshal_money_withdrawn, unmarshal_transfer_debited,
  unmarshal_transfer_credited, unmarshal_transfer_reversed, type_eq,
}
use eventledger.Domain.Account
use eventledger.Domain.Account.{
  apply, replay, blank, open_account, withdraw, debit_transfer, credit_transfer, reverse_transfer,
}
use eventledger.Domain.Decide.{decide}
use eventledger.Eventstore.Port.{IsNumbered}
use eventledger.Eventstore.Memory.{
  Memory, memory_store, put, append, append_from, load, select, transfer_id_of, mentions, settle,
  has_transfer_event, pending_transfer_debits, load_unprocessed, mark_processed, new_memory,
}
use eventledger.Eventstore.Memory.Append.{put_all}
use eventledger.Eventstore.Memory.Contract.{memory_IsEventStore}
use eventledger.App
use eventledger.App.{World, Turn, mutate, mutate_from, once, publish, opening}
use eventledger.App.Extends.{IsLedger, IsAccountStream, quiet-IsTraffic}
use eventledger.App.Loop.{IsTurn}

unfoldable pub program : Unit {0}
unfolding add64 sub64 wrap64 ◌+ℤ◌ ◌-ℤ◌ new_event marshal unmarshal_account_opened
    unmarshal_money_deposited unmarshal_money_withdrawn unmarshal_transfer_debited
    unmarshal_transfer_credited unmarshal_transfer_reversed type_eq apply replay open_account
    Account.deposit withdraw debit_transfer credit_transfer reverse_transfer decide append
    append_from load select transfer_id_of mentions settle has_transfer_event
    pending_transfer_debits load_unprocessed mark_processed new_memory mutate mutate_from once
    publish opening App.deposit App.withdraw App.start_transfer App.credit_transfer
    App.reverse_transfer App.open_account memory_IsEventStore
program = tt

abbrev pub stamp : String → Stamp
stamp id = record { id = id; now = 7 }

abbrev pub alice_opened : Event
alice_opened =
    new_event (stamp "e1") "alice" 1 EventType.account_opened
      (Payload.opened (record { owner = "Alice" }))

abbrev pub alice_deposit : Event
alice_deposit =
    new_event (stamp "e2") "alice" 2 EventType.money_deposited
      (Payload.deposited (record { amount = pos 100; description = "initial deposit" }))

abbrev pub alice_stream : List Event
alice_stream = record alice_opened { seq = 1 } ∷ record alice_deposit { seq = 2 } ∷ []

abbrev pub alice : Account.Account
alice = record { id = "alice"; owner = "Alice"; balance = pos 100; is_open = true; version = 2 }

abbrev pub bank : Memory
bank = record {
  streams = put (λ id. []) "alice" alice_stream;
  log = alice_stream;
  seq = 2;
  marks = λ id. false;
}

abbrev pub world : World memory_store
world = record { store = bank; published = [] }

abbrev pub quiet : ℕ → Turn memory_store
quiet k = record {
  stamp = stamp "q";
  before_append = λ w. w;
  before_publish = λ w. w;
  during_backoff = λ w. w;
  cancelled = none;
}

pub quiet-IsTurn : (k : ℕ) → IsTurn memory_IsEventStore (quiet k)
quiet-IsTurn k = record {
  appending = quiet-IsTraffic memory_IsEventStore;
  publishing = quiet-IsTraffic memory_IsEventStore;
  waiting = quiet-IsTraffic memory_IsEventStore;
}

pub world-IsLedger : IsLedger memory_IsEventStore world
unfolding program
world-IsLedger = record {
  valid =
      put_all (λ id xs. IsNumbered id 1 xs) (λ id. []) "alice" alice_stream
        (refl, refl, (refl, refl, tt)) (λ j ne. tt);
  accounts =
      put_all IsAccountStream (λ id. []) "alice" alice_stream
        (inr (
          alice,
          record {
            replayed = refl;
            sound = omega arith;
            version = refl;
            own = refl;
            is_open = refl;
          },
        ))
        (λ j ne. inl refl);
}
