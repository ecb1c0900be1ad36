-- ===== src/App.antt =====
-- internal/app/app.go over any implementation of the port Store. What other goroutines do while a
-- call waits is a function on the world, one for each place where the call lets them run.
pub mod Extends
pub mod Grow
pub mod Append
pub mod Mutate
pub mod Loop
pub mod Ledger
pub mod Success
pub mod Undisturbed
use eventledger.Prelude.{
  ℕ, zero, suc, Bool, true, false, ◌≡◌, String, List, [], ◌∷◌, ◌++◌, Option, none, some,
  if◌then◌else◌,
}
use eventledger.Prelude.Int.{ℤ, pos, ltb_ℤ}
use eventledger.Domain.Errors.{
  Sentinel, Error, Result, ok, err, fail, fail_if, is, within, ◌>>=◌, ◌>>◌,
}
use eventledger.Domain.Events.{Event, EventType, Stamp}
use eventledger.Domain.Account.{Account, blank, replay}
use eventledger.Domain.Account
use eventledger.Eventstore.Port.{Store}

-- maxRetries
abbrev pub max_retries : ℕ
max_retries = 5

module _ (st : Store) where
  -- The store, and the events that have been handed to the bus, in order.
  pub record World : Type 0 where
    pub store : st.State
    pub published : List Event

-- What one round of the loop of `mutate` meets: the id and the time of its event, the steps of others
-- between its load and its append, between its append and its publication, and during its back-off,
-- and the error of the context if that is done by then.
pub record Turn (st : Store) : Type 0 where
  pub stamp : Stamp
  pub before_append : World st → World st
  pub before_publish : World st → World st
  pub during_backoff : World st → World st
  pub cancelled : Option Error

-- How one round ends.
pub data Round : Type 0 where
  returns : Result (Unit {0}) → Round
  retries : Round

module _ (st : Store) where
  -- The loop of publish.
  unfoldable pub publish : List Event → World st → World st
  publish [] w = w
  publish (e ∷ events) w = publish events (record w { published = w.published ++ e ∷ [] })

  abbrev pub append_to : String → ℕ → List Event → World st → Result (Unit {0}) × World st
  append_to id version events w =
      let (r, s) = st.append id version events w.store in (r, record w { store = s })

  -- The select on the timer and the context, after the steps of others.
  abbrev pub waited : Option Error → World st → Round × World st
  waited none w = (retries, w)
  waited (some e) w = (returns (err e), w)

  abbrev pub back_off : Turn st → World st → Round × World st
  back_off t w = waited t.cancelled (t.during_backoff w)

  -- What follows the append of `e`.
  abbrev pub after_append : Turn st → Event → Result (Unit {0}) × World st → Round × World st
  after_append t e (ok x, w) = (returns (ok tt), publish (e ∷ []) (t.before_publish w))
  after_append t e (err x, w) =
      if is x Sentinel.concurrency then back_off t w else (returns (err x), w)

  -- One round: load, decide, append.
  unfoldable pub once :
      Turn st → String → (Stamp → Account → Result Event) → World st → Round × World st
  once t id decide w = elim (st.load id w.store) [
    | err x ↦ (returns (err x), w)
    | ok a ↦ elim (decide t.stamp a) [
      | err x ↦ (returns (err x), w)
      | ok e ↦ after_append t e (append_to id a.version (e ∷ []) (t.before_append w))
    ]
  ]

  -- The loop, with the number of rounds that are left; `turns` gives the rounds that are to come.
  unfoldable pub mutate_from :
      ℕ
      → (ℕ → Turn st)
      → String
      → (Stamp → Account → Result Event)
      → World st
      → Result (Unit {0}) × World st
  mutate_from zero turns id decide w = (fail Sentinel.too_many_conflicts, w)
  mutate_from (suc left) turns id decide w =
      let (round, w') = once (turns 0) id decide w in
      elim round [
        | returns r ↦ (r, w')
        | retries ↦ mutate_from left (λ k. turns (suc k)) id decide w'
      ]

  unfoldable pub mutate :
      (ℕ → Turn st)
      → String
      → (Stamp → Account → Result Event)
      → World st
      → Result (Unit {0}) × World st
  mutate = mutate_from max_retries

  unfoldable pub deposit :
      (ℕ → Turn st) → String → ℤ → String → World st → Result (Unit {0}) × World st
  deposit turns id amount description =
      mutate turns id (λ s a. Account.deposit s amount description a)

  unfoldable pub withdraw :
      (ℕ → Turn st) → String → ℤ → String → World st → Result (Unit {0}) × World st
  withdraw turns id amount description =
      mutate turns id (λ s a. Account.withdraw s amount description a)

  abbrev with_id : String → Result (Unit {0}) × World st → Result String × World st
  with_id id (ok x, w) = (ok id, w)
  with_id id (err x, w) = (err x, w)

  -- StartTransfer; `transfer_id` is the new id.
  unfoldable pub start_transfer :
      (ℕ → Turn st) → String → String → String → ℤ → World st → Result String × World st
  start_transfer turns transfer_id from to amount w =
      with_id transfer_id
        (mutate turns from (λ s a. Account.debit_transfer s transfer_id to amount a) w)

  -- A command that is skipped if the transfer already has an event of the type. Others take their
  -- steps, `checked`, between the test and the command.
  abbrev pub unless_done :
      Result Bool
      → (World st → World st)
      → (World st → Result (Unit {0}) × World st)
      → World st
      → Result (Unit {0}) × World st
  unless_done (err x) checked command w = (err x, w)
  unless_done (ok true) checked command w = (ok tt, w)
  unless_done (ok false) checked command w = command (checked w)

  unfoldable pub credit_transfer :
      (World st → World st)
      → (ℕ → Turn st)
      → String
      → String
      → String
      → ℤ
      → World st
      → Result (Unit {0}) × World st
  credit_transfer checked turns to transfer_id from amount w =
      unless_done (st.has_transfer_event EventType.transfer_credited transfer_id w.store) checked
        (mutate turns to (λ s a. Account.credit_transfer s transfer_id from amount a)) w

  unfoldable pub reverse_transfer :
      (World st → World st)
      → (ℕ → Turn st)
      → String
      → String
      → ℤ
      → String
      → World st
      → Result (Unit {0}) × World st
  reverse_transfer checked turns from transfer_id amount reason w =
      unless_done (st.has_transfer_event EventType.transfer_reversed transfer_id w.store) checked
        (mutate turns from (λ s a. Account.reverse_transfer s transfer_id amount reason a)) w

-- The part of OpenAccount under `if initialDeposit > 0`.
with_deposit : Stamp → ℤ → Event → Result (List Event)
with_deposit s initial_deposit opened = do
  acc ← replay blank (opened ∷ [])
  dep ← Account.deposit s initial_deposit "initial deposit" acc
  ok (opened ∷ dep ∷ [])

-- The events of OpenAccount: the opening, and a deposit if there is one.
unfoldable pub opening : Stamp → Stamp → String → String → ℤ → Result (List Event)
unfolding with_deposit
opening s s' id owner initial_deposit = do
  fail_if (ltb_ℤ initial_deposit (pos 0)) Sentinel.invalid_amount
  opened ← Account.open_account s id owner
  (if ltb_ℤ (pos 0) initial_deposit
      then with_deposit s' initial_deposit opened
      else ok (opened ∷ []))

module _ (st : Store) where
  abbrev opened_as :
      String
      → (World st → World st)
      → List Event
      → Result (Unit {0}) × World st
      → Result String × World st
  opened_as id before_publish events (ok x, w) = (ok id, publish st events (before_publish w))
  opened_as id before_publish events (err x, w) = (err (Error.wrapped "open account" x), w)

  -- OpenAccount; `id` is the new id.
  unfoldable pub open_account :
      Stamp
      → Stamp
      → (World st → World st)
      → String
      → String
      → ℤ
      → World st
      → Result String × World st
  unfolding opening
  open_account s s' before_publish id owner initial_deposit w =
      elim (opening s s' id owner initial_deposit) [
        | err x ↦ (err x, w)
        | ok events ↦ opened_as id before_publish events (append_to st id 0 events w)
      ]
