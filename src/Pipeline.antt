-- ===== src/Pipeline.antt =====
-- internal/bus/bus.go and internal/saga/transfer.go together, while the program runs: the workers of
-- the bus hand debits to the queue of the saga, and the workers of the saga publish what their commands
-- record. A worker of the bus stands here before the handler of the saga, and the channels are lists.
pub mod Flood
pub mod Feed
pub mod Deadlock
use eventledger.Prelude.{
  ℕ, ◌<◌, ◌≡◌, ◌⊎◌, Bool, true, false, String, List, [], ◌∷◌, ◌++◌, ◌==◌, length, str_eq,
}
use eventledger.Domain.Errors.{ok}
use eventledger.Domain.Events.{
  Event, EventType, Payload, Stamp, TransferDebited, type_eq, new_event, unmarshal_transfer_debited,
}
use eventledger.Eventstore.Memory.{transfer_id_of, mentions}
use eventledger.Bus.{index, replace}

pub data BusWorker : Type 0 where
  selecting : BusWorker
  handling : Event → BusWorker

-- A worker of the saga waits for a debit, works on it, or is in Publish with the event that it recorded.
pub data SagaWorker : Type 0 where
  receiving : SagaWorker
  processing publishing : Event → SagaWorker

-- `recorded` are the events that the commands have appended to the store, the last one first, and
-- `waiting` those among them with which a command of the API stands before Publish.
pub record Pipeline : Type 0 where
  pub partitions : ℕ → List Event
  pub bus_workers : ℕ → BusWorker
  pub queue : List Event
  pub saga_workers : ℕ → SagaWorker
  pub recorded : List Event
  pub waiting : List Event

abbrev pub idle_pipeline : Pipeline
idle_pipeline = record {
  partitions = λ i. [];
  bus_workers = λ i. selecting;
  queue = [];
  saga_workers = λ j. receiving;
  recorded = [];
  waiting = [];
}

abbrev pub is_debit : Event → Bool
is_debit e = type_eq e.type EventType.transfer_debited

-- The event has an id that the other has not, and follows it if both are in one stream.
abbrev pub After : Event → Event → Type 0
After e r = (str_eq e.id r.id ≡ false) × (e.aggregate_id ≡ r.aggregate_id → r.version < e.version)

abbrev pub AfterAll : Event → List Event → Type 0
AfterAll e [] = Unit
AfterAll e (r ∷ recorded) = After e r × AfterAll e recorded

-- What a command of the API records: no outcome of a transfer, and a debit only with a new transfer id.
abbrev pub IsCommanded : Event → List Event → Type 0
IsCommanded e recorded =
    (type_eq e.type EventType.transfer_credited ≡ false)
    × (type_eq e.type EventType.transfer_reversed ≡ false)
    × (is_debit e ≡ true → mentions EventType.transfer_debited (transfer_id_of e) recorded ≡ false)

-- What ReverseTransfer decides for the debit.
abbrev pub IsReversal : Event → Event → Type 0
IsReversal e f =
    (p : TransferDebited) × (stamp : Stamp) × (version : ℕ) × (reason : String)
    × (unmarshal_transfer_debited e.payload ≡ ok p)
    × (f
        ≡ new_event stamp e.aggregate_id version EventType.transfer_reversed (
            Payload.reversed
              (record { transfer_id = p.transfer_id; amount = p.amount; reason = reason })))

-- What CreditTransfer decides for the debit.
abbrev pub IsCredit : Event → Event → Type 0
IsCredit e f =
    (p : TransferDebited) × (stamp : Stamp) × (version : ℕ) × (unmarshal_transfer_debited e.payload
      ≡ ok p)
    × (f
        ≡ new_event stamp p.to version EventType.transfer_credited (
            Payload.credited
              (record { transfer_id = p.transfer_id; from = e.aggregate_id; amount = p.amount })))

-- What a command of the saga records for a debit, if HasTransferEvent finds none.
abbrev pub IsOutcome : Event → Event → List Event → Type 0
IsOutcome e f recorded =
    (IsReversal e f ⊎ IsCredit e f) × (mentions f.type (transfer_id_of e) recorded ≡ false)

module _ (hash : String → ℕ) (partitions buffer capacity workers : ℕ) where
  abbrev pub place : Event → ℕ
  place e = index hash partitions buffer e.aggregate_id

  -- The append of a command.
  abbrev pub note : Event → Pipeline → Pipeline
  note e s = record s { recorded = e ∷ s.recorded }

  -- A command of the API has appended an event, and has yet to publish it.
  abbrev pub await : Event → Pipeline → Pipeline
  await e s = record s { recorded = e ∷ s.recorded; waiting = e ∷ s.waiting }

  abbrev pub put : Event → Pipeline → Pipeline
  put e s = record s {
    partitions = replace s.partitions (place e) (s.partitions (place e) ++ e ∷ []);
  }

  abbrev pub take : ℕ → Event → List Event → Pipeline → Pipeline
  take i e rest s = record s {
    partitions = replace s.partitions i rest;
    bus_workers = replace s.bus_workers i (handling e);
  }

  -- What Handle of the saga does with a debit.
  abbrev pub forward : ℕ → Event → Pipeline → Pipeline
  forward i e s = record s {
    bus_workers = replace s.bus_workers i selecting;
    queue = s.queue ++ e ∷ [];
  }

  abbrev pub release : ℕ → Pipeline → Pipeline
  release i s = record s { bus_workers = replace s.bus_workers i selecting }

  abbrev pub receive : ℕ → Event → List Event → Pipeline → Pipeline
  receive j e rest s = record s {
    queue = rest;
    saga_workers = replace s.saga_workers j (processing e);
  }

  abbrev pub turn : ℕ → SagaWorker → Pipeline → Pipeline
  turn j w s = record s { saga_workers = replace s.saga_workers j w }

  -- The steps while no context is done and `done` is open: commands append an event and publish it; the workers of the bus
  -- take events and hand them to the saga, which lets all but debits pass; the workers of the saga
  -- take debits, record an outcome or none, and publish it. Each send waits for room.
  pub data Step : Pipeline → Pipeline → Type 0 where
    appends :
        {s : Pipeline} (e : Event)
        → AfterAll e s.recorded
        → IsCommanded e s.recorded
        → Step s (await e s)
    publishes :
        {s : Pipeline} (before : List Event) (e : Event) (after : List Event)
        → s.waiting ≡ before ++ e ∷ after
        → length (s.partitions (place e)) < buffer
        → Step s (put e (record s { waiting = before ++ after }))
    takes :
        {s : Pipeline} (i : ℕ) (e : Event) (rest : List Event)
        → s.bus_workers i ≡ selecting
        → s.partitions i ≡ e ∷ rest
        → Step s (take i e rest s)
    passes :
        {s : Pipeline} (i : ℕ) (e : Event)
        → s.bus_workers i ≡ handling e
        → is_debit e ≡ false
        → Step s (release i s)
    forwards :
        {s : Pipeline} (i : ℕ) (e : Event)
        → s.bus_workers i ≡ handling e
        → is_debit e ≡ true
        → length s.queue < capacity
        → Step s (forward i e s)
    receives :
        {s : Pipeline} (j : ℕ) (e : Event) (rest : List Event)
        → j < workers
        → s.saga_workers j ≡ receiving
        → s.queue ≡ e ∷ rest
        → Step s (receive j e rest s)
    records :
        {s : Pipeline} (j : ℕ) (e f : Event)
        → s.saga_workers j ≡ processing e
        → AfterAll f s.recorded
        → IsOutcome e f s.recorded
        → Step s (turn j (publishing f) (note f s))
    gives_up :
        {s : Pipeline} (j : ℕ) (e : Event)
        → s.saga_workers j ≡ processing e
        → Step s (turn j receiving s)
    sends :
        {s : Pipeline} (j : ℕ) (f : Event)
        → s.saga_workers j ≡ publishing f
        → length (s.partitions (place f)) < buffer
        → Step s (turn j receiving (put f s))

  pub data Reaches : Pipeline → Pipeline → Type 0 where
    done : {s : Pipeline} → Reaches s s
    next : {s t u : Pipeline} → Reaches s t → Step t u → Reaches s u
