-- ===== src/Bus.antt =====
-- internal/bus/bus.go: the bus in memory as the steps that its callers and its workers take, in any
-- order. The hash of an aggregate's id (fnv) is a parameter, the channels are lists of at most
-- `buffer` events, and a panic has no step.
pub mod Backlog
pub mod Order
pub mod Drain
pub mod Shutdown
use Prim.Native.Nat.{◌%◌}
use eventledger.Prelude.{
  ℕ, suc, ◌<◌, ◌≡◌, Bool, true, false, String, List, [], ◌∷◌, ◌++◌, ◌==◌, length, if◌then◌else◌,
  ltb,
}
use eventledger.Domain.Events.{Event}

-- The two loops of a worker: that over both channels, and the drain of what is left.
pub data Loop : Type 0 where
  serving draining : Loop

-- Where the worker of a partition stands: not started, at the select of a loop, in the loop of
-- `deliver` before the handler of a number, or returned.
pub data Worker : Type 0 where
  absent exited : Worker
  selecting : Loop → Worker
  delivering : Loop → ℕ → Event → Worker

-- The fields of InMemory, with the handlers by their number, where the workers stand, and the
-- history: the events put into a channel, those of them before `done` was closed, and those that each
-- handler was called with.
pub record Bus : Type 0 where
  pub partitions : ℕ → List Event
  pub handlers : ℕ
  pub is_started : Bool
  pub is_done : Bool
  pub workers : ℕ → Worker
  pub accepted : List Event
  pub early : List Event
  pub received : ℕ → List Event

-- NewInMemory
abbrev pub new_in_memory : Bus
new_in_memory = record {
  partitions = λ i. [];
  handlers = 0;
  is_started = false;
  is_done = false;
  workers = λ i. absent;
  accepted = [];
  early = [];
  received = λ h. [];
}

abbrev pub replace : {A : Type 0} → (ℕ → A) → ℕ → A → ℕ → A
replace m i a j = if i == j then a else m j

module _ (hash : String → ℕ) (partitions buffer : ℕ) where
  -- The partition of an aggregate.
  abbrev pub index : String → ℕ
  index id = hash id % partitions

  -- The send of Publish.
  abbrev pub send : Event → Bus → Bus
  send e b =
      let i = index e.aggregate_id in
      record b {
        partitions = replace b.partitions i (b.partitions i ++ e ∷ []);
        accepted = b.accepted ++ e ∷ [];
        early = if b.is_done then b.early else b.early ++ e ∷ [];
      }

  -- Subscribe
  abbrev pub subscribe : Bus → Bus
  subscribe b = record b { handlers = suc b.handlers }

  -- Start
  abbrev pub start : Bus → Bus
  start b = record b {
    is_started = true;
    workers = λ i. if ltb i partitions then selecting serving else absent;
  }

  abbrev pub move : ℕ → Worker → Bus → Bus
  move i w b = record b { workers = replace b.workers i w }

  -- The receive of a worker.
  abbrev pub take : ℕ → Loop → Event → List Event → Bus → Bus
  take i loop e rest b = record b {
    partitions = replace b.partitions i rest;
    workers = replace b.workers i (delivering loop 0 e);
  }

  -- The call of a handler in `deliver`.
  abbrev pub hand : ℕ → Loop → ℕ → Event → Bus → Bus
  hand i loop k e b = record b {
    workers = replace b.workers i (delivering loop (suc k) e);
    received = replace b.received k (b.received k ++ e ∷ []);
  }

  -- signalDone
  abbrev pub signal_done : Bus → Bus
  signal_done b = record b { is_done = true }

  -- Subscribe panics after Start, and Start is called once. Publish either sends, while there is room,
  -- or gives the event up, once `done` is closed. A worker takes the first event of its partition in
  -- both of its loops, calls the handlers one after the other, leaves the first loop for the second
  -- once `done` is closed, and the second one when it finds its partition empty.
  pub data Step : Bus → Bus → Type 0 where
    subscribes : {b : Bus} → b.is_started ≡ false → Step b (subscribe b)
    starts : {b : Bus} → b.is_started ≡ false → Step b (start b)
    publishes :
        {b : Bus} (e : Event)
        → length (b.partitions (index e.aggregate_id)) < buffer
        → Step b (send e b)
    drops : {b : Bus} (e : Event) → b.is_done ≡ true → Step b b
    takes :
        {b : Bus} (i : ℕ) (loop : Loop) (e : Event) (rest : List Event)
        → b.workers i ≡ selecting loop
        → b.partitions i ≡ e ∷ rest
        → Step b (take i loop e rest b)
    hands :
        {b : Bus} (i : ℕ) (loop : Loop) (k : ℕ) (e : Event)
        → b.workers i ≡ delivering loop k e
        → k < b.handlers
        → Step b (hand i loop k e b)
    returns :
        {b : Bus} (i : ℕ) (loop : Loop) (k : ℕ) (e : Event)
        → b.workers i ≡ delivering loop k e
        → k ≡ b.handlers
        → Step b (move i (selecting loop) b)
    notices :
        {b : Bus} (i : ℕ)
        → b.workers i ≡ selecting serving
        → b.is_done ≡ true
        → Step b (move i (selecting draining) b)
    exits :
        {b : Bus} (i : ℕ)
        → b.workers i ≡ selecting draining
        → b.partitions i ≡ []
        → Step b (move i exited b)
    closes : {b : Bus} → Step b (signal_done b)

  pub data Reaches : Bus → Bus → Type 0 where
    done : {b : Bus} → Reaches b b
    next : {a b c : Bus} → Reaches a b → Step b c → Reaches a c
