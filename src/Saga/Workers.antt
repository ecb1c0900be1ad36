-- ===== src/Saga/Workers.antt =====
-- internal/saga/transfer.go: the queue of the saga and its workers, as the steps that the handler of
-- the bus, CatchUp, the workers and Close take, in any order. What a worker does with a debit is
-- `process` of the parent; here it begins and ends. The channel is a list of at most `capacity` events.
pub mod Finished
use eventledger.Prelude.{
  ℕ, suc, ◌<◌, ◌≡◌, ◌≢◌, refl, sym, ap, ◌∙◌, Bool, true, false, List, [], ◌∷◌, ◌++◌, ◌==◌, length,
  if◌then◌else◌, ltb, ◌⊎◌, inl, inr, arith, subst,
}
use native.Mathlib.Decide.{ℕ_discrete}
use mathlib.Core.List.{append_assoc, append-nil}
use eventledger.Domain.Events.{Event, EventType, type_eq}

-- Where a worker stands: not started, at the receive of its loop, in `process`, or returned.
pub data Worker : Type 0 where
  absent receiving exited : Worker
  processing : Event → Worker

-- The queue and whether it is closed, the workers, and the history: the debits put into the queue,
-- those taken out, and those whose `process` has ended.
pub record Pool : Type 0 where
  pub queue : List Event
  pub is_closed : Bool
  pub workers : ℕ → Worker
  pub queued : List Event
  pub taken : List Event
  pub finished : List Event

-- New
abbrev pub new_pool : Pool
new_pool = record {
  queue = [];
  is_closed = false;
  workers = λ i. absent;
  queued = [];
  taken = [];
  finished = [];
}

abbrev pub put_worker : Pool → ℕ → Worker → ℕ → Worker
put_worker p i w j = if i == j then w else p.workers j

-- The send of Handle and of CatchUp.
abbrev pub enqueue : Event → Pool → Pool
enqueue e p = record p { queue = p.queue ++ e ∷ []; queued = p.queued ++ e ∷ [] }

-- Start
abbrev pub start_workers : ℕ → Pool → Pool
start_workers workers p = record p { workers = λ i. if ltb i workers then receiving else absent }

-- The receive of a worker.
abbrev pub receive : ℕ → Event → List Event → Pool → Pool
receive i e rest p = record p {
  queue = rest;
  workers = put_worker p i (processing e);
  taken = p.taken ++ e ∷ [];
}

-- The return of `process`.
abbrev pub finish_process : ℕ → Event → Pool → Pool
finish_process i e p = record p {
  workers = put_worker p i receiving;
  finished = p.finished ++ e ∷ [];
}

abbrev pub exit_worker : ℕ → Pool → Pool
exit_worker i p = record p { workers = put_worker p i exited }

-- Start is called once. A send to a closed queue panics and has no step; a worker's loop ends when the
-- queue is closed and empty.
pub data Step (workers capacity : ℕ) : Pool → Pool → Type 0 where
  starts :
      {p : Pool}
      → ((i : ℕ) → p.workers i ≡ absent)
      → Step workers capacity p (start_workers workers p)
  handles :
      {p : Pool} (e : Event)
      → type_eq e.type EventType.transfer_debited ≡ true
      → p.is_closed ≡ false
      → length p.queue < capacity
      → Step workers capacity p (enqueue e p)
  resumes :
      {p : Pool} (e : Event)
      → p.is_closed ≡ false
      → length p.queue < capacity
      → Step workers capacity p (enqueue e p)
  receives :
      {p : Pool} (i : ℕ) (e : Event) (rest : List Event)
      → p.workers i ≡ receiving
      → p.queue ≡ e ∷ rest
      → Step workers capacity p (receive i e rest p)
  finishes :
      {p : Pool} (i : ℕ) (e : Event)
      → p.workers i ≡ processing e
      → Step workers capacity p (finish_process i e p)
  closes : {p : Pool} → Step workers capacity p (record p { is_closed = true })
  exits :
      {p : Pool} (i : ℕ)
      → p.workers i ≡ receiving
      → p.is_closed ≡ true
      → p.queue ≡ []
      → Step workers capacity p (exit_worker i p)

pub data Reaches (workers capacity : ℕ) : Pool → Pool → Type 0 where
  done : {p : Pool} → Reaches workers capacity p p
  next :
      {p q r : Pool}
      → Reaches workers capacity p q
      → Step workers capacity q r
      → Reaches workers capacity p r
