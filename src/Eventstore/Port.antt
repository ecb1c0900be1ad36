-- ===== src/Eventstore/Port.antt =====
-- internal/eventstore/store.go: the interface Store as a record of operations on a state, and what a
-- client of it relies on.
use eventledger.Prelude.{ℕ, ◌+◌, ◌≤◌, ◌≡◌, ◌≢◌, Bool, String, List, [], ◌∷◌, ◌++◌, length}
use eventledger.Domain.Errors.{Result, Error, ok, err}
use eventledger.Domain.Events.{Event, EventType}
use eventledger.Domain.Account.{Account, blank, replay}

-- A call that only reads leaves the state alone. The context of a call, which can only make it fail,
-- is part of the state.
pub record Store : Type 1 where
  pub State : Type 0
  pub append : String → ℕ → List Event → State → Result (Unit {0}) × State
  pub load : String → State → Result Account
  pub load_unprocessed : State → Result (List Event)
  pub pending_transfer_debits : State → Result (List Event)
  pub has_transfer_event : EventType → String → State → Result Bool
  pub events_by_aggregate : String → State → Result (List Event)

-- The same events, but for the global order that the store assigns.
abbrev pub IsRecorded : List Event → List Event → Type 0
IsRecorded [] [] = Unit
IsRecorded (e ∷ es) (f ∷ fs) = (f ≡ record e { seq = f.seq }) × IsRecorded es fs
IsRecorded es fs = ⊥

-- The first stream is a beginning of the second.
abbrev pub IsPrefix : List Event → List Event → Type 0
IsPrefix xs ys = (zs : List Event) × (ys ≡ xs ++ zs)

-- Every event belongs to the stream, and the versions count on from the given one.
abbrev pub IsNumbered : String → ℕ → List Event → Type 0
IsNumbered id v [] = Unit
IsNumbered id v (e ∷ es) = (e.aggregate_id ≡ id) × (e.version ≡ v) × IsNumbered id (v + 1) es

-- What Append and Load promise, over the streams that a state holds. `Valid` is the invariant of the
-- implementation. The promise to refuse a version other than that of the stream, and to keep the
-- invariant, is for callers that name no version above that of the stream: all callers take it from
-- an earlier load, or start a stream.
pub record IsEventStore (st : Store) : Type 1 where
  pub stream : st.State → String → List Event
  pub Valid : st.State → Type 0
  pub append-Valid :
      (s : st.State) (id : String) (v : ℕ) (es : List Event)
      → Valid s
      → v ≤ length (stream s id)
      → Valid (st.append id v es s).1
  pub append_expected :
      (s : st.State) (id : String) (v : ℕ) (e : Event) (es : List Event)
      → Valid s
      → v ≤ length (stream s id)
      → (st.append id v (e ∷ es) s).0 ≡ ok tt
      → length (stream s id) ≡ v
  pub append_ok :
      (s : st.State) (id : String) (v : ℕ) (es : List Event)
      → (st.append id v es s).0 ≡ ok tt
      → ((fs : List Event) × (stream (st.append id v es s).1 id ≡ stream s id ++ fs)
          × IsRecorded es fs)
        × ((j : String) → j ≢ id → stream (st.append id v es s).1 j ≡ stream s j)
  pub append_err :
      (s : st.State) (id : String) (v : ℕ) (es : List Event) (x : Error)
      → (st.append id v es s).0 ≡ err x
      → (j : String) → stream (st.append id v es s).1 j ≡ stream s j
  pub load_ok :
      (s : st.State) (id : String) (a : Account)
      → Valid s
      → st.load id s ≡ ok a
      → (stream s id ≢ [])
        × (replay blank (stream s id) ≡ ok a)
        × (a.version ≡ length (stream s id))
