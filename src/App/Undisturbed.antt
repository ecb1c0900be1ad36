-- ===== src/App/Undisturbed.antt =====
-- `mutate` of internal/app/app.go over the store in memory while nobody else runs.
use eventledger.Prelude.{
  ℕ, suc, ◌+◌, ◌≡◌, sym, ap, ◌≢◌, String, List, [], ◌∷◌, ◌++◌, Option, length, arith, eq_iff, subst,
  inl, inr, ◌∙◌,
}
use eventledger.Domain.Errors.{Error, Result, ok, err, ◌>>=◌, Result-cases}
use eventledger.Domain.Events.{Event, Stamp, new_event}
use eventledger.Domain.Account.{Account, blank, replay}
use eventledger.Domain.Decide.{Command, decide, decide-event_of}
use eventledger.Eventstore.Memory.{Memory, memory_store, put, append, append_from, load}
use eventledger.Eventstore.Memory.Contract.{memory_IsEventStore, load-replay}
use eventledger.App.{World, Turn, Round, returns, mutate, mutate_from, once, publish}
use eventledger.App.Extends.{Replays, IsAccountStream, IsLedger}

-- A turn in which nobody else takes a step.
abbrev pub still : Stamp → Option Error → Turn memory_store
still s cancelled = record {
  stamp = s;
  before_append = λ w. w;
  before_publish = λ w. w;
  during_backoff = λ w. w;
  cancelled = cancelled;
}

-- The store with one more event.
abbrev pub recorded : Event → Memory → Event
recorded e s = record e { seq = suc s.seq }

abbrev pub extend : String → Event → Memory → Memory
extend id e s = record s {
  streams = put s.streams id (s.streams id ++ recorded e s ∷ []);
  log = s.log ++ recorded e s ∷ [];
  seq = suc s.seq;
}

abbrev pub commit : String → Event → World memory_store → World memory_store
commit id e w = record { store = extend id e w.store; published = w.published ++ e ∷ [] }

append_one :
    (id : String) (v : ℕ) (e : Event) (s : Memory)
    → length (s.streams id) ≡ v
    → e.aggregate_id ≡ id
    → e.version ≡ v + 1
    → append id v (e ∷ []) s ≡ (ok tt, extend id e s)
unfolding append append_from
append_one id v e s expected here next = ground (arith, eq_iff e.aggregate_id id)

-- An account that is loaded from a ledger in order is that of its stream.
pub load-Replays :
    (w : World memory_store) (id : String) (a : Account)
    → IsLedger memory_IsEventStore w
    → load id w.store ≡ ok a
    → Replays id (w.store.streams id) a
unfolding memory_IsEventStore
load-Replays w id a h loaded =
    let (some_event, replayed, version) = load-replay w.store id a h.valid loaded in
    known (h.accounts id) some_event replayed
  where
    known :
        {xs : List Event}
        → IsAccountStream id xs
        → xs ≢ []
        → replay blank xs ≡ ok a
        → Replays id xs a
    known (inl empty) ne q = absurd (ne empty)
    known (inr (b, r)) ne q = subst (Replays id _) (cc (q, r.replayed)) r

abbrev pub concluded :
    String → World memory_store → Result Event → Result (Unit {0}) × World memory_store
concluded id w (err x) = (err x, w)
concluded id w (ok e) = (ok tt, commit id e w)

append_decided :
    (id : String) (c : Command) (s : Stamp) (a : Account) (e : Event) (m : Memory)
    → Replays id (m.streams id) a
    → decide c s a ≡ ok e
    → append id a.version (e ∷ []) m ≡ (ok tt, extend id e m)
unfolding new_event
append_decided id c s a e m r d =
    let same = decide-event_of c s a d in
    append_one id a.version e m (sym r.version) (ap (λ f. f.aggregate_id) same ∙ r.own)
      (ap (λ f. f.version) same)

abbrev ended : Result (Unit {0}) × World memory_store → Round × World memory_store
ended (r, w) = (returns r, w)

once_undisturbed :
    (s : Stamp) (cancelled : Option Error) (id : String) (c : Command) (w : World memory_store)
    → IsLedger memory_IsEventStore w
    → once memory_store (still s cancelled) id (λ t a. decide c t a) w
      ≡ ended (concluded id w (load id w.store >>= λ a. decide c s a))
unfolding once publish
once_undisturbed s cancelled id c w h = elim (Result-cases (load id w.store)) [
  | inl (x, p) ↦ rw (p, once)
  | inr (a, p) ↦ elim (Result-cases (decide c s a)) [
    | inl (x, q) ↦ rw (p, q, once)
    | inr (e, q) ↦
        rw (p, q, once) (rw (append_decided id c s a e w.store (load-Replays w id a h p) q))
  ]
]

-- Undisturbed, a command on a ledger in order fails exactly where the load or the decision does, and
-- then changes nothing; else its event is recorded and published once, in the first round.
pub mutate_undisturbed :
    (stamps : ℕ → Stamp) (cancelled : ℕ → Option Error) (id : String) (c : Command)
    (w : World memory_store)
    → IsLedger memory_IsEventStore w
    → mutate memory_store (λ k. still (stamps k) (cancelled k)) id (λ s a. decide c s a) w
      ≡ concluded id w (load id w.store >>= λ a. decide c (stamps 0) a)
unfolding mutate mutate_from
mutate_undisturbed stamps cancelled id c w h =
    let first = once_undisturbed (stamps 0) (cancelled 0) id c w h in
    rw (first, mutate_from) (rw first)
