-- ===== src/Eventstore/Postgres/Grown.antt =====
-- The streams in the tables of internal/eventstore/postgres.go after a batch of events.
use native.Mathlib.Decide.{dec_lt}
use eventledger.Prelude.{
  ℕ, ◌+◌, ◌≤◌, ◌<◌, ◌≡◌, ◌≢◌, ap, ◌∙◌, Bool, true, false, String, List, [], ◌∷◌, ◌++◌, length,
  arith, eq_iff,
}
use mathlib.Core.List.{append-nil}
use eventledger.Domain.Events.{Event}
use eventledger.Eventstore.Port.{IsNumbered}
use eventledger.Eventstore.Memory.{select}
use eventledger.Eventstore.Memory.Coherent.{belongs, select-append, select_own, select_others}
use eventledger.Eventstore.Postgres.Rows.{EventTables, any_event, clashes}
use eventledger.Eventstore.Postgres.Insert.{IsGrown}
use eventledger.Eventstore.Postgres.Stored.{stream, IsStored}

-- A stream that is numbered has an event of every version up to its length.
numbered_clash :
    (id : String) (w : ℕ) (xs : List Event) (e : Event)
    → IsNumbered id w xs
    → e.aggregate_id ≡ id
    → w ≤ e.version
    → e.version < w + length xs
    → any_event (clashes e) xs ≡ true
unfolding any_event
numbered_clash id w [] e h here l k = absurd (omega arith)
numbered_clash id w (x ∷ xs) e h here l k = elim (dec_lt w e.version) [
  | yes m ↦ ground (arith, numbered_clash id (w + 1) xs e h.2 here (omega arith) (omega arith))
  | no m ↦ ground (arith, eq_iff x.aggregate_id e.aggregate_id, h.0, h.1, here)
]

any_event-select :
    (p q : Event → Bool) (xs : List Event)
    → any_event p (select q xs) ≡ true
    → any_event p xs ≡ true
unfolding any_event select
any_event-select p q [] h = h
any_event-select p q (x ∷ xs) h = ground (arith, any_event-select p q xs)

-- Below its length a stream leaves no version free.
pub clash_below :
    (t : EventTables) (id : String) (v : ℕ) (e : Event)
    → IsNumbered id 1 (stream t id)
    → v < length (stream t id)
    → e.aggregate_id ≡ id
    → e.version ≡ v + 1
    → any_event (clashes e) t.events ≡ true
clash_below t id v e h low here next =
    any_event-select (clashes e) (belongs id) t.events
      (numbered_clash id 1 (stream t id) e h here (omega arith) (omega arith))

pub fresh_version :
    (t : EventTables) (id : String) (v : ℕ) (e : Event)
    → IsStored t
    → v ≤ length (stream t id)
    → e.aggregate_id ≡ id
    → e.version ≡ v + 1
    → any_event (clashes e) t.events ≡ false
    → length (stream t id) ≡ v
fresh_version t id v e h low here next fresh = elim (dec_lt v (length (stream t id))) [
  | no m ↦ omega arith
  | yes m ↦ absurd (cc (fresh, clash_below t id v e (h.indexed id) m here next))
]

-- The streams after a transaction that has been committed.
pub stream_own :
    (id : String) (v : ℕ) (es : List Event) (t u : EventTables)
    → (g : IsGrown id v es t u) → stream u id ≡ stream t id ++ g.fs
stream_own id v es t u g =
    ap (select (belongs id)) g.events
    ∙ select-append (belongs id) t.events g.fs
    ∙ ap (λ l. stream t id ++ l) (select_own id v g.fs g.numbered)

pub stream_other :
    (id j : String) (v : ℕ) (es : List Event) (t u : EventTables)
    → IsGrown id v es t u
    → j ≢ id
    → stream u j ≡ stream t j
stream_other id j v es t u g ne =
    ap (select (belongs j)) g.events
    ∙ select-append (belongs j) t.events g.fs
    ∙ ap (λ l. stream t j ++ l) (select_others id j v g.fs ne g.numbered)
    ∙ append-nil (stream t j)
