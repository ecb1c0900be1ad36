-- ===== src/Eventstore/Postgres/Accept.antt =====
-- Append of internal/eventstore/postgres.go on batches that the table takes, against Append of the store
-- in memory.
use native.Mathlib.Decide.{dec_lt}
use eventledger.Prelude.{
  ℕ, ◌+◌, ◌≤◌, ◌<◌, ◌≡◌, ◌↔◌, refl, sym, ap, ◌∙◌, Bool, true, String, List, [], ◌∷◌, ◌++◌, length,
  arith, subst, eq_iff, str_eq, inl, inr, ◌==◌,
}
use eventledger.Prelude.Int.{half_range}
use eventledger.Domain.Errors.{Sentinel, ok, fail}
use eventledger.Domain.Events.{Event}
use eventledger.Database.{exec, call}
use eventledger.Eventstore.Port.{IsNumbered, IsRecorded}
use eventledger.Eventstore.Memory
use eventledger.Eventstore.Memory.{select}
use eventledger.Eventstore.Memory.Lock.{append_batch}
use eventledger.Eventstore.Postgres.{insert_all, append_rows, append}
use eventledger.Eventstore.Postgres.Rows.{EventTables}
use eventledger.Eventstore.Postgres.Stored.{stream, IsStored}
use eventledger.Eventstore.Postgres.Grown.{clash_below}
use eventledger.Eventstore.Postgres.Load.{memory_of}
use eventledger.Eventstore.Postgres.Contract.{append_ok}
use eventledger.Eventstore.Postgres.Queries.{database}
use eventledger.Eventstore.Postgres.Fresh.{
  no_clash, IsInsertable, insert_event_fresh, insert_all_accepts, insert_all_refuses,
}

last_version-IsRecorded :
    (id : String) (w : ℕ) (xs : List Event) (e : Event) (fs : List Event)
    → IsRecorded (e ∷ []) fs
    → IsNumbered id w (xs ++ fs)
    → e.version ≡ w + length xs
last_version-IsRecorded id w [] e [] r n = elim r [ ]
last_version-IsRecorded id w [] e (f ∷ fs) r n = sym (ap (λ g. g.version) r.0) ∙ n.1 ∙ omega arith
last_version-IsRecorded id w (x ∷ xs) e fs r n =
    last_version-IsRecorded id (w + 1) xs e fs r n.2 ∙ omega arith

module _ (is_uuid : String → Bool) where
  -- For a batch with the versions that follow the given one, which the columns take, and an expected
  -- version not above that of the stream, Append answers as the store in memory does that holds the
  -- same events, where the database answers all calls: it succeeds at the version of the stream, and
  -- returns ErrConcurrency below it.
  pub append-memory_of :
      (id : String) (v : ℕ) (e : Event) (es : List Event) (t : EventTables)
      → IsStored t
      → is_uuid id ≡ true
      → IsNumbered id (v + 1) (e ∷ es)
      → IsInsertable is_uuid (e ∷ es) t
      → v + length (e ∷ es) < half_range
      → v ≤ length (stream t id)
      → ((append is_uuid id v (e ∷ es) (database t)).0
          ≡ (Memory.append id v (e ∷ es) (memory_of t)).0)
        × ((length (stream t id) ≡ v) ↔ ((append is_uuid id v (e ∷ es) (database t)).0 ≡ ok tt))
  unfolding append append_rows call exec
  append-memory_of id v e es t h valid n own small low =
      elim (append_batch id v (e ∷ es) (memory_of t) n) [
        | inl (start, done, grown) ↦
            let (u, stored) =
              insert_all_accepts is_uuid id v (e ∷ es) t valid n small own (h.indexed id) start in
            let accepted : (append is_uuid id v (e ∷ es) (database t)).0 ≡ ok tt = rw stored refl in
            (accepted ∙ sym done, ((λ p. accepted), (λ p. start)))
        | inr (other, unchanged) ↦
            let below : v < length (stream t id) = elim (dec_lt v (length (stream t id))) [
              | yes m ↦ m
              | no m ↦ absurd (other (omega arith))
            ] in
            let stopped =
              insert_all_refuses is_uuid id v e es t valid n.0 n.1 (omega (arith, small)) own.0
                own.1 (clash_below t id v e (h.indexed id) below n.0 n.1) in
            let refused_here : (append is_uuid id v (e ∷ es) (database t)).0
                ≡ fail Sentinel.concurrency =
              rw stopped refl in
            (
              refused_here ∙ sym (ap (λ r. r.0) unchanged),
              ((λ p. absurd (other p)), (λ p. absurd (cc (p, refused_here)))),
            )
      ]

  gap_accepted :
      (id : String) (v : ℕ) (e : Event) (t : EventTables)
      → IsStored t
      → is_uuid id ≡ true
      → IsNumbered id (v + 1) (e ∷ [])
      → IsInsertable is_uuid (e ∷ []) t
      → v + 1 < half_range
      → length (stream t id) < v
      → (append is_uuid id v (e ∷ []) (database t)).0 ≡ ok tt
  unfolding append append_rows call exec insert_all
  gap_accepted id v e t h valid n own small high =
      let fresh = no_clash id 1 t.events e (h.indexed id) (omega (arith, high, n.1)) n.0 own.2 in
      let added = insert_event_fresh is_uuid id v e t valid n.0 n.1 small own.0 own.1 fresh in
      let same : str_eq e.aggregate_id id ≡ true = (eq_iff e.aggregate_id id).1 n.0 in
      let next : (e.version == v + 1) ≡ true = ground (arith, n.1) in rw (same, next, added) refl

  -- Above the version of the stream there is no lock: where the database answers all calls, a single
  -- event with the version after the expected one, which the columns take, is accepted, and leaves a
  -- gap in the numbers of its stream.
  pub append_gap :
      (id : String) (v : ℕ) (e : Event) (t : EventTables)
      → IsStored t
      → is_uuid id ≡ true
      → IsNumbered id (v + 1) (e ∷ [])
      → IsInsertable is_uuid (e ∷ []) t
      → v + 1 < half_range
      → length (stream t id) < v
      → ((append is_uuid id v (e ∷ []) (database t)).0 ≡ ok tt)
        × (IsNumbered id 1 (stream (append is_uuid id v (e ∷ []) (database t)).1.tables id) → ⊥)
  append_gap id v e t h valid n own small high =
      let done = gap_accepted id v e t h valid n own small high in
      let ((fs, streams, same), others) = append_ok is_uuid id v (e ∷ []) (database t) done in
      (
        done,
        λ numbered. absurd (
            omega (
              arith,
              last_version-IsRecorded id 1 (stream t id) e fs same
                  (subst (IsNumbered id 1) streams numbered),
              n.1,
              high,
            )),
      )
