-- ===== src/Eventstore/Memory/Lock.antt =====
-- The optimistic lock of Memory.Append, and what a batch that is refused half-way leaves behind.
use eventledger.Prelude.{
  ℕ, ◌+◌, ◌≡◌, refl, sym, ap, ◌∙◌, ◌≢◌, ◌⊎◌, String, List, [], ◌∷◌, ◌++◌, length, length-append,
  arith, eq_iff, inl, inr, str_eq_ne, subst,
}
use native.Mathlib.Decide.{ℕ_discrete}
use eventledger.Domain.Errors.{Sentinel, Result, ok, fail}
use eventledger.Domain.Events.{Event}
use eventledger.Eventstore.Port.{IsRecorded, IsNumbered}
use eventledger.Eventstore.Streams.{length-IsRecorded}
use eventledger.Eventstore.Memory.{Memory, Appending, put, push, append_from, append}
use eventledger.Eventstore.Memory.Loop.{append_from-Appended}
use eventledger.Eventstore.Memory.Append.{begin, append-streams, append-Committed, put_self}

-- After a commit the stream has grown by the events of the batch.
length-append-streams :
    (id : String) (v : ℕ) (es : List Event) (s : Memory)
    → (append id v es s).0 ≡ ok tt
    → length ((append id v es s).1.streams id) ≡ v + length es
length-append-streams id v es s h =
    let (fs, streams, same, numbered) = append-streams id v es s h in
    rw streams (
      rw (put_self s.streams id (s.streams id ++ fs)) (
        omega (
          arith,
          length-append (s.streams id) fs,
          length-IsRecorded es fs same,
          (append-Committed id v es s h).expected,
        )))

refused_at :
    (id : String) (v : ℕ) (es : List Event) (s : Memory)
    → length (s.streams id) ≢ v
    → append id v es s ≡ (fail Sentinel.concurrency, s)
unfolding append
refused_at id v es s h = ground arith

-- Of two writers that expect the same version only one is let through: after a commit of at least one
-- event, any batch for the same version is refused, and changes nothing.
pub append_twice :
    (id : String) (v : ℕ) (e : Event) (es fs : List Event) (s : Memory)
    → (append id v (e ∷ es) s).0 ≡ ok tt
    → append id v fs (append id v (e ∷ es) s).1
      ≡ (fail Sentinel.concurrency, (append id v (e ∷ es) s).1)
append_twice id v e es fs s h =
    refused_at id v fs _ (λ p. absurd (omega (arith, length-append-streams id v (e ∷ es) s h)))

-- One round of the loop, on an event of the stream with the next version.
append_from-cons :
    (id : String) (want : ℕ) (e : Event) (es : List Event) (w : Appending)
    → e.aggregate_id ≡ id
    → e.version ≡ want
    → append_from id want (e ∷ es) w ≡ append_from id (want + 1) es (push e w)
unfolding append_from
append_from-cons id want e es w here next = ground (arith, eq_iff e.aggregate_id id)

append_from_total :
    (id : String) (want : ℕ) (es : List Event) (w : Appending)
    → IsNumbered id want es
    → (append_from id want es w).0 ≡ ok tt
unfolding append_from
append_from_total id want [] w n = refl
append_from_total id want (e ∷ es) w n =
    ground (arith, eq_iff e.aggregate_id id, append_from_total id (want + 1) es (push e w) n.2)

commits_at :
    (id : String) (es : List Event) (s : Memory)
    → IsNumbered id (length (s.streams id) + 1) es
    → (append id (length (s.streams id)) es s).0 ≡ ok tt
unfolding append
commits_at id es s n =
    ground (arith, append_from_total id (length (s.streams id) + 1) es (begin id s) n)

-- The events of a batch, as recorded, are at the end of their stream and of the log.
abbrev pub IsGrown : String → List Event → Memory → Memory → Type 0
IsGrown id es s t =
    (fs : List Event) × (t.streams ≡ put s.streams id (s.streams id ++ fs))
    × (t.log ≡ s.log ++ fs)
    × IsRecorded es fs

append-IsGrown :
    (id : String) (v : ℕ) (es : List Event) (s : Memory)
    → (append id v es s).0 ≡ ok tt
    → IsGrown id es s (append id v es s).1
append-IsGrown id v es s h =
    let c = append-Committed id v es s h in
    (c.loop.fs, rw (c.result, c.loop.stream), rw (c.result, c.loop.log), c.loop.recorded)

-- A batch that is numbered from the expected version is atomic: it is committed exactly when the
-- stream has the expected length, with all its events at the end of the stream and of the log, and
-- else it is refused with ErrConcurrency and changes nothing.
pub append_batch :
    (id : String) (v : ℕ) (es : List Event) (s : Memory)
    → IsNumbered id (v + 1) es
    → ((length (s.streams id) ≡ v)
        × ((append id v es s).0 ≡ ok tt)
        × IsGrown id es s (append id v es s).1)
      ⊎ ((length (s.streams id) ≢ v) × (append id v es s ≡ (fail Sentinel.concurrency, s)))
append_batch id v es s n = elim (ℕ_discrete (length (s.streams id)) v) [
  | yes same ↦
      let done =
        subst (λ u. (append id u es s).0 ≡ ok tt) same
          (commits_at id es s (subst (λ u. IsNumbered id (u + 1) es) (sym same) n)) in
      inl (same, done, append-IsGrown id v es s done)
  | no other ↦ inr (other, refused_at id v es s other)
]

append_from_stops :
    (id : String) (want : ℕ) (es : List Event) (f : Event) (w : Appending)
    → IsNumbered id want es
    → f.aggregate_id ≢ id
    → append_from id want (es ++ f ∷ []) w
      ≡ (fail Sentinel.aggregate_mismatch, (append_from id want es w).1)
unfolding append_from
append_from_stops id want [] f w n h = rw (str_eq_ne f.aggregate_id id h)
append_from_stops id want (e ∷ es) f w n h =
    append_from-cons id want e (es ++ f ∷ []) w n.0 n.1
    ∙ append_from_stops id (want + 1) es f (push e w) n.2 h
    ∙ ap (λ (r : Result (Unit {0}) × Appending). (fail Sentinel.aggregate_mismatch, r.1))
        (sym (append_from-cons id want e es w n.0 n.1))

-- Append is not atomic for other batches: where the last event belongs to another aggregate, the
-- call fails, the streams stay as they were, and yet the events before it are in the global log.
pub append_leaks :
    (id : String) (es : List Event) (f : Event) (s : Memory)
    → IsNumbered id (length (s.streams id) + 1) es
    → f.aggregate_id ≢ id
    → let (r, t) = append id (length (s.streams id)) (es ++ f ∷ []) s in
      (r ≡ fail Sentinel.aggregate_mismatch)
      × (t.streams ≡ s.streams)
      × ((fs : List Event) × (t.log ≡ s.log ++ fs) × IsRecorded es fs)
unfolding append
append_leaks id es f s n h =
    let want = length (s.streams id) + 1 in
    let stopped = append_from_stops id want es f (begin id s) n h in
    let w =
      append_from-Appended id want es (begin id s) (append_from_total id want es (begin id s) n) in
    (ground arith, ground arith, (w.fs, ground (arith, w.log), w.recorded))
