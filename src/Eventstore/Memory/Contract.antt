-- ===== src/Eventstore/Memory/Contract.antt =====
-- Memory of internal/eventstore/memory.go as an implementation of the port.
use native.Mathlib.Nat.{zero-add}
use eventledger.Prelude.{
  ◌∙◌, ℕ, ◌≡◌, refl, ap, ◌≢◌, String, List, [], ◌∷◌, ◌++◌, length, arith, inl, inr, subst,
}
use eventledger.Domain.Errors.{ok, Result-cases}
use eventledger.Domain.Events.{Event}
use eventledger.Domain.Account.{Account, blank, replay}
use eventledger.Eventstore.Port.{IsNumbered, IsEventStore}
use eventledger.Eventstore.Streams.{IsNumbered-append, replay-version}
use eventledger.Eventstore.Memory.{Memory, append, load, memory_store, new_memory}
use eventledger.Eventstore.Memory.Append.{
  append-streams, append-err-streams, append-Committed, put_all, put_self, put_ne,
}

-- The streams are numbered from 1, each event in the stream of its aggregate.
abbrev pub IsIndexed : Memory → Type 0
IsIndexed s = (id : String) → IsNumbered id 1 (s.streams id)

pub new_memory-IsIndexed : IsIndexed new_memory
unfolding new_memory
new_memory-IsIndexed id = tt

-- No call of Append, whatever its arguments and its outcome, spoils the numbering of a stream.
pub append-IsIndexed :
    (id : String) (v : ℕ) (es : List Event) (s : Memory)
    → IsIndexed s
    → IsIndexed (append id v es s).1
append-IsIndexed id v es s h = elim (Result-cases (append id v es s).0) [
  | inl (x, stopped) ↦ λ j. rw (append-err-streams id v es s stopped) (h j)
  | inr (u, done) ↦
      let (fs, streams, same, numbered) = append-streams id v es s done in
      let start = (append-Committed id v es s done).expected in
      λ j. rw streams (
        put_all (λ i xs. IsNumbered i 1 xs) s.streams id (s.streams id ++ fs)
          (IsNumbered-append id 1 (s.streams id) fs (h id)
            (subst (λ n. IsNumbered id n fs) (omega arith) numbered))
          (λ i ne. h i) j)
]

load_stream-replay :
    (id : String) (s : Memory) (xs : List Event) {a : Account}
    → s.streams id ≡ xs
    → load id s ≡ ok a
    → (xs ≢ []) × (replay blank xs ≡ ok a)
unfolding load
load_stream-replay id s [] e h = absurd (ground arith)
load_stream-replay id s (x ∷ xs) e h = (λ p. cc, ground arith)

pub load-replay :
    (s : Memory) (id : String) (a : Account)
    → IsIndexed s
    → load id s ≡ ok a
    → (s.streams id ≢ [])
      × (replay blank (s.streams id) ≡ ok a)
      × (a.version ≡ length (s.streams id))
load-replay s id a v h =
    let (some_event, replayed) = load_stream-replay id s (s.streams id) refl h in
    (
      some_event,
      replayed,
      replay-version id 0 blank (s.streams id) refl (v id) replayed ∙ zero-add _,
    )

unfoldable pub memory_IsEventStore : IsEventStore memory_store
memory_IsEventStore = record {
  stream = λ s. s.streams;
  Valid = IsIndexed;
  append-Valid = λ s id v es h low. append-IsIndexed id v es s h;
  append_expected = λ s id v e es h low done. (append-Committed id v (e ∷ es) s done).expected;
  append_ok = λ s id v es h.
      let (fs, streams, same, numbered) = append-streams id v es s h in
      (
        (fs, rw streams (put_self s.streams id (s.streams id ++ fs)), same),
        λ j ne. rw streams (put_ne s.streams id j (s.streams id ++ fs) ne),
      );
  append_err = λ s id v es x h j. ap (λ m. m j) (append-err-streams id v es s h);
  load_ok = load-replay;
}
