-- ===== src/Eventstore/Memory/Coherent.antt =====
-- The global log and the streams of a Memory (internal/eventstore/memory.go), side by side.
use mathlib.Core.List.{append-nil}
use eventledger.Prelude.{
  ℕ, ◌+◌, ◌≡◌, refl, ap, ap₂, ◌∙◌, ◌≢◌, Bool, String, List, [], ◌∷◌, ◌++◌, str_eq, length,
  length-append, arith, eq_iff, inl, inr, subst,
}
use eventledger.Domain.Errors.{ok}
use eventledger.Domain.Events.{Event}
use eventledger.Eventstore.Port.{IsNumbered}
use eventledger.Eventstore.Memory.{Memory, append, append_from, select, new_memory}
use eventledger.Eventstore.Memory.Loop.{Appended, IsSequenced}
use eventledger.Eventstore.Memory.Append.{begin, append-Committed, put_all}
use eventledger.Eventstore.Memory.Contract.{IsIndexed, append-IsIndexed}
use eventledger.Eventstore.Memory.Lock.{append_batch}

-- The events of one aggregate.
abbrev pub belongs : String → Event → Bool
belongs id e = str_eq e.aggregate_id id

-- Each stream is the log cut down to its aggregate, and the log is numbered from 1 without a gap.
pub record IsCoherent (s : Memory) : Type 0 where
  pub indexed : IsIndexed s
  pub by_stream : (id : String) → select (belongs id) s.log ≡ s.streams id
  pub ordered : IsSequenced 1 s.log
  pub counted : s.seq ≡ length s.log

pub select-append :
    (p : Event → Bool) (xs ys : List Event) → select p (xs ++ ys) ≡ select p xs ++ select p ys
unfolding select
select-append p [] ys = refl
select-append p (x ∷ xs) ys = ground (arith, select-append p xs ys)

pub select_own :
    (id : String) (v : ℕ) (es : List Event) → IsNumbered id v es → select (belongs id) es ≡ es
unfolding select
select_own id v [] n = refl
select_own id v (e ∷ es) n = ground (arith, eq_iff e.aggregate_id id, select_own id (v + 1) es n.2)

pub select_others :
    (id j : String) (v : ℕ) (es : List Event)
    → j ≢ id
    → IsNumbered id v es
    → select (belongs j) es ≡ []
unfolding select
select_others id j v [] h n = refl
select_others id j v (e ∷ es) h n =
    ground (arith, eq_iff e.aggregate_id j, select_others id j (v + 1) es h n.2)

IsSequenced-append :
    (n : ℕ) (xs ys : List Event)
    → IsSequenced n xs
    → IsSequenced (n + length xs) ys
    → IsSequenced n (xs ++ ys)
IsSequenced-append n [] ys h k = subst (λ m. IsSequenced m ys) (omega arith) k
IsSequenced-append n (x ∷ xs) ys h k =
    (h.0, IsSequenced-append (n + 1) xs ys h.1 (subst (λ m. IsSequenced m ys) (omega arith) k))

pub new_memory-IsCoherent : IsCoherent new_memory
unfolding new_memory select
new_memory-IsCoherent = record {
  indexed = λ id. tt;
  by_stream = λ id. refl;
  ordered = tt;
  counted = refl;
}

commit-IsCoherent :
    (id : String) (v : ℕ) (es : List Event) (s : Memory)
    → IsCoherent s
    → (append id v es s).0 ≡ ok tt
    → IsCoherent (append id v es s).1
commit-IsCoherent id v es s h done =
    let c = append-Committed id v es s done in
    let a = c.loop in
    record {
      indexed = append-IsIndexed id v es s h.indexed;
      by_stream =
          rw (c.result, a.log, a.stream)
            (put_all (λ j xs. select (belongs j) (s.log ++ a.fs) ≡ xs) s.streams id _ (own a)
              (others a));
      ordered =
          rw (c.result, a.log)
            (IsSequenced-append 1 s.log a.fs h.ordered
              (subst (λ m. IsSequenced m a.fs) (omega (arith, h.counted)) a.sequenced));
      counted =
          rw (c.result)
            (omega (arith, a.seq, ap length a.log, length-append s.log a.fs, h.counted));
    }
  where
    own :
        (a : Appended id (v + 1) es (begin id s) (append_from id (v + 1) es (begin id s)).1)
        → select (belongs id) (s.log ++ a.fs) ≡ s.streams id ++ a.fs
    own a =
        select-append (belongs id) s.log a.fs
        ∙ ap₂ ◌++◌ (h.by_stream id) (select_own id (v + 1) a.fs a.numbered)

    others :
        (a : Appended id (v + 1) es (begin id s) (append_from id (v + 1) es (begin id s)).1)
        (j : String)
        → j ≢ id
        → select (belongs j) (s.log ++ a.fs) ≡ s.streams j
    others a j ne =
        select-append (belongs j) s.log a.fs
        ∙ ap₂ ◌++◌ (h.by_stream j) (select_others id j (v + 1) a.fs ne a.numbered)
        ∙ append-nil (s.streams j)

-- A batch that is numbered from the expected version keeps the log and the streams in agreement,
-- whether it is committed or refused.
pub append-IsCoherent :
    (id : String) (v : ℕ) (es : List Event) (s : Memory)
    → IsCoherent s
    → IsNumbered id (v + 1) es
    → IsCoherent (append id v es s).1
append-IsCoherent id v es s h n = elim (append_batch id v es s n) [
  | inl (same, done, grown) ↦ commit-IsCoherent id v es s h done
  | inr (other, refused) ↦ rw refused h
]
