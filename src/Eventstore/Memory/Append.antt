-- ===== src/Eventstore/Memory/Append.antt =====
-- Memory.Append of internal/eventstore/memory.go: what a call leaves in the streams.
use eventledger.Prelude.{
  ℕ, ◌+◌, ◌≡◌, sym, ◌≢◌, String, List, ◌++◌, str_eq, ◌==◌, length, arith, eq_iff, Bool-cases, inl,
  inr, str_eq_refl, str_eq_ne, subst,
}
use eventledger.Domain.Errors.{Error, ok, err, Result-cases}
use eventledger.Domain.Events.{Event}
use eventledger.Eventstore.Port.{IsRecorded, IsNumbered}
use eventledger.Eventstore.Memory.{Memory, Appending, put, append_from, conclude, append}
use eventledger.Eventstore.Memory.Loop.{Appended, append_from-Appended}

-- The state in which the loop of Append begins.
abbrev pub begin : String → Memory → Appending
begin id s = record { stream = s.streams id; log = s.log; seq = s.seq }

pub put_self : {V : Type 0} (m : String → V) (k : String) (v : V) → put m k v k ≡ v
put_self m k v = rw (str_eq_refl k)

pub put_ne : {V : Type 0} (m : String → V) (k j : String) (v : V) → j ≢ k → put m k v j ≡ m j
put_ne m k j v h = rw (str_eq_ne k j (λ e. h (sym e)))

-- What Append has done when it returns no error: the stream had the expected length, and the loop
-- came to its end.
pub record Committed (id : String) (v : ℕ) (es : List Event) (s t : Memory) : Type 0 where
  pub expected : length (s.streams id) ≡ v
  pub loop : Appended id (v + 1) es (begin id s) (append_from id (v + 1) es (begin id s)).1
  pub result : t ≡ (conclude id s (ok tt, (append_from id (v + 1) es (begin id s)).1)).1

pub append-Committed :
    (id : String) (v : ℕ) (es : List Event) (s : Memory)
    → (append id v es s).0 ≡ ok tt
    → Committed id v es s (append id v es s).1
unfolding append
append-Committed id v es s h = elim (Bool-cases (length (s.streams id) == v)) [
  | inr other ↦ absurd (ground arith)
  | inl same ↦ elim (Result-cases (append_from id (v + 1) es (begin id s)).0) [
    | inl (x, stopped) ↦ absurd (ground arith)
    | inr (u, done) ↦ record {
      expected = ground arith;
      loop = append_from-Appended id (v + 1) es (begin id s) done;
      result = ground arith;
    }
  ]
]

-- An error leaves every stream as it was.
pub append-err-streams :
    (id : String) (v : ℕ) (es : List Event) (s : Memory) {x : Error}
    → (append id v es s).0 ≡ err x
    → (append id v es s).1.streams ≡ s.streams
unfolding append
append-err-streams id v es s h = ground arith

pub append-streams :
    (id : String) (v : ℕ) (es : List Event) (s : Memory)
    → (append id v es s).0 ≡ ok tt
    → ((fs : List Event) × ((append id v es s).1.streams ≡ put s.streams id (s.streams id ++ fs))
        × IsRecorded es fs
        × IsNumbered id (v + 1) fs)
append-streams id v es s h =
    let c = append-Committed id v es s h in
    (c.loop.fs, rw (c.result, c.loop.stream), c.loop.recorded, c.loop.numbered)

-- A property of every entry of a map, after one entry is replaced.
pub put_all :
    {V : Type 0} (P : String → V → Type 0) (m : String → V) (k : String) (v : V)
    → P k v
    → ((j : String) → j ≢ k → P j (m j))
    → (j : String) → P j (put m k v j)
put_all P m k v here there j = elim (Bool-cases (str_eq k j)) [
  | inl same ↦ rw same (subst (λ i. P i v) ((eq_iff k j).0 same) here)
  | inr other ↦ rw other (there j (λ e. cc (other, (eq_iff k j).1 (sym e))))
]
