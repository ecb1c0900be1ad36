-- ===== src/Eventstore/Memory/Loop.antt =====
-- The loop of Memory.Append: what it leaves when it comes to its end, and what when it returns early.
use eventledger.Prelude.{
  subst, ℕ, suc, ◌+◌, ◌≡◌, refl, sym, ◌∙◌, String, List, [], ◌∷◌, ◌++◌, str_eq, ◌==◌, length, arith,
  eq_iff, Bool-cases, inl, inr,
}
use mathlib.Core.List.{append_assoc, append-nil}
use eventledger.Domain.Errors.{ok}
use eventledger.Domain.Events.{Event}
use eventledger.Eventstore.Port.{IsRecorded, IsNumbered}
use eventledger.Eventstore.Memory.{Appending, push, append_from}

-- The global numbers count on from the given one.
abbrev pub IsSequenced : ℕ → List Event → Type 0
IsSequenced n [] = Unit
IsSequenced n (e ∷ es) = (e.seq ≡ n) × IsSequenced (n + 1) es

-- The events `fs` have been recorded for `es`, at the ends of the slice and of the log.
pub record Appended (id : String) (want : ℕ) (es : List Event) (w v : Appending) : Type 0 where
  pub fs : List Event
  pub stream : v.stream ≡ w.stream ++ fs
  pub log : v.log ≡ w.log ++ fs
  pub seq : v.seq ≡ w.seq + length fs
  pub recorded : IsRecorded es fs
  pub numbered : IsNumbered id want fs
  pub sequenced : IsSequenced (w.seq + 1) fs

Appended-push :
    (id : String) (want : ℕ) (e : Event) (es : List Event) (w v : Appending)
    → e.aggregate_id ≡ id
    → e.version ≡ want
    → Appended id (want + 1) es (push e w) v
    → Appended id want (e ∷ es) w v
Appended-push id want e es w v here next a = record {
  fs = record e { seq = suc w.seq } ∷ a.fs;
  stream = a.stream ∙ append_assoc w.stream _ a.fs;
  log = a.log ∙ append_assoc w.log _ a.fs;
  seq = omega (arith, a.seq);
  recorded = (refl, a.recorded);
  numbered = (here, next, a.numbered);
  sequenced = (omega arith, subst (λ n. IsSequenced n a.fs) (omega arith) a.sequenced);
}

-- At the end of the loop all events have been recorded.
pub append_from-Appended :
    (id : String) (want : ℕ) (es : List Event) (w : Appending)
    → (append_from id want es w).0 ≡ ok tt
    → Appended id want es w (append_from id want es w).1
unfolding append_from
append_from-Appended id want [] w h = record {
  fs = [];
  stream = sym (append-nil w.stream);
  log = sym (append-nil w.log);
  seq = omega arith;
  recorded = tt;
  numbered = tt;
  sequenced = tt;
}
append_from-Appended id want (e ∷ es) w h = elim (Bool-cases (str_eq e.aggregate_id id)) [
  | inr other ↦ absurd (ground arith)
  | inl here ↦ elim (Bool-cases (e.version == want)) [
    | inr gap ↦ absurd (ground arith)
    | inl next ↦
        rw (here, next)
          (Appended-push id want e es w _ ((eq_iff e.aggregate_id id).0 here) (ground arith)
            (append_from-Appended id (want + 1) es (push e w) (ground arith)))
  ]
]
