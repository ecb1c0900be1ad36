-- ===== src/Eventstore/Streams.antt =====
-- Streams of events: numbering, and what the global order assigned by a store leaves alone.
use eventledger.Prelude.{
  ℕ, suc, ◌+◌, ◌≡◌, refl, ap, ◌∙◌, String, List, [], ◌∷◌, ◌++◌, length, arith, subst, inl, inr,
}
use eventledger.Domain.Errors.{ok, Result-cases}
use eventledger.Domain.Events.{Event}
use eventledger.Domain.Account.{Account, replay, apply}
use eventledger.Domain.Replay.{apply-version, apply-seq}
use eventledger.Eventstore.Port.{IsRecorded, IsNumbered}

pub IsNumbered-append :
    (id : String) (v : ℕ) (xs ys : List Event)
    → IsNumbered id v xs
    → IsNumbered id (v + length xs) ys
    → IsNumbered id v (xs ++ ys)
IsNumbered-append id v [] ys h k = subst (λ n. IsNumbered id n ys) (omega arith) k
IsNumbered-append id v (x ∷ xs) ys h k = (
  h.0,
  h.1,
  IsNumbered-append id (v + 1) xs ys h.2 (subst (λ n. IsNumbered id n ys) (omega arith) k),
)

-- The version of an account that is replayed from a numbered stream counts the events.
pub replay-version :
    (id : String) (v : ℕ) (a : Account) (es : List Event) {b : Account}
    → a.version ≡ v
    → IsNumbered id (v + 1) es
    → replay a es ≡ ok b
    → b.version ≡ v + length es
unfolding replay
replay-version id v a [] start n h = ground arith
replay-version id v a (e ∷ es) {b} start n h = elim (Result-cases (apply e a)) [
  | inl (x, stopped) ↦ absurd (ground arith)
  | inr (c, done) ↦
      let rest : b.version ≡ v + 1 + length es =
        replay-version id (v + 1) c es {b = b} (apply-version e a done ∙ n.1) n.2 (ground arith) in
      omega arith
]

pub length-IsRecorded : (es fs : List Event) → IsRecorded es fs → length fs ≡ length es
length-IsRecorded [] [] h = refl
length-IsRecorded [] (f ∷ fs) h = elim h [ ]
length-IsRecorded (e ∷ es) [] h = elim h [ ]
length-IsRecorded (e ∷ es) (f ∷ fs) h = ap suc (length-IsRecorded es fs h.1)

-- Recorded events replay like those that were handed over.
pub replay-IsRecorded :
    (a : Account) (es fs : List Event) → IsRecorded es fs → replay a fs ≡ replay a es
unfolding replay
replay-IsRecorded a [] [] h = refl
replay-IsRecorded a [] (f ∷ fs) h = elim h [ ]
replay-IsRecorded a (e ∷ es) [] h = elim h [ ]
replay-IsRecorded a (e ∷ es) (f ∷ fs) h =
    let same : apply f a ≡ apply e a = ap (λ g. apply g a) h.0 ∙ apply-seq e f.seq a in
    rw same (elim (Result-cases (apply e a)) [
      | inl (x, stopped) ↦ rw stopped
      | inr (b, done) ↦ rw done (replay-IsRecorded b es fs h.1)
    ])
