-- ===== src/Saga/Tally.antt =====
-- How many credits and reversals of a transfer a log has, and what the commands of the application do
-- to these numbers while nobody else runs.
use eventledger.Prelude.{
  ◌<◌, ℕ, suc, ◌+◌, ◌≡◌, refl, ap, ◌∙◌, Bool, true, false, ◌&&◌, String, List, [], ◌∷◌, ◌++◌, ◌⊎◌,
  inl, inr, Option, if◌then◌else◌, str_eq, str_eq_refl, arith,
}
use eventledger.Prelude.Int.{ℤ}
use eventledger.Domain.Errors.{Error, Result, ok, err, ◌>>=◌, Result-cases}
use eventledger.Domain.Events.{Event, EventType, Stamp, type_eq, new_event, marshal}
use eventledger.Domain.Account.{Account}
use eventledger.Domain.Decide.{Command, credits, reverses, decide, event_of, decide-event_of}
use eventledger.Eventstore.Memory.{memory_store, transfer_id_of, mentions, load}
use eventledger.App
use eventledger.App.{World, Turn}
use eventledger.App.Undisturbed.{still, concluded}
use eventledger.Saga.{Commands}

-- Whether an event is of the type and belongs to the transfer.
abbrev pub hits : EventType → String → Event → Bool
hits type t e = type_eq e.type type && str_eq (transfer_id_of e) t

unfoldable pub count : EventType → String → List Event → ℕ
count type t [] = 0
count type t (e ∷ log) = (if hits type t e then 1 else 0) + count type t log

pub count-append :
    (type : EventType) (t : String) (xs : List Event) (e : Event)
    → count type t (xs ++ e ∷ []) ≡ count type t xs + (if hits type t e then 1 else 0)
unfolding count
count-append type t [] e = omega arith
count-append type t (x ∷ xs) e = omega (arith, count-append type t xs e)

pub mentions_of_count :
    (type : EventType) (t : String) (xs : List Event)
    → count type t xs ≡ 0
    → mentions type t xs ≡ false
unfolding count mentions
mentions_of_count type t [] h = refl
mentions_of_count type t (x ∷ xs) h = ground (arith, mentions_of_count type t xs)

pub mentions_of_pos :
    (type : EventType) (t : String) (xs : List Event)
    → 0 < count type t xs
    → mentions type t xs ≡ true
unfolding count mentions
mentions_of_pos type t [] h = absurd (omega arith)
mentions_of_pos type t (x ∷ xs) h = ground (arith, mentions_of_pos type t xs)

-- Credits and reversals of a transfer in the log of a world.
abbrev pub credits_of : String → World memory_store → ℕ
credits_of t w = count EventType.transfer_credited t w.store.log

abbrev pub reversals_of : String → World memory_store → ℕ
reversals_of t w = count EventType.transfer_reversed t w.store.log

-- The commands of the application while nobody else runs.
abbrev pub undisturbed : (ℕ → Stamp) → (ℕ → Option Error) → Commands (World memory_store)
undisturbed stamps cancelled = record {
  credit_transfer = App.credit_transfer memory_store (λ w. w) (λ k. still (stamps k) (cancelled k));
  reverse_transfer =
      App.reverse_transfer memory_store (λ w. w) (λ k. still (stamps k) (cancelled k));
}

module _ (s : Stamp) (id t other : String) (x : ℤ) (a : Account) where
  pub credit_hits :
      (n : ℕ)
      → (hits EventType.transfer_credited t (record (event_of (credits t other x) s a) { seq = n })
          ≡ true)
        × (hits EventType.transfer_reversed t
              (record (event_of (credits t other x) s a) { seq = n })
            ≡ false)
  unfolding type_eq transfer_id_of new_event marshal
  credit_hits n = (str_eq_refl t, refl)

  pub reversal_hits :
      (n : ℕ)
      → (hits EventType.transfer_credited t (record (event_of (reverses t x other) s a) { seq = n })
          ≡ false)
        × (hits EventType.transfer_reversed t
              (record (event_of (reverses t x other) s a) { seq = n })
            ≡ true)
  unfolding type_eq transfer_id_of new_event marshal
  reversal_hits n = (refl, str_eq_refl t)

-- How a call has ended that changed nothing, or added `c` credits and `r` reversals of the transfer.
abbrev pub Added :
    String → ℕ → ℕ → World memory_store → Result (Unit {0}) × World memory_store → Type 0
Added t c r w p =
    ((x : Error) × (p ≡ (err x, w)))
    ⊎ ((p.0 ≡ ok tt)
        × (credits_of t p.1 ≡ credits_of t w + c)
        × (reversals_of t p.1 ≡ reversals_of t w + r))

pub concluded-Added :
    (id t : String) (c r : ℕ) (w : World memory_store) (d : Result Event)
    → ((e : Event) (n : ℕ)
        → d ≡ ok e
        → ((if hits EventType.transfer_credited t (record e { seq = n }) then 1 else 0) ≡ c)
          × ((if hits EventType.transfer_reversed t (record e { seq = n }) then 1 else 0) ≡ r))
    → Added t c r w (concluded id w d)
concluded-Added id t c r w (err x) h = inl (x, refl)
concluded-Added id t c r w (ok e) h =
    let (hc, hr) = h e (suc w.store.seq) refl in
    inr (
      refl,
      count-append EventType.transfer_credited t w.store.log _ ∙ ap (◌+◌ (credits_of t w)) hc,
      count-append EventType.transfer_reversed t w.store.log _ ∙ ap (◌+◌ (reversals_of t w)) hr,
    )

pub decided :
    (c : Command) (s : Stamp) (id : String) (w : World memory_store) {e : Event}
    → (load id w.store >>= λ a. decide c s a) ≡ ok e
    → (a : Account) × (e ≡ event_of c s a)
decided c s id w h = elim (Result-cases (load id w.store)) [
  | inl (x, p) ↦ absurd (ground arith)
  | inr (a, p) ↦ (a, decide-event_of c s a (ground arith))
]
