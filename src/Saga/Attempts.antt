-- ===== src/Saga/Attempts.antt =====
-- The commands of the saga and its loop over the attempts, while nobody else runs.
use eventledger.Prelude.{
  ◌≢◌, ℕ, zero, suc, ◌+◌, ◌≡◌, refl, ap, ◌∙◌, Bool, String, ◌⊎◌, inl, inr, Option, Bool-cases,
}
use eventledger.Prelude.Int.{ℤ}
use eventledger.Domain.Errors.{Error, Result, ok, err, ◌>>=◌}
use eventledger.Domain.Events.{EventType, Stamp, TransferDebited}
use eventledger.Domain.Decide.{credits, reverses, decide}
use eventledger.Eventstore.Memory.{memory_store, has_transfer_event, load}
use eventledger.Eventstore.Memory.Contract.{memory_IsEventStore}
use eventledger.App
use eventledger.App.{World, Turn, mutate}
use eventledger.App.Extends.{IsLedger}
use eventledger.App.Undisturbed.{still, mutate_undisturbed}
use eventledger.Saga.{
  Attempt, Credit, credited, given_up, is_business_error, after_call, credit_from,
}
use eventledger.Saga.Tally.{
  credits_of, reversals_of, undisturbed, Added, concluded-Added, decided, credit_hits,
  reversal_hits, mentions_of_count,
}

module _ (stamps : ℕ → Stamp) (cancelled : ℕ → Option Error) (w : World memory_store)
    (h : IsLedger memory_IsEventStore w) where
  -- A credit that is decided and recorded counts once.
  pub mutate_credit-Added :
      (to t from : String) (x : ℤ)
      → Added t 1 0 w (
          mutate memory_store
            (λ k. still (stamps k) (cancelled k))
            to
            (λ s a. decide (credits t from x) s a)
            w)
  mutate_credit-Added to t from x =
      rw (mutate_undisturbed stamps cancelled to (credits t from x) w h) (
        concluded-Added to t 1 0 w (load to w.store >>= λ a. decide (credits t from x) (stamps 0) a)
          (λ e n p.
            let (a, same) = decided (credits t from x) (stamps 0) to w p in
            let (hc, hr) = credit_hits (stamps 0) to t from x a n in
            rw (same, hc, hr) (refl, refl)))

  pub credit-Added :
      (to t from : String) (x : ℤ)
      → credits_of t w ≡ 0
      → Added t 1 0 w ((undisturbed stamps cancelled).credit_transfer to t from x w)
  unfolding App.credit_transfer has_transfer_event decide
  credit-Added to t from x none_yet =
      rw (mentions_of_count EventType.transfer_credited t w.store.log none_yet)
        (mutate_credit-Added to t from x)

  pub reverse-Added :
      (from t : String) (x : ℤ) (reason : String)
      → reversals_of t w ≡ 0
      → Added t 0 1 w ((undisturbed stamps cancelled).reverse_transfer from t x reason w)
  unfolding App.reverse_transfer has_transfer_event decide
  reverse-Added from t x reason none_yet =
      rw (mentions_of_count EventType.transfer_reversed t w.store.log none_yet) (
        rw (mutate_undisturbed stamps cancelled from (reverses t x reason) w h) (
          concluded-Added from t 0 1 w
            (load from w.store >>= λ a. decide (reverses t x reason) (stamps 0) a)
            (λ e n p.
              let (a, same) = decided (reverses t x reason) (stamps 0) from w p in
              let (hc, hr) = reversal_hits (stamps 0) from t reason x a n in
              rw (same, hc, hr) (refl, refl))))

-- The attempts of a worker while nobody else runs.
abbrev pub alone :
    (ℕ → ℕ → Stamp) → (ℕ → ℕ → Option Error) → (ℕ → Bool) → ℕ → Attempt (World memory_store)
alone stamps cancelled done k = record {
  commands = undisturbed (stamps k) (cancelled k);
  during_backoff = λ w. w;
  done = done k;
}

-- The loop has credited once, or has changed nothing.
abbrev pub Tried : String → World memory_store → Credit × World memory_store → Type 0
Tried t w p =
    ((p.0 ≡ credited)
      × (credits_of t p.1 ≡ credits_of t w + 1)
      × (reversals_of t p.1 ≡ reversals_of t w + 0))
    ⊎ ((p.0 ≢ credited) × (p.1 ≡ w))

module _ (p : TransferDebited) (from : String) (w : World memory_store)
    (h : IsLedger memory_IsEventStore w) (none_yet : credits_of p.transfer_id w ≡ 0) where
  after_call-Tried :
      (t : Attempt (World memory_store))
      (rest : Error → World memory_store → Credit × World memory_store)
      (r : Result (Unit {0}) × World memory_store)
      → ((v : World memory_store) → t.during_backoff v ≡ v)
      → Added p.transfer_id 1 0 w r
      → ((x : Error) → Tried p.transfer_id w (rest x w))
      → Tried p.transfer_id w (after_call t rest r)
  after_call-Tried t rest (ok u, v) same (inl (x, e)) later = absurd (cc (ap (λ q. q.0) e))
  after_call-Tried t rest (ok u, v) same (inr (e, c, r)) later = inl (refl, c, r)
  after_call-Tried t rest (err x, v) same (inr (e, c, r)) later = absurd (cc)
  after_call-Tried t rest (err x, v) same (inl (y, e)) later =
      let unchanged : v ≡ w = ap (λ q. q.1) e in
      elim (Bool-cases (is_business_error x)) [
        | inl business ↦ rw business (inr (λ q. cc, unchanged))
        | inr transient ↦ elim (Bool-cases t.done) [
          | inl stop ↦ rw (transient, stop) (inr (λ q. cc, same v ∙ unchanged))
          | inr go ↦ rw (transient, go) (rw (same v, unchanged) (later x))
        ]
      ]

  pub credit_from-Tried :
      (left : ℕ) (stamps : ℕ → ℕ → Stamp) (cancelled : ℕ → ℕ → Option Error) (done : ℕ → Bool)
      → Tried p.transfer_id w (credit_from left (alone stamps cancelled done) p from w)
  unfolding credit_from
  credit_from-Tried zero stamps cancelled done =
      after_call-Tried (alone stamps cancelled done 0) (λ x v. (given_up x, v)) _ (λ v. refl)
        (credit-Added (stamps 0) (cancelled 0) w h p.to p.transfer_id from p.amount none_yet)
        (λ x. inr (λ q. cc, refl))
  credit_from-Tried (suc left) stamps cancelled done =
      after_call-Tried (alone stamps cancelled done 0)
        (λ x v. credit_from left (λ k. alone stamps cancelled done (suc k)) p from v) _ (λ v. refl)
        (credit-Added (stamps 0) (cancelled 0) w h p.to p.transfer_id from p.amount none_yet)
        (λ x.
          credit_from-Tried left (λ k. stamps (suc k)) (λ k. cancelled (suc k)) (λ k. done (suc k)))
