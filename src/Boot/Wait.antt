-- ===== src/Boot/Wait.antt =====
-- waitForDB of cmd/api/main.go: its loop ends.
use eventledger.Prelude.{
  ℕ, zero, suc, ◌+◌, ◌*◌, ◌/◌, ◌≤◌, ◌<◌, ◌≡◌, refl, Bool-cases, inl, inr, ltb, some, arith, false,
  ap, ◌∙◌, subst,
}
use eventledger.Domain.Errors.{Error, text, Result, ok, err, Result-cases}
use eventledger.Boot.{Probe, wait_from, wait_for_db, rounds}

-- How the loop ends: with the answer of the first ping that succeeds, all of those before it having
-- failed before the deadline, or with an error after pings that all failed, the last one too late.
pub data Ends (deadline : ℕ) : (ℕ → Probe) → Result (Unit {0}) → Type 0 where
  reached :
      {probes : ℕ → Probe} (k : ℕ)
      → (probes k).ping ≡ ok tt
      → ((j : ℕ) → j < k → ((x : Error) × ((probes j).ping ≡ err x)) × ((probes j).time ≤ deadline))
      → Ends deadline probes (ok tt)
  timed_out :
      {probes : ℕ → Probe} (k : ℕ)
      → ((j : ℕ) → j ≤ k → (x : Error) × ((probes j).ping ≡ err x))
      → deadline < (probes k).time
      → Ends deadline probes (err (text "timeout waiting for database"))

later-Ends :
    {deadline : ℕ} {probes : ℕ → Probe} {r : Result (Unit {0})} (x : Error)
    → (probes 0).ping ≡ err x
    → (probes 0).time ≤ deadline
    → Ends deadline (λ k. probes (suc k)) r
    → Ends deadline probes r
later-Ends {deadline} {probes} x failed early (reached k answered before) =
    reached (suc k) answered first
  where
    first :
        (j : ℕ)
        → j < suc k
        → ((y : Error) × ((probes j).ping ≡ err y)) × ((probes j).time ≤ deadline)
    first zero h = ((x, failed), early)
    first (suc j) h = before j (omega arith)
later-Ends {deadline} {probes} x failed early (timed_out k all late) = timed_out (suc k) first late
  where
    first : (j : ℕ) → j ≤ suc k → (y : Error) × ((probes j).ping ≡ err y)
    first zero h = (x, failed)
    first (suc j) h = all j (omega arith)

-- The loop has an end, and ends so.
abbrev Returns : ℕ → ℕ → (ℕ → Probe) → Type 0
Returns fuel deadline probes =
    (r : Result (Unit {0})) × (wait_from fuel deadline probes ≡ some r) × Ends deadline probes r

zero_only : (j : ℕ) → j ≤ 0 → j ≡ 0
zero_only j h = omega arith

round-Returns :
    (fuel deadline : ℕ) (probes : ℕ → Probe)
    → (ltb deadline (probes 0).time ≡ false → Returns fuel deadline (λ k. probes (suc k)))
    → Returns (suc fuel) deadline probes
unfolding wait_from
round-Returns fuel deadline probes rest = elim (Result-cases (probes 0).ping) [
  | inr (u, q) ↦ (ok tt, rw q refl, reached 0 q (λ j h. absurd (omega arith)))
  | inl (x, q) ↦ elim (Bool-cases (ltb deadline (probes 0).time)) [
    | inl late ↦ (
      err (text "timeout waiting for database"),
      rw (q, late) refl,
      timed_out 0 (λ j h. (x, ap (λ k. (probes k).ping) (zero_only j h) ∙ q)) (ground arith),
    )
    | inr early ↦
        let (r, same, ends) = rest early in
        (r, rw (q, early) same, later-Ends x q (ground arith) ends)
  ]
]

wait_from-Returns :
    (fuel deadline : ℕ) (probes : ℕ → Probe)
    → ((k : ℕ) → (probes k).time + 500 ≤ (probes (suc k)).time)
    → deadline < (probes 0).time + fuel * 500
    → Returns (suc fuel) deadline probes
wait_from-Returns zero deadline probes ticks enough =
    round-Returns zero deadline probes (λ early. absurd (ground arith))
wait_from-Returns (suc fuel) deadline probes ticks enough =
    round-Returns (suc fuel) deadline probes (λ early.
      wait_from-Returns fuel deadline (λ k. probes (suc k)) (λ k. ticks (suc k))
        (omega (arith, ticks 0)))

-- waitForDB always ends: if the clock does not go backwards from its start to the first ping, and
-- moves on by at least the half second of sleep from one ping to the next, the loop returns within
-- the rounds given to it. It succeeds at the first ping that is answered, the earlier ones having
-- failed in time, or reports the timeout after pings that all failed, the last one past the deadline.
pub wait_for_db-Ends :
    (timeout begun : ℕ) (probes : ℕ → Probe)
    → begun ≤ (probes 0).time
    → ((k : ℕ) → (probes k).time + 500 ≤ (probes (suc k)).time)
    → (r : Result (Unit {0})) × (wait_for_db timeout begun probes ≡ some r)
      × Ends (begun + timeout) probes r
unfolding wait_for_db
wait_for_db-Ends timeout begun probes first ticks =
    subst (λ n. Returns n (begun + timeout) probes) count
      (wait_from-Returns (timeout / 500 + 1) (begun + timeout) probes ticks (omega arith))
  where
    count : suc (timeout / 500 + 1) ≡ rounds timeout
    count = omega arith
