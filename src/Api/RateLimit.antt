-- ===== src/Api/RateLimit.antt =====
-- internal/api/ratelimit.go: a token bucket for each key, over what it uses of float64.
use eventledger.Prelude.{
  ℕ, zero, suc, ◌+◌, ◌≤◌, ◌≡◌, refl, ap, Bool, true, false, String, Option, none, some, arith,
  if◌then◌else◌, ltb, str_eq, str_eq_refl, Bool-cases, inl, inr, subst, sym,
}
use eventledger.Api.Serve.{Reply, error_reply}

-- The arithmetic of float64, away from NaN. `seconds` is the difference of two times, the later one
-- first.
pub record Float : Type 1 where
  pub F : Type 0
  pub add : F → F → F
  pub mul : F → F → F
  pub min : F → F → F
  pub decrement : F → F
  pub at_least_one : F → Bool
  pub seconds : ℕ → ℕ → F

-- What the limiter relies on, where `whole` is the whole part of a number below 2 ^ 53.
pub record IsFloat (f : Float) (whole : f.F → ℕ) : Type 0 where
  pub min_first : (a b : f.F) → whole (f.min a b) ≤ whole a
  pub min_second : (a b : f.F) → whole (f.min a b) ≤ whole b
  pub same_time : (a r : f.F) (t : ℕ) → f.add a (f.mul (f.seconds t t) r) ≡ a
  pub spends : (a : f.F) → f.at_least_one a ≡ true → whole (f.decrement a) + 1 ≤ whole a

pub record Bucket (f : Float) : Type 0 where
  pub tokens : f.F
  pub last : ℕ

pub record RateLimiter (f : Float) : Type 0 where
  pub buckets : String → Option (Bucket f)
  pub rate : f.F
  pub burst : f.F

module _ (f : Float) where
  unfoldable pub new_rate_limiter : f.F → f.F → RateLimiter f
  new_rate_limiter rate burst = record { buckets = λ key. none; rate = rate; burst = burst }

  abbrev pub bucket_of : Option (Bucket f) → ℕ → RateLimiter f → Bucket f
  bucket_of none now rl = record { tokens = rl.burst; last = now }
  bucket_of (some b) now rl = b

  abbrev pub put_bucket : String → Bucket f → RateLimiter f → RateLimiter f
  put_bucket key b rl = record rl { buckets = λ k. if str_eq key k then some b else rl.buckets k }

  abbrev pub refilled : ℕ → RateLimiter f → Bucket f → f.F
  refilled now rl b = f.min rl.burst (f.add b.tokens (f.mul (f.seconds now b.last) rl.rate))

  abbrev pub spend : String → ℕ → f.F → RateLimiter f → Bool × RateLimiter f
  spend key now tokens rl =
      if f.at_least_one tokens
      then (true, put_bucket key (record { tokens = f.decrement tokens; last = now }) rl)
      else (false, put_bucket key (record { tokens = tokens; last = now }) rl)

  -- Allow at the time `now`, under the mutex.
  unfoldable pub allow : String → ℕ → RateLimiter f → Bool × RateLimiter f
  allow key now rl = spend key now (refilled now rl (bucket_of (rl.buckets key) now rl)) rl

  abbrev kept : ℕ → Option (Bucket f) → Option (Bucket f)
  kept cutoff none = none
  kept cutoff (some b) = if ltb b.last cutoff then none else some b

  -- One round of janitor.
  unfoldable pub sweep : ℕ → RateLimiter f → RateLimiter f
  sweep cutoff rl = record rl { buckets = λ key. kept cutoff (rl.buckets key) }

  -- withRateLimit: the reply in place of that of the next handler.
  abbrev pub with_rate_limit : {A : Type 0} → (Reply → A) → A → Bool → A
  with_rate_limit refuse next true = next
  with_rate_limit refuse next false = refuse (error_reply 429 true "rate limit exceeded")

  abbrev counted : Bool → ℕ
  counted true = 1
  counted false = 0

  -- The number of calls that are allowed among `n` calls for a key at one time.
  unfoldable pub allowed : ℕ → String → ℕ → RateLimiter f → ℕ
  allowed zero key now rl = 0
  allowed (suc n) key now rl =
      let rest = allowed n key now (allow key now rl).1 in counted (allow key now rl).0 + rest

  module _ (whole : f.F → ℕ) (h : IsFloat f whole) where
    spend-bounds :
        (key : String) (now : ℕ) (tokens : f.F) (rl : RateLimiter f)
        → (b : Bucket f) × ((spend key now tokens rl).1.buckets key ≡ some b)
          × (b.last ≡ now)
          × (counted (spend key now tokens rl).0 + whole b.tokens ≤ whole tokens)
    spend-bounds key now tokens rl = elim (Bool-cases (f.at_least_one tokens)) [
      | inl p ↦
          rw (p, str_eq_refl key)
            (
              record { tokens = f.decrement tokens; last = now },
              refl,
              refl,
              omega (arith, h.spends tokens p),
            )
      | inr p ↦
          rw (p, str_eq_refl key) (record { tokens = tokens; last = now }, refl, refl, omega arith)
    ]

    -- A bucket that was filled up at this time has no more tokens than it had.
    bucket-bounds :
        (n : ℕ) (key : String) (now : ℕ) (rl : RateLimiter f) (b : Bucket f)
        → rl.buckets key ≡ some b
        → b.last ≡ now
        → allowed n key now rl ≤ whole b.tokens
    unfolding allowed allow
    bucket-bounds zero key now rl b q l = omega arith
    bucket-bounds (suc n) key now rl b q l =
        let tokens = refilled now rl (bucket_of (rl.buckets key) now rl) in
        let (c, stored, at, spent) = spend-bounds key now tokens rl in
        let rest = bucket-bounds n key now (spend key now tokens rl).1 c stored at in
        let same : tokens ≡ f.min rl.burst b.tokens =
          rw (q, l) (ap (f.min rl.burst) (h.same_time b.tokens rl.rate now)) in
        let low : whole tokens ≤ whole b.tokens =
          subst (λ x. whole x ≤ whole b.tokens) (sym same) (h.min_second rl.burst b.tokens) in
        omega (arith, spent, rest, low)

    -- However many calls are made for one key at one time, whatever went before, no more are allowed
    -- than the whole part of the burst.
    pub allowed-bounds :
        (n : ℕ) (key : String) (now : ℕ) (rl : RateLimiter f)
        → allowed n key now rl ≤ whole rl.burst
    unfolding allowed allow
    allowed-bounds zero key now rl = omega arith
    allowed-bounds (suc n) key now rl =
        let b = bucket_of (rl.buckets key) now rl in
        let tokens = refilled now rl b in
        let (c, stored, at, spent) = spend-bounds key now tokens rl in
        let rest = bucket-bounds n key now (spend key now tokens rl).1 c stored at in
        omega (
          arith,
          spent,
          rest,
          h.min_first rl.burst (f.add b.tokens (f.mul (f.seconds now b.last) rl.rate)),
        )
