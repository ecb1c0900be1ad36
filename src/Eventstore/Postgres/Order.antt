-- ===== src/Eventstore/Postgres/Order.antt =====
-- ORDER BY on rows that are in order already.
use eventledger.Prelude.{
  ℕ, ◌+◌, ◌≤◌, ◌≡◌, refl, sym, Bool, String, List, [], ◌∷◌, ◌++◌, length, arith, subst, Bool-cases,
  inl, inr,
}
use eventledger.Domain.Events.{Event}
use eventledger.Eventstore.Port.{IsNumbered}
use eventledger.Eventstore.Memory.{select}
use eventledger.Eventstore.Postgres.Rows.{insert_by, order_by}

-- The keys rise strictly, from `n` or above to below `m`.
abbrev pub IsRising : (Event → ℕ) → ℕ → List Event → ℕ → Type 0
IsRising key n [] m = n ≤ m
IsRising key n (e ∷ es) m = (n ≤ key e) × IsRising key (key e + 1) es m

module _ (key : Event → ℕ) where
  insert_by-first :
      (e : Event) (xs : List Event) (m : ℕ)
      → IsRising key (key e + 1) xs m
      → insert_by key e xs ≡ e ∷ xs
  unfolding insert_by
  insert_by-first e [] m h = refl
  insert_by-first e (f ∷ fs) m h = ground (arith, h.0)

  pub order_by-IsRising :
      (n : ℕ) (xs : List Event) (m : ℕ) → IsRising key n xs m → order_by key xs ≡ xs
  unfolding order_by
  order_by-IsRising n [] m h = refl
  order_by-IsRising n (e ∷ es) m h =
      rw (order_by-IsRising (key e + 1) es m h.1) (insert_by-first e es m h.1)

  pub IsRising-from :
      (k n : ℕ) (xs : List Event) (m : ℕ) → k ≤ n → IsRising key n xs m → IsRising key k xs m
  IsRising-from k n [] m l h = omega arith
  IsRising-from k n (e ∷ es) m l h = (omega (arith, h.0), h.1)

  pub IsRising-to :
      (n : ℕ) (xs : List Event) (m m' : ℕ) → m ≤ m' → IsRising key n xs m → IsRising key n xs m'
  IsRising-to n [] m m' l h = omega arith
  IsRising-to n (e ∷ es) m m' l h = (h.0, IsRising-to (key e + 1) es m m' l h.1)

  pub IsRising-snoc :
      (n : ℕ) (xs : List Event) (m : ℕ) (e : Event)
      → m ≤ key e
      → IsRising key n xs m
      → IsRising key n (xs ++ e ∷ []) (key e + 1)
  IsRising-snoc n [] m e l h = (omega arith, omega arith)
  IsRising-snoc n (x ∷ xs) m e l h = (h.0, IsRising-snoc (key x + 1) xs m e l h.1)

  pub select-IsRising :
      (test : Event → Bool) (n : ℕ) (xs : List Event) (m : ℕ)
      → IsRising key n xs m
      → IsRising key n (select test xs) m
  unfolding select
  select-IsRising test n [] m h = h
  select-IsRising test n (e ∷ es) m h = elim (Bool-cases (test e)) [
    | inl p ↦ rw p (h.0, select-IsRising test (key e + 1) es m h.1)
    | inr p ↦ rw p (
        IsRising-from n (key e + 1) (select test es) m (omega (arith, h.0))
          (select-IsRising test (key e + 1) es m h.1))
  ]

-- A numbered stream has rising versions.
pub IsNumbered-IsRising :
    (id : String) (v : ℕ) (xs : List Event)
    → IsNumbered id v xs
    → IsRising (λ e. e.version) v xs (v + length xs)
IsNumbered-IsRising id v [] h = omega arith
IsNumbered-IsRising id v (e ∷ es) h = (
  omega (arith, h.1),
  subst (λ k. IsRising (λ f. f.version) (e.version + 1) es k) (omega (arith, h.1))
      (subst (λ k. IsRising (λ f. f.version) (k + 1) es (v + 1 + length es)) (sym h.1)
        (IsNumbered-IsRising id (v + 1) es h.2)),
)
