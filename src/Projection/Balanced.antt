-- ===== src/Projection/Balanced.antt =====
-- The two read models of internal/projection/projector.go together: the balances, and the entries of
-- the statements.
use eventledger.Prelude.{
  ℕ, ◌≡◌, refl, sym, ap, ◌∙◌, Bool, true, false, String, List, [], ◌∷◌, ◌++◌, Option, ◌||◌, inl,
  inr, Bool-cases, eq_iff, str_eq, if◌then◌else◌, arith, subst,
}
use eventledger.Prelude.Int.{ℤ, pos, ◌+ℤ◌, int_laws}
use eventledger.Domain.Errors.{Error, Result, ok, err}
use eventledger.Domain.Events.{Event}
use eventledger.Projection.Tables.{Tables, StatementRow, assign, has_entry}
use eventledger.Projection.Apply.{apply}
use eventledger.Projection.Mirror.{IsMoved}
use eventledger.Projection.Applied.{IsApplied, apply-IsApplied}
use eventledger.Projection.Atomic.{IsProjected, apply-IsProjected}
use eventledger.Projection.Entries.{balance_or_zero, Posts, keeps, posts, type-Posts}

-- The sum of the entries of an account.
unfoldable pub total : String → List StatementRow → ℤ
total id [] = pos 0
total id (row ∷ rows) =
    if str_eq row.account_id id then row.amount +ℤ total id rows else total id rows

assoc : (a b c : ℤ) → a +ℤ (b +ℤ c) ≡ a +ℤ b +ℤ c
assoc a b c = omega int_laws

swap_zero : (a : ℤ) → a +ℤ pos 0 ≡ pos 0 +ℤ a
swap_zero a = omega int_laws

total-snoc_own :
    (id : String) (rows : List StatementRow) (row : StatementRow)
    → str_eq row.account_id id ≡ true
    → total id (rows ++ row ∷ []) ≡ total id rows +ℤ row.amount
unfolding total
total-snoc_own id [] row own = rw own (swap_zero row.amount)
total-snoc_own id (r ∷ rows) row own = elim (Bool-cases (str_eq r.account_id id)) [
  | inl p ↦ rw p (
      ap (λ n. r.amount +ℤ n) (total-snoc_own id rows row own)
      ∙ assoc r.amount (total id rows) row.amount)
  | inr p ↦ rw p (total-snoc_own id rows row own)
]

total-snoc_other :
    (id : String) (rows : List StatementRow) (row : StatementRow)
    → str_eq row.account_id id ≡ false
    → total id (rows ++ row ∷ []) ≡ total id rows
unfolding total
total-snoc_other id [] row other = rw other refl
total-snoc_other id (r ∷ rows) row other = elim (Bool-cases (str_eq r.account_id id)) [
  | inl p ↦ rw p (ap (λ n. r.amount +ℤ n) (total-snoc_other id rows row other))
  | inr p ↦ rw p (total-snoc_other id rows row other)
]

module _ (is_uuid : String → Bool) where
  -- Every balance is the sum of its account's entries, and every entry is of a marked event.
  pub record IsBalanced (t : Tables) : Type 0 where
    pub sums : (id : String) → balance_or_zero (t.balances id) ≡ total id t.statements
    pub marked : (id : String) → has_entry is_uuid id t.statements ≡ true → t.processed id ≡ true

  has_entry-snoc :
      (id : String) (rows : List StatementRow) (row : StatementRow)
      → has_entry is_uuid id (rows ++ row ∷ [])
        ≡ (has_entry is_uuid id rows || str_eq row.event_id id)
  unfolding has_entry
  has_entry-snoc id [] row = ground arith
  has_entry-snoc id (r ∷ rows) row = ground (arith, has_entry-snoc id rows row)

module _ (is_uuid : String → Bool) (now : ℕ) where
  moved-sums :
      (e : Event) (delta : ℤ) (row : StatementRow) (t v : Tables) (id : String)
      → IsMoved e delta t v
      → row.account_id ≡ e.aggregate_id
      → row.amount ≡ delta
      → v.statements ≡ t.statements ++ row ∷ []
      → balance_or_zero (t.balances id) ≡ total id t.statements
      → balance_or_zero (v.balances id) ≡ total id v.statements
  moved-sums e delta row t v id moved account amount added before =
      elim (Bool-cases (str_eq e.aggregate_id id)) [
        | inl own ↦
            let here = (eq_iff e.aggregate_id id).0 own in
            ap (λ m. balance_or_zero (m id)) moved.after
            ∙ (rw own refl)
            ∙ ap (λ o. balance_or_zero o +ℤ delta) (sym moved.before ∙ ap t.balances here)
            ∙ ap (λ n. n +ℤ delta) before
            ∙ ap (λ n. total id t.statements +ℤ n) (sym amount)
            ∙ sym (total-snoc_own id t.statements row (ap (λ a. str_eq a id) account ∙ own))
            ∙ ap (total id) (sym added)
        | inr other ↦
            ap (λ m. balance_or_zero (m id)) moved.after
            ∙ (rw other before)
            ∙ sym (total-snoc_other id t.statements row (ap (λ a. str_eq a id) account ∙ other))
            ∙ ap (total id) (sym added)
      ]

  Posts-sums :
      (e : Event) (t v : Tables) (id : String)
      → Posts e t v
      → balance_or_zero (t.balances id) ≡ total id t.statements
      → balance_or_zero (v.balances id) ≡ total id v.statements
  Posts-sums e t v id (keeps same left) before = same id ∙ before ∙ ap (total id) (sym left)
  Posts-sums e t v id (posts delta row moved event account amount added) before =
      moved-sums e delta row t v id moved account amount added before

  Posts-marked :
      (e : Event) (s t v : Tables) (id : String)
      → s.statements ≡ t.statements
      → Posts e s v
      → v.processed ≡ assign t.processed e.id true
      → (has_entry is_uuid id t.statements ≡ true → t.processed id ≡ true)
      → has_entry is_uuid id v.statements ≡ true
      → v.processed id ≡ true
  Posts-marked e s t v id same (keeps b left) mark before entered =
      let old = before (ap (has_entry is_uuid id) (sym (left ∙ same)) ∙ entered) in
      ground (arith, ap (λ m. m id) mark, old)
  Posts-marked e s t v id same (posts delta row moved event account amount added) mark before
        entered =
      elim (Bool-cases (str_eq e.id id)) [
        | inl own ↦ ap (λ m. m id) mark ∙ (rw own refl)
        | inr other ↦
            let old = before (
              ap (has_entry is_uuid id) (sym same)
              ∙ ground (
                arith,
                has_entry-snoc is_uuid id s.statements row,
                ap (has_entry is_uuid id) added,
                entered,
                ap (λ a. str_eq a id) event,
                other,
              )) in
            ap (λ m. m id) mark ∙ (rw other old)
      ]

  unmarked :
      (id : String) (t : Tables)
      → IsBalanced is_uuid t
      → t.processed id ≡ false
      → has_entry is_uuid id t.statements ≡ false
  unmarked id t h fresh = elim (Bool-cases (has_entry is_uuid id t.statements)) [
    | inl p ↦ absurd (cc (h.marked id p))
    | inr p ↦ p
  ]

  IsApplied-IsBalanced :
      (e : Event) (t v : Tables)
      → t.processed e.id ≡ false
      → IsBalanced is_uuid t
      → IsApplied is_uuid now e t v
      → IsBalanced is_uuid v
  IsApplied-IsBalanced e t v fresh h a =
      let s = a.db.tables in
      let done : Posts e s v = subst (Posts e s) (sym a.result) (
        type-Posts is_uuid now e.type e a.db
          (ap (has_entry is_uuid e.id) a.entries ∙ unmarked e.id t h fresh) a.done) in
      record {
        sums = λ id.
            Posts-sums e s v id done (
              ap (λ m. balance_or_zero (m id)) a.start ∙ h.sums id ∙ ap (total id) (sym a.entries));
        marked = λ id. Posts-marked e s t v id a.entries done a.marked (h.marked id);
      }

  fresh-IsBalanced :
      (e : Event) (t : Tables) (faults : List (Option Error)) (r : Result (Unit {0}) × Tables)
      → apply is_uuid now faults e t ≡ r
      → t.processed e.id ≡ false
      → IsBalanced is_uuid t
      → IsBalanced is_uuid r.1
  fresh-IsBalanced e t faults (ok u, v) q fresh h =
      IsApplied-IsBalanced e t v fresh h (apply-IsApplied is_uuid now faults e t v fresh q)
  fresh-IsBalanced e t faults (err x, v) q fresh h =
      let same : v ≡ t =
        subst (IsProjected is_uuid now e t) q (apply-IsProjected is_uuid now faults e t) in
      subst (IsBalanced is_uuid) (sym same) h

  again-IsBalanced :
      (e : Event) (t : Tables) (r : Result (Unit {0}) × Tables)
      → t.processed e.id ≡ true
      → IsProjected is_uuid now e t r
      → IsBalanced is_uuid t
      → IsBalanced is_uuid r.1
  again-IsBalanced e t (ok u, v) seen (valid, marked, same) h =
      subst (IsBalanced is_uuid) (sym (same seen)) h
  again-IsBalanced e t (err x, v) seen same h = subst (IsBalanced is_uuid) (sym same) h

  -- Apply keeps the read models consistent, for any event, new or seen before, and whatever Postgres
  -- answers: if every balance is the sum of its account's entries, an account without a row counting
  -- as nothing, and every entry is of an event marked as processed, then both hold afterwards.
  pub apply-IsBalanced :
      (faults : List (Option Error)) (e : Event) (t : Tables)
      → IsBalanced is_uuid t
      → IsBalanced is_uuid (apply is_uuid now faults e t).1
  apply-IsBalanced faults e t h = elim (Bool-cases (t.processed e.id)) [
    | inl seen ↦
        again-IsBalanced e t (apply is_uuid now faults e t) seen
          (apply-IsProjected is_uuid now faults e t) h
    | inr fresh ↦ fresh-IsBalanced e t faults _ refl fresh h
  ]
