-- ===== src/Query/Order.antt =====
-- The order of the rows in Statement of internal/query/query.go.
use eventledger.Prelude.{
  ℕ, ◌≤◌, ◌<◌, ◌≡◌, ◌≢◌, refl, ap, ◌∙◌, Bool, true, false, String, List, [], ◌∷◌, arith, Bool-cases,
  inl, inr, ltb,
}
use eventledger.Projection.Tables.{StatementRow}
use eventledger.Query.{select_rows, is_newer, insert_newest, newest_first, is_entry_before}

abbrev pub is_before : ℕ → StatementRow → Bool
is_before c row = ltb row.occurred_at c

select-insert_kept :
    (c : ℕ) (row : StatementRow) (rows : List StatementRow)
    → is_before c row ≡ true
    → select_rows (is_before c) (insert_newest row rows)
      ≡ insert_newest row (select_rows (is_before c) rows)
select-insert_kept c row [] h = ground (arith, h)
select-insert_kept c row (other ∷ rows) h = ground (arith, h, select-insert_kept c row rows h)

select-insert_dropped :
    (c : ℕ) (row : StatementRow) (rows : List StatementRow)
    → is_before c row ≡ false
    → select_rows (is_before c) (insert_newest row rows) ≡ select_rows (is_before c) rows
select-insert_dropped c row [] h = ground (arith, h)
select-insert_dropped c row (other ∷ rows) h = ground (arith, h, select-insert_dropped c row rows h)

pub select-newest :
    (c : ℕ) (rows : List StatementRow)
    → select_rows (is_before c) (newest_first rows) ≡ newest_first (select_rows (is_before c) rows)
select-newest c [] = refl
select-newest c (row ∷ rows) = elim (Bool-cases (is_before c row)) [
  | inl p ↦
      select-insert_kept c row (newest_first rows) p
      ∙ ap (insert_newest row) (select-newest c rows)
      ∙ (rw p refl)
  | inr p ↦ select-insert_dropped c row (newest_first rows) p ∙ select-newest c rows ∙ (rw p refl)
]

-- The times fall strictly, from below `c` on.
abbrev pub IsFalling : ℕ → List StatementRow → Type 0
IsFalling c [] = Unit
IsFalling c (row ∷ rows) = (row.occurred_at < c) × IsFalling row.occurred_at rows

abbrev pub IsAlone : StatementRow → List StatementRow → Type 0
IsAlone row [] = Unit
IsAlone row (other ∷ rows) = (row.occurred_at ≢ other.occurred_at) × IsAlone row rows

-- No two entries have the same time.
abbrev pub IsSpread : List StatementRow → Type 0
IsSpread [] = Unit
IsSpread (row ∷ rows) = IsAlone row rows × IsSpread rows

insert-IsAlone :
    (row other : StatementRow) (rows : List StatementRow)
    → row.occurred_at ≢ other.occurred_at
    → IsAlone row rows
    → IsAlone row (insert_newest other rows)
insert-IsAlone row other [] ne h = (ne, tt)
insert-IsAlone row other (third ∷ rows) ne h = elim (Bool-cases (is_newer third other)) [
  | inl p ↦ rw p (h.0, insert-IsAlone row other rows ne h.1)
  | inr p ↦ rw p (ne, h)
]

newest-IsAlone :
    (row : StatementRow) (rows : List StatementRow)
    → IsAlone row rows
    → IsAlone row (newest_first rows)
newest-IsAlone row [] h = tt
newest-IsAlone row (other ∷ rows) h =
    insert-IsAlone row other (newest_first rows) h.0 (newest-IsAlone row rows h.1)

insert-IsFalling :
    (c : ℕ) (row : StatementRow) (rows : List StatementRow)
    → row.occurred_at < c
    → IsAlone row rows
    → IsFalling c rows
    → IsFalling c (insert_newest row rows)
insert-IsFalling c row [] l h k = (l, tt)
insert-IsFalling c row (other ∷ rows) l h k = elim (Bool-cases (is_newer other row)) [
  | inl p ↦
      let older : row.occurred_at < other.occurred_at = ground (arith, p, h.0) in
      rw p (k.0, insert-IsFalling other.occurred_at row rows older h.1 k.1)
  | inr p ↦
      let newer : other.occurred_at < row.occurred_at = ground (arith, p, h.0) in
      rw p (l, (newer, k.1))
]

abbrev pub AllBefore : ℕ → List StatementRow → Type 0
AllBefore c [] = Unit
AllBefore c (row ∷ rows) = (row.occurred_at < c) × AllBefore c rows

pub newest-IsFalling :
    (c : ℕ) (rows : List StatementRow)
    → AllBefore c rows
    → IsSpread rows
    → IsFalling c (newest_first rows)
newest-IsFalling c [] b h = tt
newest-IsFalling c (row ∷ rows) b h =
    insert-IsFalling c row (newest_first rows) b.0 (newest-IsAlone row rows h.0)
      (newest-IsFalling c rows b.1 h.1)

IsFalling-to : (c d : ℕ) (rows : List StatementRow) → c ≤ d → IsFalling c rows → IsFalling d rows
IsFalling-to c d [] l h = tt
IsFalling-to c d (row ∷ rows) l h = (omega (arith, h.0), h.1)

pub select_all :
    (c : ℕ) (rows : List StatementRow) → IsFalling c rows → select_rows (is_before c) rows ≡ rows
select_all c [] h = refl
select_all c (row ∷ rows) h =
    let rest = select_all c rows (IsFalling-to row.occurred_at c rows (omega (arith, h.0)) h.1) in
    ground (arith, h.0, rest)

pub select-narrower :
    (account_id : String) (c before : ℕ) (rows : List StatementRow)
    → c ≤ before
    → select_rows (is_before c) (select_rows (is_entry_before account_id before) rows)
      ≡ select_rows (is_entry_before account_id c) rows
select-narrower account_id c before [] l = refl
select-narrower account_id c before (row ∷ rows) l =
    ground (arith, select-narrower account_id c before rows l)

pub select-AllBefore :
    (account_id : String) (before : ℕ) (rows : List StatementRow)
    → AllBefore before (select_rows (is_entry_before account_id before) rows)
select-AllBefore account_id before [] = tt
select-AllBefore account_id before (row ∷ rows) =
    elim (Bool-cases (is_entry_before account_id before row)) [
      | inl p ↦ rw p (ground (arith, p), select-AllBefore account_id before rows)
      | inr p ↦ rw p (select-AllBefore account_id before rows)
    ]
