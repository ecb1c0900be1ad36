-- ===== src/Query/Pages.antt =====
-- The pages of Statement of internal/query/query.go, from cursor to cursor.
use eventledger.Prelude.{
  ℕ, zero, suc, ◌-◌, ◌≤◌, ◌<◌, ◌≡◌, refl, sym, ap, ◌∙◌, Bool, true, false, String, List, [], ◌∷◌,
  ◌++◌, length, arith, subst,
}
use eventledger.Prelude.Int.{ℤ, pos, negsuc}
use eventledger.Domain.Errors.{ok}
use eventledger.Database.{exec, query, call}
use eventledger.Projection.Tables.{Tables, StatementRow}
use eventledger.Query.{
  select_rows, statement, page_size, entries_of, newest_first, take_rows, is_entry_before, page,
}
use eventledger.Query.Order.{
  is_before, IsFalling, IsSpread, select-newest, newest-IsFalling, select_all, select-narrower,
  select-AllBefore,
}

abbrev drop_rows : ℕ → List StatementRow → List StatementRow
drop_rows zero rows = rows
drop_rows (suc n) [] = []
drop_rows (suc n) (row ∷ rows) = drop_rows n rows

-- The cursor after a page: the time of its last entry.
abbrev pub cursor : StatementRow → List StatementRow → ℕ
cursor row [] = row.occurred_at
cursor row (other ∷ rows) = cursor other rows

abbrev followed : (ℕ → List StatementRow) → List StatementRow → List StatementRow
followed more [] = []
followed more (row ∷ rows) = (row ∷ rows) ++ more (cursor row rows)

-- What a client does: it asks for a page, and for those behind it until one is empty.
abbrev pub pages : ℕ → ℕ → String → ℕ → Tables → List StatementRow
pages zero size account_id before t = []
pages (suc fuel) size account_id before t =
    followed (λ c. pages fuel size account_id c t) (page size account_id before t)

-- The cursor after a page cuts off exactly the page.
select-cursor :
    (n c : ℕ) (row : StatementRow) (rows : List StatementRow)
    → IsFalling c (row ∷ rows)
    → (select_rows (is_before (cursor row (take_rows n rows))) (row ∷ rows) ≡ drop_rows n rows)
      × (cursor row (take_rows n rows) ≤ row.occurred_at)
      × IsFalling (cursor row (take_rows n rows)) (drop_rows n rows)
select-cursor zero c row rows h =
    (ground (arith, select_all row.occurred_at rows h.1), omega arith, h.1)
select-cursor (suc n) c row [] h = (ground arith, omega arith, tt)
select-cursor (suc n) c row (other ∷ rows) h =
    let (rest, low, falling) = select-cursor n row.occurred_at other rows h.1 in
    let out : is_before (cursor other (take_rows n rows)) row ≡ false =
      ground (arith, low, h.1.0) in
    (rw out rest, omega (arith, low, h.1.0), falling)

take-drop : (n : ℕ) (rows : List StatementRow) → take_rows n rows ++ drop_rows n rows ≡ rows
take-drop zero rows = refl
take-drop (suc n) [] = refl
take-drop (suc n) (row ∷ rows) = ap (λ l. row ∷ l) (take-drop n rows)

length-drop : (n : ℕ) (rows : List StatementRow) → length (drop_rows n rows) ≤ length rows
length-drop zero rows = omega arith
length-drop (suc n) [] = omega arith
length-drop (suc n) (row ∷ rows) = omega (arith, length-drop n rows)

-- The whole statement of an account before a time.
abbrev pub entries : String → ℕ → Tables → List StatementRow
entries account_id before t =
    newest_first (select_rows (is_entry_before account_id before) t.statements)

entries-narrower :
    (account_id : String) (c before : ℕ) (t : Tables)
    → c ≤ before
    → entries account_id c t ≡ select_rows (is_before c) (entries account_id before t)
entries-narrower account_id c before t l = sym (
    select-newest c (select_rows (is_entry_before account_id before) t.statements)
    ∙ ap newest_first (select-narrower account_id c before t.statements l))

followed_falling :
    (fuel n : ℕ) (account_id : String) (before : ℕ) (t : Tables) (xs : List StatementRow)
    → entries account_id before t ≡ xs
    → length xs < suc fuel
    → IsFalling before xs
    → ((c : ℕ)
        → length (entries account_id c t) < fuel
        → IsFalling c (entries account_id c t)
        → pages fuel (suc n) account_id c t ≡ entries account_id c t)
    → followed (λ c. pages fuel (suc n) account_id c t) (take_rows (suc n) xs) ≡ xs
followed_falling fuel n account_id before t [] q enough h again = refl
followed_falling fuel n account_id before t (row ∷ rows) q enough h again =
    let (cut, low, falling) = select-cursor n before row rows h in
    let c = cursor row (take_rows n rows) in
    let rest : entries account_id c t ≡ drop_rows n rows =
      entries-narrower account_id c before t (omega (arith, low, h.0))
      ∙ ap (select_rows (is_before c)) q
      ∙ cut in
    let short : length (entries account_id c t) < fuel =
      subst (λ ys. length ys < fuel) (sym rest) (omega (arith, length-drop n rows, enough)) in
    let more = again c short (subst (IsFalling c) (sym rest) falling) ∙ rest in
    ap (λ l. row ∷ l) (ap (λ l. take_rows n rows ++ l) more ∙ take-drop n rows)

pages_falling :
    (fuel n : ℕ) (account_id : String) (before : ℕ) (t : Tables)
    → length (entries account_id before t) < fuel
    → IsFalling before (entries account_id before t)
    → pages fuel (suc n) account_id before t ≡ entries account_id before t
pages_falling zero n account_id before t enough h = absurd (omega arith)
pages_falling (suc fuel) n account_id before t enough h =
    followed_falling fuel n account_id before t (entries account_id before t) refl enough h
      (λ c short falling. pages_falling fuel n account_id c t short falling)

answers :
    (is_uuid : String → Bool) (account_id : String) (limit : ℤ) (before : ℕ) (t : Tables)
    → is_uuid account_id ≡ true
    → (statement is_uuid account_id limit before (record { faults = []; tables = t })).0
      ≡ ok (entries_of (page (page_size limit) account_id before t))
unfolding statement query call exec
answers is_uuid account_id limit before t valid = rw valid refl

page_size-positive : (limit : ℤ) → 0 < page_size limit
page_size-positive (pos n) = ground arith
page_size-positive (negsuc n) = ground arith

-- Where the database answers all calls, Statement gives the pages of an account with a size that its
-- limit decides. A client that follows the cursor from page to page gets each entry of the account
-- before the given time exactly once, the newest first, and comes to an empty page after at most one
-- page for each entry and one more, whatever the limit, if no two of these entries have the same time
-- and none is added meanwhile.
pub pages-entries :
    (is_uuid : String → Bool) (account_id : String) (limit : ℤ) (before : ℕ) (t : Tables)
    → is_uuid account_id ≡ true
    → IsSpread (select_rows (is_entry_before account_id before) t.statements)
    → ((b : ℕ)
        → (statement is_uuid account_id limit b (record { faults = []; tables = t })).0
          ≡ ok (entries_of (page (page_size limit) account_id b t)))
      × (pages (suc (length (entries account_id before t))) (page_size limit) account_id before t
          ≡ entries account_id before t)
pages-entries is_uuid account_id limit before t valid h =
    let size : page_size limit ≡ suc (page_size limit - 1) =
      omega (arith, page_size-positive limit) in
    (
      λ b. answers is_uuid account_id limit b t valid,
      subst
          (λ k.
            pages (suc (length (entries account_id before t))) k account_id before t
            ≡ entries account_id before t)
          (sym size)
          (pages_falling (suc (length (entries account_id before t))) (page_size limit - 1)
            account_id before t (omega arith)
            (newest-IsFalling before _ (select-AllBefore account_id before t.statements) h)),
    )
