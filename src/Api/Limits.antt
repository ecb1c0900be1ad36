-- ===== src/Api/Limits.antt =====
-- The parameters of GET /accounts/{id}/statement of internal/api/server.go, and the size of its page.
use eventledger.Prelude.{
  ℕ, zero, suc, ◌+◌, ◌≤◌, ◌≡◌, refl, sym, Bool, String, List, [], ◌∷◌, length, arith, subst, inl,
  inr, Bool-cases, str_eq,
}
use eventledger.Prelude.Int.{ℤ, pos, negsuc, pos_part, ◌≤ℤ◌}
use eventledger.Domain.Errors.{Result, ok, err, Result-cases}
use eventledger.Database.{Db, ◌>>◌, query, call, return, bind-ok, query-ok}
use eventledger.Projection.Tables.{Tables, StatementRow}
use eventledger.Query
use eventledger.Query.{StatementEntry, take_rows, entries_of, page_rows, page, page_size}
use eventledger.Api.Handlers.{
  replied, answer_with, before_param, limit_param, page_reply, handle_statement, in_range,
}

length-take : (n : ℕ) (rows : List StatementRow) → length (entries_of (take_rows n rows)) ≤ n
length-take zero rows = omega arith
length-take (suc n) [] = omega arith
length-take (suc n) (row ∷ rows) = omega (arith, length-take n rows)

module _ (is_uuid : String → Bool) where
  page_rows-ok :
      (size : ℕ) (id : String) (before : ℕ) (t : Tables) {rows : List StatementRow}
      → page_rows is_uuid size id before t ≡ ok rows
      → rows ≡ page size id before t
  page_rows-ok size id before t h = ground arith

  statement-length :
      (id : String) (limit : ℤ) (before : ℕ) (db : Db Tables) {es : List StatementEntry}
      → (Query.statement is_uuid id limit before db).0 ≡ ok es
      → length es ≤ page_size limit
  unfolding Query.statement
  statement-length id limit before db {es} h =
      let rest = λ (rows : List StatementRow). call >> return (entries_of rows) in
      let (rows, asked, more) =
        bind-ok (query (page_rows is_uuid (page_size limit) id before)) rest db h in
      let (u, called, returned) = bind-ok call (λ v. return (entries_of rows)) _ more in
      let known =
        page_rows-ok (page_size limit) id before db.tables
          (query-ok (page_rows is_uuid (page_size limit) id before) db asked).0 in
      let same : entries_of rows ≡ es = cc in
      subst (λ l. length l ≤ page_size limit) same
        (subst (λ l. length (entries_of l) ≤ page_size limit) (sym known)
          (length-take (page_size limit) _))

  module _ (parse_time : String → Result ℕ) (parse_int : String → Result ℤ) where
    -- A page size that is accepted.
    abbrev pub IsPageSize : ℤ → Type 0
    IsPageSize n = (pos 1 ≤ℤ n) × (n ≤ℤ pos 100) × (page_size n ≡ pos_part n)

    in_range-IsPageSize :
        (m : ℤ) {n : ℤ} → in_range is_uuid parse_time parse_int m ≡ ok n → IsPageSize n
    in_range-IsPageSize (pos m) h = ground arith
    in_range-IsPageSize (negsuc m) h = ground arith

    limit_param-IsPageSize :
        (v : String) {n : ℤ} → limit_param is_uuid parse_time parse_int v ≡ ok n → IsPageSize n
    limit_param-IsPageSize v {n} h = elim (Bool-cases (str_eq v "")) [
      | inl p ↦
          let same : pos 20 ≡ n = cc (rw p at h) in
          subst IsPageSize same (omega arith, omega arith, refl)
      | inr p ↦ elim (Result-cases (parse_int v)) [
        | inl (x, q) ↦ absurd (cc (rw (p, q) at h))
        | inr (m, q) ↦ in_range-IsPageSize m (rw (p, q) at h)
      ]
    ]

    reply-bounds :
        (id : String) (before : Result ℕ) (limit : Result ℤ) (db : Db Tables)
        {es : List StatementEntry}
        → (page_reply is_uuid parse_time parse_int id before limit db).0 ≡ replied 200 es
        → (n : ℤ) × (limit ≡ ok n) × (length es ≤ page_size n)
    reply-bounds id (err x) limit db h = absurd (cc)
    reply-bounds id (ok b) (err x) db h = absurd (cc)
    reply-bounds id (ok b) (ok n) db h =
        (n, refl, statement-length id n b db (answered (Query.statement is_uuid id n b db) h))
      where
        answered :
            (r : Result (List StatementEntry) × Db Tables) {xs : List StatementEntry}
            → (answer_with 200 r).0 ≡ replied 200 xs
            → r.0 ≡ ok xs
        answered (ok xs, d) q = cc
        answered (err x, d) q = absurd (cc)

    -- A statement that is answered with 200 has at most as many entries as its limit says, which is
    -- 20 where none is given and always between 1 and 100: Statement never falls back to its own
    -- default for a request.
    pub handle_statement-IsPageSize :
        (now second : ℕ) (id before limit : String) (db : Db Tables) (es : List StatementEntry)
        → (handle_statement is_uuid parse_time parse_int now second id before limit db).0
          ≡ replied 200 es
        → (n : ℤ) × (limit_param is_uuid parse_time parse_int limit ≡ ok n)
          × IsPageSize n
          × (length es ≤ pos_part n)
    unfolding handle_statement
    handle_statement-IsPageSize now second id before limit db es h =
        let (n, read, short) =
          reply-bounds id (before_param is_uuid parse_time parse_int (now + second) before)
            (limit_param is_uuid parse_time parse_int limit) db h in
        let size = limit_param-IsPageSize limit read in
        (n, read, size, subst (λ k. length es ≤ k) size.2 short)
