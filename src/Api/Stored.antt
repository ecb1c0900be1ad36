-- ===== src/Api/Stored.antt =====
-- internal/api/idempotency.go with the store on Postgres: the rows of idempotency_keys by key. HTTP
-- statuses fit into their column.
use eventledger.Prelude.{
  ℕ, ◌≡◌, refl, Bool, true, false, String, Option, none, some, [], ◌==◌, if◌then◌else◌,
}
use eventledger.Domain.Errors.{Sentinel, is, Result, ok, err, fail}
use eventledger.Database.{Db, Sql, ◌>>=◌, return, exec, query}
use eventledger.Api.Keys
use eventledger.Api.Keys.{IdempotencyRecord, no_record, Records, store_record}

abbrev insert_absent : Option IdempotencyRecord → String → String → Records → Result ℕ × Records
insert_absent (some rec) key hash t = (ok 0, t)
insert_absent none key hash t =
    (ok 1, store_record t key (record { request_hash = hash; status_code = 0; body = "" }))

-- INSERT INTO idempotency_keys … ON CONFLICT (key) DO NOTHING
abbrev pub insert_key : String → String → Records → Result ℕ × Records
insert_key key hash t = insert_absent (t key) key hash t

abbrev row_or_none : Option IdempotencyRecord → Result IdempotencyRecord
row_or_none none = fail Sentinel.no_rows
row_or_none (some rec) = ok rec

-- What Reserve returns after its SELECT.
abbrev pub known :
    Result IdempotencyRecord × Db Records → Result (Bool × IdempotencyRecord) × Db Records
known (ok rec, db) = (ok (false, rec), db)
known (err x, db) = (if is x Sentinel.no_rows then ok (false, no_record) else err x, db)

-- Reserve; `others` are the steps that others take between its two statements.
unfoldable pub reserve_row :
    String → String → (Records → Records) → Sql Records (Bool × IdempotencyRecord)
reserve_row key hash others = do
  n ← exec (insert_key key hash)
  (if n == 1 then return (true, no_record) else λ db.
      known (query (λ t. row_or_none (t key)) (record db { tables = others db.tables })))

abbrev update_present :
    Option IdempotencyRecord → String → ℕ → String → Records → Result ℕ × Records
update_present none key status body t = (ok 0, t)
update_present (some rec) key status body t =
    (ok 1, store_record t key (record rec { status_code = status; body = body }))

-- UPDATE idempotency_keys SET …
abbrev pub update_key : String → ℕ → String → Records → Result ℕ × Records
update_key key status body t = update_present (t key) key status body t

unfoldable pub complete_row : String → ℕ → String → Sql Records (Unit {0})
complete_row key status body = exec (update_key key status body) >>= λ n. return tt

abbrev pub rows : Records → Db Records
rows recs = record { faults = []; tables = recs }

reserve-rows :
    (key hash : String) (recs : Records) (o : Option IdempotencyRecord)
    → recs key ≡ o
    → reserve_row key hash (λ t. t) (rows recs)
      ≡ (ok (Keys.reserve key hash recs).0, rows (Keys.reserve key hash recs).1)
unfolding reserve_row Keys.reserve exec query
reserve-rows key hash recs none q = rw q refl
reserve-rows key hash recs (some rec) q = rw q (rw q refl)

complete-rows :
    (key : String) (status : ℕ) (body : String) (recs : Records) (o : Option IdempotencyRecord)
    → recs key ≡ o
    → complete_row key status body (rows recs) ≡ (ok tt, rows (Keys.complete key status body recs))
unfolding complete_row Keys.complete exec
complete-rows key status body recs none q = rw q refl
complete-rows key status body recs (some rec) q = rw q refl

-- Where the database answers all calls and nobody comes between the two statements of Reserve, the
-- store on Postgres answers as the store in memory with the same records does, and is left with the
-- same records: Reserve for every key and hash, Complete for every response.
pub rows_as_memory :
    (key hash : String) (status : ℕ) (body : String) (recs : Records)
    → (reserve_row key hash (λ t. t) (rows recs)
        ≡ (ok (Keys.reserve key hash recs).0, rows (Keys.reserve key hash recs).1))
      × (complete_row key status body (rows recs)
          ≡ (ok tt, rows (Keys.complete key status body recs)))
rows_as_memory key hash status body recs =
    (reserve-rows key hash recs (recs key) refl, complete-rows key status body recs (recs key) refl)
