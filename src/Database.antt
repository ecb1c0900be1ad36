-- ===== src/Database.antt =====
-- What the code uses of database/sql: statements, which change the tables or are refused, and calls
-- that fail for reasons of their own. Postgres and its driver are outside: their errors are given.
use eventledger.Prelude.{◌≡◌, refl, sym, ap, ◌∙◌, String, List, [], ◌∷◌, Option, none, some}
use eventledger.Domain.Errors.{Error, Result, ok, err, within}

-- The tables, in a transaction as the transaction sees them, and the answers that the database gives
-- out of turn to the calls to come: none, or an error in place of an answer.
pub record Db (T : Type 0) : Type 0 where
  pub faults : List (Option Error)
  pub tables : T

abbrev pub Sql : Type 0 → Type 0 → Type 0
Sql T A = Db T → Result A × Db T

infixl 5 ◌>>=◌
infixl 5 ◌>>◌
module _ {T : Type 0} where
  abbrev pub and_then : {A B : Type 0} → (A → Sql T B) → Result A × Db T → Result B × Db T
  and_then f (err x, db) = (err x, db)
  and_then f (ok a, db) = f a db

  abbrev pub return : {A : Type 0} → A → Sql T A
  return a db = (ok a, db)

  -- A call that answers without the database.
  abbrev pub answer : {A : Type 0} → Result A → Sql T A
  answer r db = (r, db)

  abbrev pub answered : {A : Type 0} → List (Option Error) → Result A × T → Result A × Db T
  answered fs (r, t) = (r, record { faults = fs; tables = t })

  -- A call of the database: its answer, or an error in its place.
  abbrev pub exec_on :
      {A : Type 0} → List (Option Error) → (T → Result A × T) → Db T → Result A × Db T
  exec_on [] statement db = answered [] (statement db.tables)
  exec_on (none ∷ fs) statement db = answered fs (statement db.tables)
  exec_on (some x ∷ fs) statement db = (err x, record db { faults = fs })

  unfoldable pub exec : {A : Type 0} → (T → Result A × T) → Sql T A
  exec statement db = exec_on db.faults statement db

  -- A call of which only the success matters: a begin, a commit, the reading of rows.
  unfoldable pub call : Sql T (Unit {0})
  unfolding exec
  call = exec (λ t. (ok tt, t))

  -- A query changes nothing.
  unfoldable pub query : {A : Type 0} → (T → Result A) → Sql T A
  unfolding exec
  query select = exec (λ t. (select t, t))

  -- `fmt.Errorf("<context>: %w", err)` around the error of a call.
  abbrev pub wrap : {A : Type 0} → String → Result A × Db T → Result A × Db T
  wrap context (r, db) = (within context r, db)

  -- A deferred rollback: `restore` gives the tables back, as they were and as they are now.
  abbrev pub rolled_back : {A : Type 0} → (T → T → T) → T → Result A × Db T → Result A × Db T
  rolled_back restore before (ok a, db) = (ok a, db)
  rolled_back restore before (err x, db) = (err x, record db { tables = restore before db.tables })

abbrev pub ◌>>=◌ : {T A B : Type 0} → Sql T A → (A → Sql T B) → Sql T B
◌>>=◌ m f db = and_then f (m db)

abbrev pub ◌>>◌ : {T B : Type 0} → Sql T (Unit {0}) → Sql T B → Sql T B
m >> k = m >>= λ u. k

module _ {T : Type 0} where
  -- A chain that succeeds went through its first part.
  pub and_then-ok :
      {A B : Type 0} (f : A → Sql T B) (r : Result A × Db T) {b : B}
      → (and_then f r).0 ≡ ok b
      → (a : A) × (r.0 ≡ ok a) × (and_then f r ≡ f a r.1)
  and_then-ok f (ok a, db) h = (a, refl, refl)
  and_then-ok f (err x, db) h = absurd (cc)

  -- A call that succeeds has done what its statement does.
  pub exec-ok :
      {A : Type 0} (statement : T → Result A × T) (db : Db T) {a : A}
      → (exec statement db).0 ≡ ok a
      → ((statement db.tables).0 ≡ ok a) × ((exec statement db).1.tables ≡ (statement db.tables).1)
  unfolding exec
  exec-ok statement db {a} h = answering db.faults h
    where
      answering :
          (fs : List (Option Error))
          → (exec_on fs statement db).0 ≡ ok a
          → ((statement db.tables).0 ≡ ok a)
            × ((exec_on fs statement db).1.tables ≡ (statement db.tables).1)
      answering [] q = (q, refl)
      answering (none ∷ fs) q = (q, refl)
      answering (some x ∷ fs) q = absurd (cc)

  pub query-ok :
      {A : Type 0} (select : T → Result A) (db : Db T) {a : A}
      → (query select db).0 ≡ ok a
      → (select db.tables ≡ ok a) × ((query select db).1.tables ≡ db.tables)
  unfolding query
  query-ok select db h = exec-ok (λ t. (select t, t)) db h

  pub wrap-ok :
      {A : Type 0} (context : String) (r : Result A × Db T) {a : A}
      → (wrap context r).0 ≡ ok a
      → r.0 ≡ ok a
  wrap-ok context (ok b, db) h = h
  wrap-ok context (err x, db) h = absurd (cc)

  pub call-tables : (db : Db T) → (call db).1.tables ≡ db.tables
  unfolding call exec
  call-tables db = answering db.faults
    where
      answering :
          (fs : List (Option Error)) → (exec_on fs (λ t. (ok tt, t)) db).1.tables ≡ db.tables
      answering [] = refl
      answering (none ∷ fs) = refl
      answering (some x ∷ fs) = refl

  pub query-tables :
      {A : Type 0} (select : T → Result A) (db : Db T) → (query select db).1.tables ≡ db.tables
  unfolding query exec
  query-tables select db = answering db.faults
    where
      answering :
          (fs : List (Option Error)) → (exec_on fs (λ t. (select t, t)) db).1.tables ≡ db.tables
      answering [] = refl
      answering (none ∷ fs) = refl
      answering (some x ∷ fs) = refl

  -- What holds before a call and after its statement holds after the call, whatever it answers.
  pub exec-keeps :
      {A : Type 0} (P : T → Type 0) (statement : T → Result A × T) (db : Db T)
      → P db.tables
      → P (statement db.tables).1
      → P (exec statement db).1.tables
  unfolding exec
  exec-keeps P statement db before after = answering db.faults
    where
      answering : (fs : List (Option Error)) → P (exec_on fs statement db).1.tables
      answering [] = after
      answering (none ∷ fs) = after
      answering (some x ∷ fs) = before

  -- A part of a transaction that leaves the tables as they are.
  abbrev pub IsReading : {A : Type 0} → Sql T A → Type 0
  IsReading m = (db : Db T) → (m db).1.tables ≡ db.tables

pub bind-ok :
    {T A B : Type 0} (m : Sql T A) (f : A → Sql T B) (db : Db T) {b : B}
    → ((m >>= f) db).0 ≡ ok b
    → (a : A) × ((m db).0 ≡ ok a) × ((f a (m db).1).0 ≡ ok b)
bind-ok m f db h = let (a, q, e) = and_then-ok f (m db) h in (a, q, ap (λ r. r.0) (sym e) ∙ h)

pub bind-IsReading :
    {T A B : Type 0} (m : Sql T A) (f : A → Sql T B)
    → IsReading m
    → ((a : A) → IsReading (f a))
    → IsReading (m >>= f)
bind-IsReading {T} m f hm hf db = after (m db) (hm db)
  where
    after : (r : Result _ × Db T) → r.1.tables ≡ db.tables → (and_then f r).1.tables ≡ db.tables
    after (err x, d) h = h
    after (ok a, d) h = hf a d ∙ h
