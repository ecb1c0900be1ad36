-- ===== src/Projection/Entries.antt =====
-- The rows of statement_entries that internal/projection/projector.go writes, and the balance that
-- the same transaction changes.
use eventledger.Prelude.{
  ℕ, ◌≡◌, refl, sym, ap, ◌∙◌, Bool, false, String, [], ◌∷◌, ◌++◌, Option, none, some, inl, inr,
  Bool-cases, eq_iff, str_eq, arith,
}
use eventledger.Prelude.Int.{ℤ, pos, neg64}
use eventledger.Domain.Errors.{Result, ok, err}
use eventledger.Domain.Events.{
  Event, EventType, AccountOpened, unmarshal_account_opened, unmarshal_money_deposited,
  unmarshal_money_withdrawn, unmarshal_transfer_debited, unmarshal_transfer_credited,
  unmarshal_transfer_reversed,
}
use eventledger.Database.{Db, Sql, ◌>>=◌, return, exec, answer, and_then-ok, exec-ok}
use eventledger.Projection.Tables.{
  Tables, BalanceRow, StatementRow, open_balance, insert_entry, has_entry,
}
use eventledger.Projection.Keep.{IsKept, discard-IsKept}
use eventledger.Projection.Mirror.{
  IsMoved, balances_of, chain-IsMoved, statement-IsKept, entry-IsKept, insert_transfer-balances,
  update_transfer-balances,
}
use eventledger.Projection.Entryless.{
  statements_of, bump-statements, insert_transfer-statements, update_transfer-statements,
  open_balance-statements,
}
use eventledger.Projection.Apply.{bump, statement, apply_event_type}

-- The balance of an account, nothing where it has no row.
abbrev pub balance_or_zero : Option BalanceRow → ℤ
balance_or_zero none = pos 0
balance_or_zero (some row) = row.balance

-- What an event does to balances and entries: it changes no balance and enters nothing, or moves one
-- balance and enters the same amount.
pub data Posts (e : Event) (t u : Tables) : Type 0 where
  keeps :
      ((id : String) → balance_or_zero (u.balances id) ≡ balance_or_zero (t.balances id))
      → u.statements ≡ t.statements
      → Posts e t u
  posts :
      (delta : ℤ) (row : StatementRow)
      → IsMoved e delta t u
      → row.event_id ≡ e.id
      → row.account_id ≡ e.aggregate_id
      → row.amount ≡ delta
      → u.statements ≡ t.statements ++ row ∷ []
      → Posts e t u

module _ (is_uuid : String → Bool) (now : ℕ) where
  -- A part of a transaction that, where it succeeds, adds one entry of `e` with an amount.
  abbrev Enters : Event → ℤ → Sql Tables (Unit {0}) → Type 0
  Enters e amount m =
      (db : Db Tables) (u : Unit {0})
      → has_entry is_uuid e.id db.tables.statements ≡ false
      → (m db).0 ≡ ok u
      → (row : StatementRow) × (row.event_id ≡ e.id)
        × (row.account_id ≡ e.aggregate_id)
        × (row.amount ≡ amount)
        × ((m db).1.tables.statements ≡ db.tables.statements ++ row ∷ [])

  open_balance-keeps :
      (e : Event) (owner : String) (t : Tables) (id : String)
      → balance_or_zero ((open_balance is_uuid now e owner t).1.balances id)
        ≡ balance_or_zero (t.balances id)
  unfolding open_balance
  open_balance-keeps e owner t id = elim (Bool-cases (str_eq e.aggregate_id id)) [
    | inl same ↦
        let here = (eq_iff e.aggregate_id id).0 same in ground (arith, here, ap t.balances here)
    | inr other ↦ ground (arith, other)
  ]

  insert_entry-ok :
      (row : StatementRow) (t : Tables) {n : ℕ}
      → has_entry is_uuid row.event_id t.statements ≡ false
      → (insert_entry is_uuid row t).0 ≡ ok n
      → (insert_entry is_uuid row t).1.statements ≡ t.statements ++ row ∷ []
  unfolding insert_entry
  insert_entry-ok row t fresh h = ground (arith, fresh)

  statement-Enters :
      (e : Event) (kind : String) (amount : ℤ) (counterparty transfer_id description : String)
      → Enters e amount (statement is_uuid now e kind amount counterparty transfer_id description)
  unfolding statement
  statement-Enters e kind amount counterparty transfer_id description db u fresh h =
      let row : StatementRow = record {
        event_id = e.id;
        account_id = e.aggregate_id;
        kind = kind;
        amount = amount;
        counterparty = counterparty;
        transfer_id = transfer_id;
        description = description;
        occurred_at = e.occurred_at;
      } in
      let (n, stored, same) = and_then-ok (λ n. return tt) (exec (insert_entry is_uuid row) db) h in
      let (answered, tables) = exec-ok (insert_entry is_uuid row) db stored in
      (
        row,
        refl,
        refl,
        refl,
        ap (λ q. q.1.tables.statements) same
            ∙ ap (λ t. t.statements) tables
            ∙ insert_entry-ok row db.tables fresh answered,
      )

  -- The entry, and what is done to the transfer.
  entry-Enters :
      (e : Event) (kind : String) (amount : ℤ) (counterparty transfer_id description : String)
      (rest : Sql Tables (Unit {0}))
      → IsKept statements_of rest
      → Enters e amount
          (statement is_uuid now e kind amount counterparty transfer_id description >>= λ v. rest)
  entry-Enters e kind amount counterparty transfer_id description rest kept db u fresh h =
      let r = statement is_uuid now e kind amount counterparty transfer_id description db in
      let (v, entered, same) = and_then-ok (λ w. rest) r h in
      let (row, id, account, exact, added) =
        statement-Enters e kind amount counterparty transfer_id description db v fresh entered in
      (row, id, account, exact, ap (λ q. q.1.tables.statements) same ∙ kept r.1 ∙ added)

  moved-Posts :
      (e : Event) (delta : ℤ) (rest : Sql Tables (Unit {0})) (db : Db Tables) {u : Unit {0}}
      → IsKept balances_of rest
      → Enters e delta rest
      → has_entry is_uuid e.id db.tables.statements ≡ false
      → ((bump is_uuid now e delta >>= λ v. rest) db).0 ≡ ok u
      → Posts e db.tables ((bump is_uuid now e delta >>= λ v. rest) db).1.tables
  moved-Posts e delta rest db {u} kept enters fresh h =
      let r = bump is_uuid now e delta db in
      let (v, bumped, same) = and_then-ok (λ w. rest) r h in
      let left = bump-statements is_uuid now e delta db in
      let (row, id, account, exact, added) =
        enters r.1 u (ap (has_entry is_uuid e.id) left ∙ fresh) (ap (λ q. q.0) (sym same) ∙ h) in
      posts delta row (chain-IsMoved is_uuid now e delta rest db kept h) id account exact
        (ap (λ q. q.1.tables.statements) same ∙ added ∙ ap (λ xs. xs ++ row ∷ []) left)

  payload-Posts :
      {D : Type 0} (r : Result D) (delta : D → ℤ) (rest : D → Sql Tables (Unit {0})) (e : Event)
      (db : Db Tables) {u : Unit {0}}
      → ((d : D) → IsKept balances_of (rest d))
      → ((d : D) → Enters e (delta d) (rest d))
      → has_entry is_uuid e.id db.tables.statements ≡ false
      → ((answer r >>= λ d. bump is_uuid now e (delta d) >>= λ v. rest d) db).0 ≡ ok u
      → Posts e db.tables
          ((answer r >>= λ d. bump is_uuid now e (delta d) >>= λ v. rest d) db).1.tables
  payload-Posts (err x) delta rest e db kept enters fresh h = absurd (cc)
  payload-Posts (ok d) delta rest e db kept enters fresh h =
      moved-Posts e (delta d) (rest d) db (kept d) (enters d) fresh h

  -- What a successful call of applyEvent does to the tables, where the event has no entry yet.
  pub type-Posts :
      (type : EventType) (e : Event) (db : Db Tables) {u : Unit {0}}
      → has_entry is_uuid e.id db.tables.statements ≡ false
      → (apply_event_type is_uuid now type e db).0 ≡ ok u
      → Posts e db.tables (apply_event_type is_uuid now type e db).1.tables
  unfolding apply_event_type
  type-Posts EventType.account_opened e db fresh h = opened (unmarshal_account_opened e.payload)
    where
      opened :
          (r : Result AccountOpened)
          → Posts e db.tables
              ((answer r >>= λ d. exec (open_balance is_uuid now e d.owner) >>= λ n. return tt)
                db).1.tables
      opened (err x) = keeps (λ id. refl) refl
      opened (ok d) =
          keeps
            (λ id.
              discard-IsKept (λ t. balance_or_zero (t.balances id))
                (open_balance is_uuid now e d.owner) (λ t. open_balance-keeps e d.owner t id) db)
            (discard-IsKept statements_of (open_balance is_uuid now e d.owner)
              (open_balance-statements is_uuid now e d.owner) db)
  type-Posts EventType.money_deposited e db fresh h =
      payload-Posts (unmarshal_money_deposited e.payload) (λ d. d.amount) _ e db
        (λ d. statement-IsKept is_uuid now e "deposit" d.amount "" "" d.description)
        (λ d. statement-Enters e "deposit" d.amount "" "" d.description) fresh h
  type-Posts EventType.money_withdrawn e db fresh h =
      payload-Posts (unmarshal_money_withdrawn e.payload) (λ d. neg64 d.amount) _ e db
        (λ d. statement-IsKept is_uuid now e "withdrawal" (neg64 d.amount) "" "" d.description)
        (λ d. statement-Enters e "withdrawal" (neg64 d.amount) "" "" d.description) fresh h
  type-Posts EventType.transfer_debited e db fresh h =
      payload-Posts (unmarshal_transfer_debited e.payload) (λ d. neg64 d.amount) _ e db
        (λ d.
          entry-IsKept is_uuid now e "transfer_out" (neg64 d.amount) d.to d.transfer_id "" _
            (insert_transfer-balances is_uuid now d.transfer_id _))
        (λ d.
          entry-Enters e "transfer_out" (neg64 d.amount) d.to d.transfer_id "" _ (
            discard-IsKept statements_of _
              (insert_transfer-statements is_uuid now d.transfer_id _)))
        fresh h
  type-Posts EventType.transfer_credited e db fresh h =
      payload-Posts (unmarshal_transfer_credited e.payload) (λ d. d.amount) _ e db
        (λ d.
          entry-IsKept is_uuid now e "transfer_in" d.amount d.from d.transfer_id "" _
            (update_transfer-balances is_uuid now d.transfer_id _))
        (λ d.
          entry-Enters e "transfer_in" d.amount d.from d.transfer_id "" _ (
            discard-IsKept statements_of _
              (update_transfer-statements is_uuid now d.transfer_id _)))
        fresh h
  type-Posts EventType.transfer_reversed e db fresh h =
      payload-Posts (unmarshal_transfer_reversed e.payload) (λ d. d.amount) _ e db
        (λ d.
          entry-IsKept is_uuid now e "transfer_reversal" d.amount "" d.transfer_id d.reason _
            (update_transfer-balances is_uuid now d.transfer_id _))
        (λ d.
          entry-Enters e "transfer_reversal" d.amount "" d.transfer_id d.reason _ (
            discard-IsKept statements_of _
              (update_transfer-statements is_uuid now d.transfer_id _)))
        fresh h
  type-Posts (EventType.other s) e db fresh h = keeps (λ id. refl) refl
