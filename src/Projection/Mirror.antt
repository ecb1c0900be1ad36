-- ===== src/Projection/Mirror.antt =====
-- The rows of account_balances that internal/projection/projector.go keeps, and the accounts that a
-- replay of the same events gives.
use eventledger.Prelude.{
  ℕ, ◌≡◌, refl, sym, ap, ◌∙◌, Bool, true, false, String, Option, none, some, arith, Bool-cases, inl,
  inr, ◌==◌, ◌≢◌, subst,
}
use eventledger.Prelude.Int.{ℤ, neg64, add64, ◌+ℤ◌, add64-neg64}
use eventledger.Domain.Errors.{Error, Result, ok, err, within, ◌>>=◌ as ◌>>>◌}
use eventledger.Domain.Events.{
  Event, EventType, unmarshal_money_deposited, unmarshal_money_withdrawn,
  unmarshal_transfer_debited, unmarshal_transfer_credited, unmarshal_transfer_reversed,
}
use eventledger.Domain.Account.{Account, apply}
use eventledger.Database.{Db, Sql, ◌>>=◌, return, exec, answer, and_then-ok, exec-ok}
use eventledger.Projection.Tables.{
  Tables, BalanceRow, assign, add_balance, is_bigint, insert_entry, insert_transfer,
  update_transfer, StatementRow, TransferRow,
}
use eventledger.Projection.Keep.{IsKept, bind-IsKept, discard-IsKept}
use eventledger.Projection.Apply.{bump, statement, apply_event_type, fail_unless}

-- A row shows an account.
abbrev pub Shows : Account → BalanceRow → Type 0
Shows a row =
    (row.owner ≡ a.owner)
    × (row.balance ≡ a.balance)
    × (row.is_open ≡ a.is_open)
    × (row.last_version ≡ a.version)

abbrev pub balances_of : Tables → String → Option BalanceRow
balances_of t = t.balances

abbrev pub moved_row : Event → ℤ → BalanceRow → BalanceRow
moved_row e delta row = record row {
  balance = row.balance +ℤ delta;
  last_version = e.version;
  updated_at = e.occurred_at;
}

-- The row of an account has been replaced by another one; all other rows are as they were.
pub record IsMoved (e : Event) (delta : ℤ) (t u : Tables) : Type 0 where
  pub row : BalanceRow
  pub before : t.balances e.aggregate_id ≡ some row
  pub fits : is_bigint (row.balance +ℤ delta) ≡ true
  pub after : u.balances ≡ assign t.balances e.aggregate_id (some (moved_row e delta row))

module _ (is_uuid : String → Bool) (now : ℕ) where
  add_balance-IsMoved :
      (e : Event) (delta : ℤ) (t : Tables) (o : Option BalanceRow) {n : ℕ}
      → t.balances e.aggregate_id ≡ o
      → (add_balance is_uuid e delta t).0 ≡ ok n
      → (n == 1) ≡ true
      → IsMoved e delta t (add_balance is_uuid e delta t).1
  unfolding add_balance
  add_balance-IsMoved e delta t none q h one = absurd (ground (arith, q))
  add_balance-IsMoved e delta t (some row) q h one = elim (Bool-cases (is_uuid e.aggregate_id)) [
    | inr p ↦ absurd (ground (arith, p))
    | inl p ↦ elim (Bool-cases (is_bigint (row.balance +ℤ delta))) [
      | inr m ↦ absurd (cc (rw (p, q, m) at h))
      | inl m ↦ record { row = row; before = q; fits = m; after = rw (p, q, m) refl }
    ]
  ]

  bump-IsMoved :
      (e : Event) (delta : ℤ) (db : Db Tables) {u : Unit {0}}
      → (bump is_uuid now e delta db).0 ≡ ok u
      → IsMoved e delta db.tables (bump is_uuid now e delta db).1.tables
  unfolding bump
  bump-IsMoved e delta db h =
      let r = exec (add_balance is_uuid e delta) db in
      let (n, stored, same) = and_then-ok (λ n. fail_unless (n == 1) _) r h in
      let (answered, tables) = exec-ok (add_balance is_uuid e delta) db stored in
      let one = fail_unless-ok (n == 1) _ r.1 (ap (λ q. q.0) (sym same) ∙ h) in
      subst (IsMoved e delta db.tables)
        (sym (
          ap (λ q. q.1.tables) same
          ∙ ap (λ d. d.tables) (fail_unless-same (n == 1) _ r.1)
          ∙ tables))
        (add_balance-IsMoved e delta db.tables (db.tables.balances e.aggregate_id) refl answered
          one)
    where
      fail_unless-ok :
          (b : Bool) (x : Error) (d : Db Tables) {v : Unit {0}}
          → (fail_unless b x d).0 ≡ ok v
          → b ≡ true
      fail_unless-ok true x d q = refl
      fail_unless-ok false x d q = absurd (cc)

      fail_unless-same : (b : Bool) (x : Error) (d : Db Tables) → (fail_unless b x d).1 ≡ d
      fail_unless-same true x d = refl
      fail_unless-same false x d = refl

  -- What follows the change of the balance leaves the balances.
  pub chain-IsMoved :
      (e : Event) (delta : ℤ) (rest : Sql Tables (Unit {0})) (db : Db Tables) {u : Unit {0}}
      → IsKept balances_of rest
      → ((bump is_uuid now e delta >>= λ v. rest) db).0 ≡ ok u
      → IsMoved e delta db.tables ((bump is_uuid now e delta >>= λ v. rest) db).1.tables
  chain-IsMoved e delta rest db kept h =
      let r = bump is_uuid now e delta db in
      let (v, bumped, same) = and_then-ok (λ w. rest) r h in
      let m = bump-IsMoved e delta db bumped in
      record {
        row = m.row;
        before = m.before;
        fits = m.fits;
        after = ap (λ q. q.1.tables.balances) same ∙ kept r.1 ∙ m.after;
      }

  insert_entry-balances :
      (row : StatementRow) (t : Tables) → (insert_entry is_uuid row t).1.balances ≡ t.balances
  unfolding insert_entry
  insert_entry-balances row t = ground arith

  pub statement-IsKept :
      (e : Event) (kind : String) (amount : ℤ) (counterparty transfer_id description : String)
      → IsKept balances_of
          (statement is_uuid now e kind amount counterparty transfer_id description)
  unfolding statement
  statement-IsKept e kind amount counterparty transfer_id description =
      discard-IsKept balances_of (insert_entry is_uuid _) (insert_entry-balances _)

  -- The statement entry, and what is done to the transfer.
  pub entry-IsKept :
      (e : Event) (kind : String) (amount : ℤ) (counterparty transfer_id description : String)
      (s : Tables → Result ℕ × Tables)
      → ((t : Tables) → (s t).1.balances ≡ t.balances)
      → IsKept balances_of (
          statement is_uuid now e kind amount counterparty transfer_id description >>= λ v.
          exec s >>= λ n. return tt)
  entry-IsKept e kind amount counterparty transfer_id description s h =
      bind-IsKept balances_of
        (statement is_uuid now e kind amount counterparty transfer_id description) _
        (statement-IsKept e kind amount counterparty transfer_id description)
        (λ v. discard-IsKept balances_of s h)

  pub insert_transfer-balances :
      (id : String) (row : TransferRow) (t : Tables)
      → (insert_transfer is_uuid id row t).1.balances ≡ t.balances
  unfolding insert_transfer
  insert_transfer-balances id row t = ground arith

  pub update_transfer-balances :
      (id : String) (change : TransferRow → TransferRow) (t : Tables)
      → (update_transfer is_uuid id change t).1.balances ≡ t.balances
  unfolding update_transfer
  update_transfer-balances id change t = ground arith

  -- An event that moves money, in the account and in the tables.
  abbrev pub Moves : Event → Account → Account → Tables → Tables → Type 0
  Moves e a b t u =
      (delta : ℤ) × (b ≡ record a { balance = add64 a.balance delta; version = e.version })
      × IsMoved e delta t u

  payload-Moves :
      {D : Type 0} (r : Result D) (delta : D → ℤ) (moved : D → Account)
      (rest : D → Sql Tables (Unit {0})) (context : String) (e : Event) (a b : Account)
      (db : Db Tables) {u : Unit {0}}
      → ((d : D) → moved d ≡ record a { balance = add64 a.balance (delta d); version = e.version })
      → ((d : D) → IsKept balances_of (rest d))
      → (within context r >>> λ d. ok (moved d)) ≡ ok b
      → ((answer r >>= λ d. bump is_uuid now e (delta d) >>= λ v. rest d) db).0 ≡ ok u
      → Moves e a b db.tables
          ((answer r >>= λ d. bump is_uuid now e (delta d) >>= λ v. rest d) db).1.tables
  payload-Moves (err x) delta moved rest context e a b db same kept h k = absurd (cc)
  payload-Moves (ok d) delta moved rest context e a b db same kept h k =
      let here : moved d ≡ b = ground arith in
      (delta d, sym here ∙ same d, chain-IsMoved e (delta d) (rest d) db (kept d) k)

  pub type-Moves :
      (type : EventType) (e : Event) (a b : Account) (db : Db Tables) {u : Unit {0}}
      → e.type ≡ type
      → type ≢ EventType.account_opened
      → apply e a ≡ ok b
      → (apply_event_type is_uuid now type e db).0 ≡ ok u
      → Moves e a b db.tables (apply_event_type is_uuid now type e db).1.tables
  unfolding apply_event_type apply
  type-Moves EventType.account_opened e a b db q ne h k = absurd (ne refl)
  type-Moves EventType.money_deposited e a b db q ne h k =
      payload-Moves (unmarshal_money_deposited e.payload) (λ d. d.amount) _ _ _ e a b db (λ d. refl)
        (λ d. statement-IsKept e "deposit" d.amount "" "" d.description) (rw q at h) k
  type-Moves EventType.money_withdrawn e a b db q ne h k =
      payload-Moves (unmarshal_money_withdrawn e.payload) (λ d. neg64 d.amount) _ _ _ e a b db
        (λ d. rw (add64-neg64 a.balance d.amount) refl)
        (λ d. statement-IsKept e "withdrawal" (neg64 d.amount) "" "" d.description) (rw q at h) k
  type-Moves EventType.transfer_debited e a b db q ne h k =
      payload-Moves (unmarshal_transfer_debited e.payload) (λ d. neg64 d.amount) _ _ _ e a b db
        (λ d. rw (add64-neg64 a.balance d.amount) refl)
        (λ d.
          entry-IsKept e "transfer_out" (neg64 d.amount) d.to d.transfer_id "" _
            (insert_transfer-balances d.transfer_id _))
        (rw q at h) k
  type-Moves EventType.transfer_credited e a b db q ne h k =
      payload-Moves (unmarshal_transfer_credited e.payload) (λ d. d.amount) _ _ _ e a b db
        (λ d. refl)
        (λ d.
          entry-IsKept e "transfer_in" d.amount d.from d.transfer_id "" _
            (update_transfer-balances d.transfer_id _))
        (rw q at h) k
  type-Moves EventType.transfer_reversed e a b db q ne h k =
      payload-Moves (unmarshal_transfer_reversed e.payload) (λ d. d.amount) _ _ _ e a b db
        (λ d. refl)
        (λ d.
          entry-IsKept e "transfer_reversal" d.amount "" d.transfer_id d.reason _
            (update_transfer-balances d.transfer_id _))
        (rw q at h) k
  type-Moves (EventType.other s) e a b db q ne h k = absurd (cc (rw q at h))
