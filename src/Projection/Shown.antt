-- ===== src/Projection/Shown.antt =====
-- One call of Apply of internal/projection/projector.go on the next event of a stream, and the row of
-- its account.
use eventledger.Prelude.{
  ℕ, ◌≡◌, refl, sym, ap, ◌∙◌, Bool, true, false, String, List, [], ◌∷◌, ◌++◌, Option, none, some,
  arith, ◌≢◌, subst,
}
use eventledger.Prelude.Int.{ℤ, pos, IsInt64, add64, add64_exact, ◌+ℤ◌}
use eventledger.Domain.Errors.{Error, Result, ok, err}
use eventledger.Domain.Events.{Event, EventType, unmarshal_account_opened, AccountOpened}
use eventledger.Domain.Account
use eventledger.Domain.Account.{Account, blank, replay}
use eventledger.Domain.Replay.{replay-snoc}
use eventledger.Database.{Db, ◌>>=◌, return, exec, answer, and_then-ok, exec-ok}
use eventledger.Projection.Tables.{Tables, BalanceRow, assign, open_balance, is_bigint}
use eventledger.Projection.Apply.{apply, apply_event_type}
use eventledger.Projection.Mirror.{Shows, type-Moves, moved_row}
use eventledger.Projection.Applied.{apply-IsApplied}

-- The row that a stream has, if any, shows the account that its replay gives.
abbrev pub IsShown : List Event → Option BalanceRow → Type 0
IsShown [] o = o ≡ none
IsShown (x ∷ xs) o =
    (a : Account) × (row : BalanceRow) × (replay blank (x ∷ xs) ≡ ok a)
    × (o ≡ some row)
    × Shows a row

-- The first event of a stream opens its account, and no later one does.
abbrev pub IsNext : List Event → Event → Type 0
IsNext [] e = e.type ≡ EventType.account_opened
IsNext (x ∷ xs) e = e.type ≢ EventType.account_opened

module _ (is_uuid : String → Bool) (now : ℕ) where
  -- The row that the first event of a stream leaves.
  record IsOpened (e : Event) (t u : Tables) : Type 0 where
    row : BalanceRow
    account : Account
    applied : Account.apply e blank ≡ ok account
    after : u.balances ≡ assign t.balances e.aggregate_id (some row)
    shown : Shows account row

  open_balance-ok :
      (e : Event) (owner : String) (t : Tables) {n : ℕ}
      → t.balances e.aggregate_id ≡ none
      → (open_balance is_uuid now e owner t).0 ≡ ok n
      → (open_balance is_uuid now e owner t).1.balances
        ≡ assign t.balances e.aggregate_id (
            some (record {
              owner = owner;
              balance = pos 0;
              is_open = true;
              last_version = e.version;
              updated_at = now;
            }))
  unfolding open_balance
  open_balance-ok e owner t absent h = ground (arith, absent)

  answer-IsOpened :
      (e : Event) (r : Result AccountOpened) (db : Db Tables) {u : Unit {0}}
      → e.type ≡ EventType.account_opened
      → unmarshal_account_opened e.payload ≡ r
      → db.tables.balances e.aggregate_id ≡ none
      → ((answer r >>= λ d. exec (open_balance is_uuid now e d.owner) >>= λ n. return tt) db).0
        ≡ ok u
      → IsOpened e db.tables
          ((answer r >>= λ d. exec (open_balance is_uuid now e d.owner) >>= λ n. return tt)
            db).1.tables
  unfolding Account.apply
  answer-IsOpened e (err x) db q p absent h = absurd (cc)
  answer-IsOpened e (ok d) db q p absent h =
      let (n, stored, steps) =
        and_then-ok (λ n. return tt) (exec (open_balance is_uuid now e d.owner) db) h in
      let (answered, tables) = exec-ok (open_balance is_uuid now e d.owner) db stored in
      record {
        row = record {
          owner = d.owner;
          balance = pos 0;
          is_open = true;
          last_version = e.version;
          updated_at = now;
        };
        account = record blank {
          id = e.aggregate_id;
          owner = d.owner;
          is_open = true;
          version = e.version;
        };
        applied = rw (q, p) refl;
        after =
            ap (λ r. r.1.tables.balances) steps
            ∙ ap (λ t. t.balances) tables
            ∙ open_balance-ok e d.owner db.tables absent answered;
        shown = (refl, refl, refl, refl);
      }

  type-IsOpened :
      (e : Event) (db : Db Tables)
      → e.type ≡ EventType.account_opened
      → db.tables.balances e.aggregate_id ≡ none
      → (apply_event_type is_uuid now e.type e db).0 ≡ ok tt
      → IsOpened e db.tables (apply_event_type is_uuid now e.type e db).1.tables
  unfolding apply_event_type
  type-IsOpened e db opens absent =
      subst
        (λ type.
          (apply_event_type is_uuid now type e db).0 ≡ ok tt
          → IsOpened e db.tables (apply_event_type is_uuid now type e db).1.tables)
        (sym opens)
        (λ h. answer-IsOpened e (unmarshal_account_opened e.payload) db opens refl absent h)

  moved-Shows :
      (e : Event) (delta : ℤ) (a b : Account) (row : BalanceRow)
      → b ≡ record a { balance = add64 a.balance delta; version = e.version }
      → Shows a row
      → is_bigint (row.balance +ℤ delta) ≡ true
      → Shows b (moved_row e delta row)
  moved-Shows e delta a b row q (owner, balance, is_open, version) fits =
      let small : IsInt64 (row.balance +ℤ delta) = record {
        above = ground (arith, fits);
        below = ground (arith, fits);
      } in
      let exact : row.balance +ℤ delta ≡ add64 a.balance delta =
        sym (add64_exact row.balance delta small) ∙ ap (λ n. add64 n delta) balance in
      subst (λ c. Shows c (moved_row e delta row)) (sym q) (owner, exact, is_open, refl)

  pub apply-Shows :
      (faults : List (Option Error)) (e : Event) (t u : Tables) (xs : List Event) (b : Account)
      → t.processed e.id ≡ false
      → IsShown xs (t.balances e.aggregate_id)
      → IsNext xs e
      → replay blank (xs ++ e ∷ []) ≡ ok b
      → apply is_uuid now faults e t ≡ (ok tt, u)
      → (row : BalanceRow) × (u.balances ≡ assign t.balances e.aggregate_id (some row))
        × Shows b row
        × (u.processed ≡ assign t.processed e.id true)
  unfolding replay
  apply-Shows faults e t u [] b fresh absent opens replayed h =
      let i = apply-IsApplied is_uuid now faults e t u fresh h in
      let o = type-IsOpened e i.db opens (ap (λ m. m e.aggregate_id) i.start ∙ absent) i.done in
      let same : o.account ≡ b = cc (o.applied, replay-snoc blank blank [] e refl, replayed) in
      (
        o.row,
        ap (λ v. v.balances) i.result
            ∙ o.after
            ∙ ap (λ m. assign m e.aggregate_id (some o.row)) i.start,
        subst (λ a. Shows a o.row) same o.shown,
        i.marked,
      )
  apply-Shows faults e t u (x ∷ xs) b fresh (a, row, loaded, here, shown) later replayed h =
      let i = apply-IsApplied is_uuid now faults e t u fresh h in
      let applied : Account.apply e a ≡ ok b =
        sym (replay-snoc blank a (x ∷ xs) e loaded) ∙ replayed in
      let (delta, b_is, m) = type-Moves is_uuid now e.type e a b i.db refl later applied i.done in
      let same : row ≡ m.row = cc (here, ap (λ f. f e.aggregate_id) i.start, m.before) in
      (
        moved_row e delta m.row,
        ap (λ v. v.balances) i.result
            ∙ m.after
            ∙ ap (λ f. assign f e.aggregate_id (some (moved_row e delta m.row))) i.start,
        moved-Shows e delta a b m.row b_is (subst (Shows a) same shown) m.fits,
        i.marked,
      )
