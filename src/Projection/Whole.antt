-- ===== src/Projection/Whole.antt =====
-- Apply of internal/projection/projector.go, with its error handling and under any errors of Postgres,
-- beside the list of what its event asks for.
use eventledger.Prelude.{
  ℕ, ◌≡◌, refl, sym, ap, ◌∙◌, Bool, String, List, [], ◌∷◌, Option, none, some, ◌⊎◌, inl, inr, ◌==◌,
  if◌then◌else◌, Bool-cases, subst,
}
use eventledger.Prelude.Int.{ℤ, neg64}
use eventledger.Domain.Errors.{Error, Result, ok, err, within, wrapped, ◌>>=◌ as ◌>>>◌}
use eventledger.Domain.Events.{
  Event, EventType, unmarshal_account_opened, unmarshal_money_deposited, unmarshal_money_withdrawn,
  unmarshal_transfer_debited, unmarshal_transfer_credited, unmarshal_transfer_reversed,
}
use eventledger.Database.{Db, Sql, ◌>>=◌, return, and_then, answered, exec, exec_on}
use eventledger.Projection.Tables.{Tables, mark_processed, open_balance, add_balance}
use eventledger.Projection.Apply.{
  apply, apply_event, apply_event_type, body, finish, bump, statement, decoded,
}
use eventledger.Projection.Demands.{
  Demand, run, moves, enters, transfers_to, settles_transfer, demands, run_all, unless_marked,
  all_or_nothing, projected,
}
use eventledger.Projection.Follows.{
  Fits, Follows, stopped-Fits, later-Fits, refused-Fits, obey-Follows, done-Follows, >>=-assoc,
  plain-Follows, last-Follows, checked-Follows,
}

module _ (is_uuid : String → Bool) (now : ℕ) where
  bump-Follows :
      (e : Event) (delta : ℤ) (m : Sql Tables (Unit {0})) (ds : List Demand)
      → Follows m (run ds)
      → Follows (bump is_uuid now e delta >>= λ v. m) (run (moves is_uuid now e delta ∷ ds))
  unfolding bump run
  bump-Follows e delta m ds h db =
      subst (λ r. Fits db.faults r (run (moves is_uuid now e delta ∷ ds) db.tables))
        (sym (>>=-assoc _ (λ v. m) (exec (add_balance is_uuid e delta) db)))
        (obey-Follows (add_balance is_uuid e delta) (moves is_uuid now e delta).complaint _ (run ds)
          (λ n. checked-Follows (n == 1) _ m (run ds) h) db)

  entry-Follows :
      (e : Event) (kind : String) (amount : ℤ) (counterparty transfer_id description : String)
      (m : Sql Tables (Unit {0})) (ds : List Demand)
      → Follows m (run ds)
      → Follows
          (statement is_uuid now e kind amount counterparty transfer_id description >>= λ v. m)
          (run (enters is_uuid now e kind amount counterparty transfer_id description ∷ ds))
  unfolding statement
  entry-Follows e kind amount counterparty transfer_id description m ds h db =
      let d = enters is_uuid now e kind amount counterparty transfer_id description in
      subst (λ r. Fits db.faults r (run (d ∷ ds) db.tables))
        (sym (>>=-assoc (λ n. return tt) (λ v. m) (exec d.statement db)))
        (plain-Follows d.statement m ds h db)

  last_entry-Follows :
      (e : Event) (kind : String) (amount : ℤ) (counterparty transfer_id description : String)
      → Follows
          (statement is_uuid now e kind amount counterparty transfer_id description)
          (run (enters is_uuid now e kind amount counterparty transfer_id description ∷ []))
  unfolding statement
  last_entry-Follows e kind amount counterparty transfer_id description =
      last-Follows (enters is_uuid now e kind amount counterparty transfer_id description).statement

  decoded-Follows :
      {D : Type 0} (r : Result D) (m : D → Sql Tables (Unit {0})) (ds : D → List Demand)
      → ((d : D) → Follows (m d) (run (ds d)))
      → Follows (decoded r >>= m) (run_all is_uuid now (r >>> λ d. ok (ds d)))
  decoded-Follows (ok d) m ds h db = h d db
  decoded-Follows (err x) m ds h db = refused-Fits db.faults x db.tables

  type-Follows :
      (type : EventType) (e : Event)
      → Follows
          (apply_event_type is_uuid now type e)
          (run_all is_uuid now (demands is_uuid now type e))
  unfolding apply_event_type demands
  type-Follows EventType.account_opened e =
      decoded-Follows (unmarshal_account_opened e.payload) _ _
        (λ d. last-Follows (open_balance is_uuid now e d.owner))
  type-Follows EventType.money_deposited e =
      decoded-Follows (unmarshal_money_deposited e.payload) _ _ (λ d.
        bump-Follows e d.amount _ _ (last_entry-Follows e "deposit" d.amount "" "" d.description))
  type-Follows EventType.money_withdrawn e =
      decoded-Follows (unmarshal_money_withdrawn e.payload) _ _ (λ d.
        bump-Follows e (neg64 d.amount) _ _
          (last_entry-Follows e "withdrawal" (neg64 d.amount) "" "" d.description))
  type-Follows EventType.transfer_debited e =
      decoded-Follows (unmarshal_transfer_debited e.payload) _ _ (λ d.
        bump-Follows e (neg64 d.amount) _ _ (
          entry-Follows e "transfer_out" (neg64 d.amount) d.to d.transfer_id "" _ _
            (last-Follows (transfers_to is_uuid now e d.transfer_id d.to d.amount).statement)))
  type-Follows EventType.transfer_credited e =
      decoded-Follows (unmarshal_transfer_credited e.payload) _ _ (λ d.
        bump-Follows e d.amount _ _ (
          entry-Follows e "transfer_in" d.amount d.from d.transfer_id "" _ _
            (last-Follows (settles_transfer is_uuid now d.transfer_id _).statement)))
  type-Follows EventType.transfer_reversed e =
      decoded-Follows (unmarshal_transfer_reversed e.payload) _ _ (λ d.
        bump-Follows e d.amount _ _ (
          entry-Follows e "transfer_reversal" d.amount "" d.transfer_id d.reason _ _
            (last-Follows (settles_transfer is_uuid now d.transfer_id _).statement)))
  type-Follows (EventType.other s) e = done-Follows

  body-Follows :
      (e : Event)
      → Follows
          (body is_uuid now e)
          (λ t. unless_marked is_uuid now e (mark_processed is_uuid e.id t))
  unfolding body apply_event exec run
  body-Follows e db = calling db.faults
    where
      after :
          (fs : List (Option Error)) (q : Result ℕ × Tables)
          → let (r, d) = answered fs q in
            Fits fs
              (and_then
                (λ n. if n == 0 then return tt else apply_event is_uuid now e)
                (within "mark processed" r, d))
              (unless_marked is_uuid now e q)
      after fs (err x, t) = refused-Fits fs (wrapped "mark processed" x) t
      after fs (ok n, t) = elim (Bool-cases (n == 0)) [
        | inl marked ↦ rw marked (done_here (record { faults = fs; tables = t }))
        | inr fresh ↦ rw fresh (type-Follows e.type e (record { faults = fs; tables = t }))
      ]
        where
          done_here : Follows (return tt) (λ u. (ok tt, u))
          done_here = done-Follows

      calling :
          (fs : List (Option Error))
          → let (r, d) = exec_on fs (mark_processed is_uuid e.id) db in
            Fits fs
              (and_then
                (λ n. if n == 0 then return tt else apply_event is_uuid now e)
                (within "mark processed" r, d))
              (unless_marked is_uuid now e (mark_processed is_uuid e.id db.tables))
      calling [] = after [] (mark_processed is_uuid e.id db.tables)
      calling (none ∷ fs) =
          later-Fits fs none _ _ (after fs (mark_processed is_uuid e.id db.tables))
      calling (some x ∷ fs) = stopped-Fits fs (wrapped "mark processed" x) _ _ (some x)

  -- What the commit makes of a transaction.
  finish-Fits :
      (t : Tables) (fs : List (Option Error)) (r : Result (Unit {0}) × Db Tables)
      (q : Result (Unit {0}) × Tables)
      → Fits fs r q
      → (finish is_uuid now t r ≡ all_or_nothing is_uuid now t q)
        ⊎ ((x : Error) × (finish is_uuid now t r ≡ (err x, t)))
  finish-Fits t fs (err x, db) q h = inr (x, refl)
  finish-Fits t fs (ok u, db) q h = elim h.either [
    | inl (x, stopped) ↦ absurd (cc)
    | inr same ↦
        subst
          (λ p.
            (finish is_uuid now t (ok u, db) ≡ all_or_nothing is_uuid now t p)
            ⊎ ((x : Error) × (finish is_uuid now t (ok u, db) ≡ (err x, t))))
          same (committing db.faults db.tables)
  ]
    where
      committing :
          (gs : List (Option Error)) (v : Tables)
          → (finish is_uuid now t (ok u, record { faults = gs; tables = v }) ≡ (ok tt, v))
            ⊎ ((x : Error) × (finish is_uuid now t (ok u, record { faults = gs; tables = v })
                  ≡ (err x, t)))
      committing [] v = inl refl
      committing (none ∷ gs) v = inl refl
      committing (some x ∷ gs) v = inr (x, refl)

  finish-all_or_nothing :
      (t : Tables) (q : Result (Unit {0}) × Tables)
      → finish is_uuid now t (q.0, record { faults = []; tables = q.1 })
        ≡ all_or_nothing is_uuid now t q
  finish-all_or_nothing t (ok u, v) = refl
  finish-all_or_nothing t (err x, v) = refl

  -- Apply does what its event demands, all of it or nothing. Where the connection to Postgres has no
  -- error of its own, Apply marks the event and runs exactly the statements that the event demands, in
  -- their order; it commits them if each is accepted and each that must change a row changes one, and
  -- else returns the error of the first that is not, with the tables as they were. For an event that is
  -- marked it changes nothing. Where the connection answers the begin, a statement or the commit with
  -- an error, Apply ends in the same way, or returns an error with the tables as they were.
  pub apply-projected :
      (e : Event) (t : Tables)
      → (apply is_uuid now [] e t ≡ projected is_uuid now e t)
        × ((faults : List (Option Error))
            → (apply is_uuid now faults e t ≡ projected is_uuid now e t)
              ⊎ ((x : Error) × (apply is_uuid now faults e t ≡ (err x, t))))
  unfolding apply projected
  apply-projected e t = (healthy, under)
    where
      healthy : apply is_uuid now [] e t ≡ projected is_uuid now e t
      healthy =
          ap (finish is_uuid now t)
            ((body-Follows e (record { faults = []; tables = t })).healthy refl)
          ∙ finish-all_or_nothing t (unless_marked is_uuid now e (mark_processed is_uuid e.id t))

      under :
          (faults : List (Option Error))
          → (apply is_uuid now faults e t ≡ projected is_uuid now e t)
            ⊎ ((x : Error) × (apply is_uuid now faults e t ≡ (err x, t)))
      under [] = inl healthy
      under (none ∷ fs) = finish-Fits t fs _ _ (body-Follows e (record { faults = fs; tables = t }))
      under (some x ∷ fs) = inr (wrapped "begin" x, refl)
