-- ===== src/Projection/Rebuild.antt =====
-- CatchUp of internal/projection/projector.go over a whole log: the balances that it builds, and the
-- accounts that the write side replays.
use eventledger.Prelude.{
  ℕ, suc, ◌≡◌, ◌≢◌, refl, sym, ap, ◌∙◌, Bool, true, false, String, List, [], ◌∷◌, ◌++◌, Option,
  none, some, Bool-cases, inl, inr, str_eq, str_eq_refl, eq_iff, subst,
}
use mathlib.Core.List.{append_assoc, append-nil}
use eventledger.Domain.Errors.{Error, Result, ok, err, Result-cases, ◌>>=◌}
use eventledger.Domain.Events.{Event, EventType}
use eventledger.Domain.Account.{Account, blank, replay}
use eventledger.Domain.Replay.{replay-append}
use eventledger.Eventstore.Memory.{select}
use eventledger.Eventstore.Memory.Coherent.{belongs, select-append}
use eventledger.Projection.Tables.{Tables, BalanceRow, assign}
use eventledger.Projection.Apply.{apply, catch_up, catch_up_next}
use eventledger.Projection.Mirror.{Shows}
use eventledger.Projection.Shown.{IsShown, IsNext, apply-Shows}

-- None of the events is marked as processed.
abbrev pub IsUnseen : Tables → List Event → Type 0
IsUnseen t [] = Unit
IsUnseen t (e ∷ es) = (t.processed e.id ≡ false) × IsUnseen t es

abbrev pub IsNew : String → List Event → Type 0
IsNew id [] = Unit
IsNew id (e ∷ es) = (str_eq id e.id ≡ false) × IsNew id es

-- No two events have the same id.
abbrev pub IsDistinct : List Event → Type 0
IsDistinct [] = Unit
IsDistinct (e ∷ es) = IsNew e.id es × IsDistinct es

abbrev pub HasNoOpening : List Event → Type 0
HasNoOpening [] = Unit
HasNoOpening (e ∷ es) = (e.type ≢ EventType.account_opened) × HasNoOpening es

-- The first event of a stream, and no other, opens the account.
abbrev pub IsOpenedOnce : List Event → Type 0
IsOpenedOnce [] = Unit
IsOpenedOnce (e ∷ es) = (e.type ≡ EventType.account_opened) × HasNoOpening es

-- The events of an account in a log.
abbrev pub stream_of : List Event → String → List Event
stream_of log id = select (belongs id) log

HasNoOpening-at :
    (xs ys : List Event) (e : Event)
    → HasNoOpening (xs ++ e ∷ ys)
    → e.type ≢ EventType.account_opened
HasNoOpening-at [] ys e h = h.0
HasNoOpening-at (x ∷ xs) ys e h = HasNoOpening-at xs ys e h.1

IsOpenedOnce-IsNext : (xs ys : List Event) (e : Event) → IsOpenedOnce (xs ++ e ∷ ys) → IsNext xs e
IsOpenedOnce-IsNext [] ys e h = h.0
IsOpenedOnce-IsNext (x ∷ xs) ys e h = HasNoOpening-at xs ys e h.1

replay-beginning :
    (xs ys : List Event) (e : Event) {a : Account}
    → replay blank (xs ++ e ∷ ys) ≡ ok a
    → (b : Account) × (replay blank (xs ++ e ∷ []) ≡ ok b)
replay-beginning xs ys e h = elim (Result-cases (replay blank (xs ++ e ∷ []))) [
  | inr found ↦ found
  | inl (x, stopped) ↦
      let parts = replay-append blank (xs ++ e ∷ []) ys in
      let whole = ap (replay blank) (append_assoc xs (e ∷ []) ys) in
      absurd (cc (h, whole, parts, ap (λ r. r >>= λ b. replay b ys) stopped))
]

IsShown-snoc :
    (xs : List Event) (e : Event) (b : Account) (row : BalanceRow) (o : Option BalanceRow)
    → replay blank (xs ++ e ∷ []) ≡ ok b
    → o ≡ some row
    → Shows b row
    → IsShown (xs ++ e ∷ []) o
IsShown-snoc [] e b row o h q s = (b, row, h, q, s)
IsShown-snoc (x ∷ xs) e b row o h q s = (b, row, h, q, s)

IsUnseen-assign :
    (e : Event) (es : List Event) (t u : Tables)
    → u.processed ≡ assign t.processed e.id true
    → IsNew e.id es
    → IsUnseen t es
    → IsUnseen u es
IsUnseen-assign e [] t u q n h = tt
IsUnseen-assign e (f ∷ fs) t u q n h =
    (ap (λ m. m f.id) q ∙ rw n.0 h.0, IsUnseen-assign e fs t u q n.1 h.1)

select-snoc_own :
    (done : List Event) (e : Event)
    → stream_of (done ++ e ∷ []) e.aggregate_id ≡ stream_of done e.aggregate_id ++ e ∷ []
unfolding select
select-snoc_own done e =
    select-append (belongs e.aggregate_id) done (e ∷ []) ∙ (rw (str_eq_refl e.aggregate_id) refl)

select-snoc_other :
    (done : List Event) (e : Event) (j : String)
    → str_eq e.aggregate_id j ≡ false
    → stream_of (done ++ e ∷ []) j ≡ stream_of done j
unfolding select
select-snoc_other done e j q =
    select-append (belongs j) done (e ∷ []) ∙ (rw q (append-nil (stream_of done j)))

select-cons_own :
    (done es : List Event) (e : Event)
    → stream_of (done ++ e ∷ es) e.aggregate_id
      ≡ stream_of done e.aggregate_id ++ e ∷ stream_of es e.aggregate_id
unfolding select
select-cons_own done es e =
    select-append (belongs e.aggregate_id) done (e ∷ es) ∙ (rw (str_eq_refl e.aggregate_id) refl)

-- Each account's stream in a log opens it once, and replays.
pub record IsHistory (log : List Event) : Type 0 where
  pub opened_once : (id : String) → IsOpenedOnce (stream_of log id)
  pub replays : (id : String) → (a : Account) × (replay blank (stream_of log id) ≡ ok a)

-- Every row shows its account as of the events of the log, and accounts without events have no row.
abbrev pub IsMirror : List Event → Tables → Type 0
IsMirror log t = (id : String) → IsShown (stream_of log id) (t.balances id)

module _ (is_uuid : String → Bool) (now : ℕ) where
  apply-IsMirror :
      (faults : List (Option Error)) (done es : List Event) (e : Event) (t u : Tables)
      → t.processed e.id ≡ false
      → IsHistory (done ++ e ∷ es)
      → IsMirror done t
      → apply is_uuid now faults e t ≡ (ok tt, u)
      → IsMirror (done ++ e ∷ []) u × (u.processed ≡ assign t.processed e.id true)
  apply-IsMirror faults done es e t u fresh history mirror h =
      let id = e.aggregate_id in
      let xs = stream_of done id in
      let parts = select-cons_own done es e in
      let (a, whole) = history.replays id in
      let (b, replayed) =
        replay-beginning xs (stream_of es id) e (ap (replay blank) (sym parts) ∙ whole) in
      let next =
        IsOpenedOnce-IsNext xs (stream_of es id) e
          (subst IsOpenedOnce parts (history.opened_once id)) in
      let (row, balances, shows, marked) =
        apply-Shows is_uuid now faults e t u xs b fresh (mirror id) next replayed h in
      (
        λ j. elim (Bool-cases (str_eq e.aggregate_id j)) [
          | inl p ↦
              subst (λ i. IsShown (stream_of (done ++ e ∷ []) i) (u.balances i))
                ((eq_iff e.aggregate_id j).0 p)
                (subst (λ ys. IsShown ys (u.balances id)) (sym (select-snoc_own done e))
                  (IsShown-snoc xs e b row (u.balances id) replayed
                    (ap (λ m. m id) balances ∙ (rw (str_eq_refl e.aggregate_id) refl)) shows))
          | inr p ↦
              subst (λ ys. IsShown ys (u.balances j)) (sym (select-snoc_other done e j p))
                (subst (IsShown (stream_of done j)) (sym (ap (λ m. m j) balances ∙ (rw p refl)))
                  (mirror j))
        ],
        marked,
      )

  catch_up_next-ok :
      (e : Event) (rest : Tables → Result (Unit {0}) × Tables) (r : Result (Unit {0}) × Tables)
      {u : Tables}
      → catch_up_next is_uuid now e rest r ≡ (ok tt, u)
      → (r ≡ (ok tt, r.1)) × (rest r.1 ≡ (ok tt, u))
  catch_up_next-ok e rest (ok v, t) h = (refl, h)
  catch_up_next-ok e rest (err x, t) h = absurd (cc (ap (λ r. r.0) h))

  pub catch_up_from :
      (faults : ℕ → List (Option Error)) (done es : List Event) (t u : Tables)
      → IsUnseen t es
      → IsDistinct es
      → IsHistory (done ++ es)
      → IsMirror done t
      → catch_up is_uuid now faults es t ≡ (ok tt, u)
      → IsMirror (done ++ es) u
  unfolding catch_up
  catch_up_from faults done [] t u unseen distinct history mirror h =
      subst (λ log. IsMirror log u) (sym (append-nil done))
        (subst (IsMirror done) (ap (λ r. r.1) h) mirror)
  catch_up_from faults done (e ∷ es) t u unseen distinct history mirror h =
      let first = apply is_uuid now (faults 0) e t in
      let (applied, rest) =
        catch_up_next-ok e (catch_up is_uuid now (λ k. faults (suc k)) es) first h in
      let (mirrored, marked) =
        apply-IsMirror (faults 0) done es e t first.1 unseen.0 history mirror applied in
      let parts = append_assoc done (e ∷ []) es in
      subst (λ log. IsMirror log u) parts
        (catch_up_from (λ k. faults (suc k)) (done ++ e ∷ []) es first.1 u
          (IsUnseen-assign e es t first.1 marked distinct.0 unseen.1) distinct.1
          (subst IsHistory (sym parts) history) mirrored rest)

  -- The read side agrees with the write side: if CatchUp succeeds over a log of distinct events, in
  -- which each stream opens its account by its first event only and replays, from tables without
  -- balances and marks, then an account has a row of balances exactly if it has events, and the row
  -- shows the owner, the balance, the open flag and the version of the account that its replay gives.
  pub catch_up-IsMirror :
      (faults : ℕ → List (Option Error)) (log : List Event) (t u : Tables)
      → IsUnseen t log
      → ((id : String) → t.balances id ≡ none)
      → IsDistinct log
      → IsHistory log
      → catch_up is_uuid now faults log t ≡ (ok tt, u)
      → IsMirror log u
  unfolding select
  catch_up-IsMirror faults log t u unseen empty distinct history h =
      catch_up_from faults [] log t u unseen distinct history empty h
