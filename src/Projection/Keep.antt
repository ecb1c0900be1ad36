-- ===== src/Projection/Keep.antt =====
-- Parts of the transactions of internal/projection/projector.go that leave a part of the tables alone.
use eventledger.Prelude.{ℕ, ◌≡◌, refl, ◌∙◌, List, [], ◌∷◌, Option, none, some}
use eventledger.Domain.Errors.{Error, Result, ok, err}
use eventledger.Database.{Db, Sql, ◌>>=◌, return, and_then, exec, exec_on}
use eventledger.Projection.Tables.{Tables}

module _ {X : Type 0} (view : Tables → X) where
  abbrev pub IsKept : {A : Type 0} → Sql Tables A → Type 0
  IsKept m = (db : Db Tables) → view (m db).1.tables ≡ view db.tables

  pub bind-IsKept :
      {A B : Type 0} (m : Sql Tables A) (f : A → Sql Tables B)
      → IsKept m
      → ((a : A) → IsKept (f a))
      → IsKept (m >>= f)
  bind-IsKept m f hm hf db = after (m db) (hm db)
    where
      after :
          (r : Result _ × Db Tables)
          → view r.1.tables ≡ view db.tables
          → view (and_then f r).1.tables ≡ view db.tables
      after (err x, d) h = h
      after (ok a, d) h = hf a d ∙ h

  pub exec-IsKept :
      (s : Tables → Result ℕ × Tables) → ((t : Tables) → view (s t).1 ≡ view t) → IsKept (exec s)
  unfolding exec
  exec-IsKept s h db = go db.faults
    where
      go : (fs : List (Option Error)) → view (exec_on fs s db).1.tables ≡ view db.tables
      go [] = h db.tables
      go (none ∷ fs) = h db.tables
      go (some x ∷ fs) = refl

  pub discard-IsKept :
      (s : Tables → Result ℕ × Tables)
      → ((t : Tables) → view (s t).1 ≡ view t)
      → IsKept (exec s >>= λ n. return tt)
  discard-IsKept s h = bind-IsKept (exec s) _ (exec-IsKept s h) (λ n db. refl)
