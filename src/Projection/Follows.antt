-- ===== src/Projection/Follows.antt =====
-- A transaction of internal/projection/projector.go beside a list of demands: a statement, a check of
-- the number of rows, and the end.
use eventledger.Prelude.{
  ℕ, ◌≡◌, refl, ap, Bool, true, false, List, [], ◌∷◌, Option, none, some, ◌⊎◌, inl, inr,
  if◌then◌else◌,
}
use eventledger.Domain.Errors.{Error, Result, ok, err}
use eventledger.Database.{Db, Sql, ◌>>=◌, return, and_then, answered, exec, exec_on}
use eventledger.Projection.Tables.{Tables}
use eventledger.Projection.Apply.{fail_unless}
use eventledger.Projection.Demands.{Demand, plainly, obey, run}

-- A transaction that ends in `r`, from the answers `fs` that the connection gives out of turn on, does
-- what ends in `q`: it stops with an error, or ends the same; the same where no such answer comes.
pub record Fits (fs : List (Option Error)) (r : Result (Unit {0}) × Db Tables)
    (q : Result (Unit {0}) × Tables) : Type 0 where
  pub either :
      ((x : Error) × (r.0 ≡ err x)) ⊎ (◌≡◌ {A = Result (Unit {0}) × Tables} (r.0, r.1.tables) q)
  pub healthy : fs ≡ [] → r ≡ (q.0, record { faults = []; tables = q.1 })

abbrev pub Follows : Sql Tables (Unit {0}) → (Tables → Result (Unit {0}) × Tables) → Type 0
Follows m f = (db : Db Tables) → Fits db.faults (m db) (f db.tables)

-- An answer of the connection in place of a call.
pub stopped-Fits :
    (fs : List (Option Error)) (x : Error) (db : Db Tables) (q : Result (Unit {0}) × Tables)
    (y : Option Error)
    → Fits (y ∷ fs) (err x, db) q
stopped-Fits fs x db q y = record { either = inl (x, refl); healthy = λ h. absurd (cc) }

-- A later start of the connection's answers.
pub later-Fits :
    (fs : List (Option Error)) (y : Option Error) (r : Result (Unit {0}) × Db Tables)
    (q : Result (Unit {0}) × Tables)
    → Fits fs r q
    → Fits (y ∷ fs) r q
later-Fits fs y r q h = record { either = h.either; healthy = λ p. absurd (cc) }

pub refused-Fits :
    (fs : List (Option Error)) (x : Error) (t : Tables)
    → Fits fs (err x, record { faults = fs; tables = t }) (err x, t)
refused-Fits fs x t = record {
  either = inl (x, refl);
  healthy = λ h. ap (λ (gs : List (Option Error)). (err x, record { faults = gs; tables = t })) h;
}

-- A statement of a transaction, and the demand for it.
pub obey-Follows :
    (s : Tables → Result ℕ × Tables) (c : Option Error) (k : ℕ → Sql Tables (Unit {0}))
    (rest : Tables → Result (Unit {0}) × Tables)
    → ((n : ℕ) → Follows (k n) (λ t. obey c rest (ok n, t)))
    → Follows (exec s >>= k) (λ t. obey c rest (s t))
unfolding exec
obey-Follows s c k rest h db = calling db.faults
  where
    after :
        (fs : List (Option Error)) (q : Result ℕ × Tables)
        → Fits fs (and_then k (answered fs q)) (obey c rest q)
    after fs (err x, t) = refused-Fits fs x t
    after fs (ok n, t) = h n (record { faults = fs; tables = t })

    calling :
        (fs : List (Option Error))
        → Fits fs (and_then k (exec_on fs s db)) (obey c rest (s db.tables))
    calling [] = after [] (s db.tables)
    calling (none ∷ fs) = later-Fits fs none _ _ (after fs (s db.tables))
    calling (some x ∷ fs) = stopped-Fits fs x _ _ (some x)

pub done-Follows : Follows (return tt) (run [])
unfolding run
done-Follows db = record {
  either = inr refl;
  healthy =
      λ h. ap (λ (gs : List (Option Error)). (ok tt, record { faults = gs; tables = db.tables })) h;
}

pub >>=-assoc :
    {A B C : Type 0} (f : A → Sql Tables B) (g : B → Sql Tables C) (r : Result A × Db Tables)
    → and_then g (and_then f r) ≡ and_then (λ a. f a >>= g) r
>>=-assoc f g (ok a, db) = refl
>>=-assoc f g (err x, db) = refl

pub plain-Follows :
    (s : Tables → Result ℕ × Tables) (m : Sql Tables (Unit {0})) (ds : List Demand)
    → Follows m (run ds)
    → Follows (exec s >>= λ n. m) (run (plainly s ∷ ds))
unfolding run
plain-Follows s m ds h = obey-Follows s none (λ n. m) (run ds) (λ n. h)

pub last-Follows :
    (s : Tables → Result ℕ × Tables) → Follows (exec s >>= λ n. return tt) (run (plainly s ∷ []))
last-Follows s = plain-Follows s (return tt) [] done-Follows

pub checked-Follows :
    (b : Bool) (x : Error) (m : Sql Tables (Unit {0})) (f : Tables → Result (Unit {0}) × Tables)
    → Follows m f
    → Follows (fail_unless b x >>= λ v. m) (λ t. if b then f t else (err x, t))
checked-Follows true x m f h db = h db
checked-Follows false x m f h db = refused-Fits db.faults x db.tables
