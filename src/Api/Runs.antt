-- ===== src/Api/Runs.antt =====
-- Runs of requests with idempotency keys: requests that are admitted, handlers that complete, and
-- handlers whose result is lost, since Complete fails or its context is cancelled, in any order.
use eventledger.Prelude.{
  ℕ, suc, ◌+◌, ◌≡◌, refl, sym, ap, ◌∙◌, ◌≤◌, ◌⊎◌, inl, inr, String, Option, none, some, str_eq,
  Bool-cases, arith, eq_iff, if◌then◌else◌, subst,
}
use eventledger.Api.Keys.{
  IdempotencyRecord, Records, new_mem_idempotency, store_record, reserve, reserve_in, complete,
  complete_in, hash_request,
}
use eventledger.Api.Serve.{
  Request, Reply, Admission, answered, executes, known_key, reserved, with_key, admit,
  validate_idempotency_key,
}

-- The records, with the handlers that run and the number of calls of a handler, by key.
pub record Service : Type 0 where
  pub recs : Records
  pub running : String → ℕ
  pub calls : String → ℕ

abbrev pub new_service : Service
new_service = record { recs = new_mem_idempotency; running = λ k. 0; calls = λ k. 0 }

abbrev pub set : (String → ℕ) → String → ℕ → String → ℕ
set m k n j = if str_eq k j then n else m j

abbrev pub enter : Service → Admission × Records → Service
enter s (answered x, recs) = record s { recs = recs }
enter s (executes k, recs) = record {
  recs = recs;
  running = set s.running k (s.running k + 1);
  calls = set s.calls k (s.calls k + 1);
}

module _ (digest : String → String) where
  pub data Step : Service → Service → Type 0 where
    admits : {s : Service} (r : Request) → Step s (enter s (admit digest r s.recs))
    completes :
        {s : Service} (k : String) (n status : ℕ) (body : String)
        → s.running k ≡ suc n
        → Step s (record s { recs = complete k status body s.recs; running = set s.running k n })
    loses :
        {s : Service} (k : String) (n : ℕ)
        → s.running k ≡ suc n
        → Step s (record s { running = set s.running k n })

  pub data Reaches : Service → Service → Type 0 where
    done : {s : Service} → Reaches s s
    next : {s t u : Service} → Reaches s t → Step t u → Reaches s u

  -- How the record of a key, its running handlers and its calls go together.
  abbrev pub Matches : Option IdempotencyRecord → ℕ → ℕ → Type 0
  Matches none running calls = (running ≡ 0) × (calls ≡ 0)
  Matches (some rec) running calls = (running ≤ 1) × (calls ≡ 1)

  pub admit-cases :
      (r : Request) (recs : Records)
      → ((x : Reply) × (admit digest r recs ≡ (answered x, recs)))
        ⊎ ((hash : String) × (recs r.key ≡ none)
            × (admit digest r recs ≡ (
              executes r.key,
              store_record recs r.key (record { request_hash = hash; status_code = 0; body = "" }),
            )))
  unfolding admit reserve
  admit-cases r recs = checked (validate_idempotency_key r.key) r.body
    where
      looked_up :
          (hash : String) (found : Option IdempotencyRecord)
          → recs r.key ≡ found
          → ((x : Reply) × (reserved r.key hash (reserve_in (recs r.key) r.key hash recs)
                ≡ (answered x, recs)))
            ⊎ ((h : String) × (recs r.key ≡ none)
                × (reserved r.key hash (reserve_in (recs r.key) r.key hash recs) ≡ (
                  executes r.key,
                  store_record recs r.key (record { request_hash = h; status_code = 0; body = "" }),
                )))
      looked_up hash none q = inr (hash, q, rw q refl)
      looked_up hash (some rec) q = inl (known_key hash rec, rw q refl)

      checked :
          (problem body : Option String)
          → ((x : Reply) × (with_key digest problem (record r { body = body }) recs
                ≡ (answered x, recs)))
            ⊎ ((h : String) × (recs r.key ≡ none)
                × (with_key digest problem (record r { body = body }) recs ≡ (
                  executes r.key,
                  store_record recs r.key (record { request_hash = h; status_code = 0; body = "" }),
                )))
      checked (some problem) body = inl (_, refl)
      checked none none = inl (_, refl)
      checked none (some body) = looked_up (hash_request digest r.method r.path body) _ refl

  entered-Matches :
      (recs : Records) (running calls : String → ℕ) (j k : String) (rec : IdempotencyRecord)
      → recs j ≡ none
      → Matches (recs k) (running k) (calls k)
      → Matches
          (store_record recs j rec k)
          (set running j (running j + 1) k)
          (set calls j (calls j + 1) k)
  entered-Matches recs running calls j k rec fresh h = elim (Bool-cases (str_eq j k)) [
    | inl p ↦
        let same = (eq_iff j k).0 p in
        let (idle, unused) =
          subst (λ o. Matches o (running k) (calls k)) (ap recs (sym same) ∙ fresh) h in
        rw p (omega (arith, idle, ap running same), omega (arith, unused, ap calls same))
    | inr p ↦ rw p h
  ]

  lost-Matches :
      (o : Option IdempotencyRecord) (running : String → ℕ) (calls : ℕ) (j k : String) (n : ℕ)
      → running j ≡ suc n
      → Matches o (running k) calls
      → Matches o (set running j n k) calls
  lost-Matches none running calls j k n q h = elim (Bool-cases (str_eq j k)) [
    | inl p ↦ absurd (omega (arith, q, h.0, ap running ((eq_iff j k).0 p)))
    | inr p ↦ rw p h
  ]
  lost-Matches (some rec) running calls j k n q h = elim (Bool-cases (str_eq j k)) [
    | inl p ↦ rw p (omega (arith, q, h.0, ap running ((eq_iff j k).0 p)), h.1)
    | inr p ↦ rw p h
  ]

  stored-Matches :
      (recs : Records) (running calls : ℕ) (j k : String) (old rec : IdempotencyRecord)
      → recs j ≡ some old
      → Matches (recs k) running calls
      → Matches (store_record recs j rec k) running calls
  stored-Matches recs running calls j k old rec known h = elim (Bool-cases (str_eq j k)) [
    | inl p ↦
        rw p (subst (λ o. Matches o running calls) (ap recs (sym ((eq_iff j k).0 p)) ∙ known) h)
    | inr p ↦ rw p h
  ]

  completed-Matches :
      (recs : Records) (running calls : ℕ) (j k : String) (status : ℕ) (body : String)
      → Matches (recs k) running calls
      → Matches (complete j status body recs k) running calls
  unfolding complete
  completed-Matches recs running calls j k status body h = found (recs j) refl
    where
      found :
          (o : Option IdempotencyRecord)
          → recs j ≡ o
          → Matches (complete_in o j status body recs k) running calls
      found none q = h
      found (some rec) q = stored-Matches recs running calls j k rec _ q h

  Step-Matches :
      {s t : Service} (k : String)
      → Step s t
      → Matches (s.recs k) (s.running k) (s.calls k)
      → Matches (t.recs k) (t.running k) (t.calls k)
  unfolding complete
  Step-Matches {s} k (admits r) h = elim (admit-cases r s.recs) [
    | inl (x, q) ↦ rw q h
    | inr (hash, fresh, q) ↦ rw q (entered-Matches s.recs s.running s.calls r.key k _ fresh h)
  ]
  Step-Matches {s} k (completes j n status body q) h =
      completed-Matches s.recs (set s.running j n k) (s.calls k) j k status body
        (lost-Matches (s.recs k) s.running (s.calls k) j k n q h)
  Step-Matches {s} k (loses j n q) h = lost-Matches (s.recs k) s.running (s.calls k) j k n q h

  Reaches-Matches :
      {s t : Service} (k : String)
      → Reaches s t
      → Matches (s.recs k) (s.running k) (s.calls k)
      → Matches (t.recs k) (t.running k) (t.calls k)
  Reaches-Matches k done h = h
  Reaches-Matches k (next before step) h = Step-Matches k step (Reaches-Matches k before h)

  few : (o : Option IdempotencyRecord) (running calls : ℕ) → Matches o running calls → calls ≤ 1
  few none running calls h = omega (arith, h.1)
  few (some rec) running calls h = omega (arith, h.1)

  -- In any run of the service from its start, a handler is called at most once for each key.
  pub calls_once : {s : Service} (k : String) → Reaches new_service s → s.calls k ≤ 1
  calls_once {s} k run = few (s.recs k) _ _ (Reaches-Matches k run (refl, refl))
