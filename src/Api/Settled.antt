-- ===== src/Api/Settled.antt =====
-- internal/api: keys whose handlers have all ended, and how server.go answers later requests with them.
use eventledger.Prelude.{
  ℕ, ◌<◌, ◌≡◌, refl, ap, ◌∙◌, inl, inr, true, false, String, Option, none, some, str_eq, Bool-cases,
  arith, eq_iff, str_eq_refl,
}
use eventledger.Api.Keys.{IdempotencyRecord, Records, reserve, complete, complete_in, hash_request}
use eventledger.Api.Serve.{
  Request, replay, error_reply, answered, known_key, admit, validate_idempotency_key,
}
use eventledger.Api.Runs.{Service, Step, admits, completes, loses, Reaches, done, next, admit-cases}

-- The key has this record, and no handler.
abbrev pub IsSettled : String → IdempotencyRecord → Service → Type 0
IsSettled k rec s = (s.recs k ≡ some rec) × (s.running k ≡ 0)

known_key_done :
    (rec : IdempotencyRecord)
    → 0 < rec.status_code
    → known_key rec.request_hash rec ≡ replay rec.status_code rec.body
known_key_done rec complete = rw (str_eq_refl rec.request_hash) (ground arith)

known_key_lost :
    (rec : IdempotencyRecord)
    → rec.status_code ≡ 0
    → known_key rec.request_hash rec ≡ error_reply 409 true "original request still processing"
known_key_lost rec lost = rw (str_eq_refl rec.request_hash) (ground arith)

module _ (digest : String → String) where
  complete-other :
      (recs : Records) (j k : String) (status : ℕ) (body : String)
      → str_eq j k ≡ false
      → complete j status body recs k ≡ recs k
  unfolding complete
  complete-other recs j k status body p = found (recs j)
    where
      found : (o : Option IdempotencyRecord) → complete_in o j status body recs k ≡ recs k
      found none = refl
      found (some rec) = rw p refl

  Step-IsSettled :
      {s t : Service} (k : String) (rec : IdempotencyRecord)
      → Step digest s t
      → IsSettled k rec s
      → IsSettled k rec t
  Step-IsSettled {s} k rec (admits r) (known, idle) = elim (admit-cases digest r s.recs) [
    | inl (x, q) ↦ rw q (known, idle)
    | inr (hash, fresh, q) ↦ elim (Bool-cases (str_eq r.key k)) [
      | inl p ↦ absurd (cc (ap s.recs ((eq_iff r.key k).0 p), known, fresh))
      | inr p ↦ rw q (rw p (known, idle))
    ]
  ]
  Step-IsSettled {s} k rec (completes j n status body q) (known, idle) =
      elim (Bool-cases (str_eq j k)) [
        | inl p ↦ absurd (omega (arith, q, idle, ap s.running ((eq_iff j k).0 p)))
        | inr p ↦ rw p (complete-other s.recs j k status body p ∙ known, idle)
      ]
  Step-IsSettled {s} k rec (loses j n q) (known, idle) = elim (Bool-cases (str_eq j k)) [
    | inl p ↦ absurd (omega (arith, q, idle, ap s.running ((eq_iff j k).0 p)))
    | inr p ↦ rw p (known, idle)
  ]

  Reaches-IsSettled :
      {s t : Service} (k : String) (rec : IdempotencyRecord)
      → Reaches digest s t
      → IsSettled k rec s
      → IsSettled k rec t
  Reaches-IsSettled k rec done h = h
  Reaches-IsSettled k rec (next before step) h =
      Step-IsSettled k rec step (Reaches-IsSettled k rec before h)

  admit_known :
      (r : Request) (body : String) (rec : IdempotencyRecord) (t : Service)
      → validate_idempotency_key r.key ≡ none
      → r.body ≡ some body
      → IsSettled r.key rec t
      → hash_request digest r.method r.path body ≡ rec.request_hash
      → admit digest r t.recs ≡ (answered (known_key rec.request_hash rec), t.recs)
  unfolding admit reserve
  admit_known r body rec t valid readable (known, idle) same =
      rw (valid, readable) (rw known (rw same refl))

  module _ {s t : Service} (run : Reaches digest s t) (r : Request) (body : String)
      (rec : IdempotencyRecord) (valid : validate_idempotency_key r.key ≡ none)
      (readable : r.body ≡ some body)
      (same : hash_request digest r.method r.path body ≡ rec.request_hash)
      (known : s.recs r.key ≡ some rec) (idle : s.running r.key ≡ 0) where
    -- Once a key has a record with a status and no handler that still runs for it, every later
    -- request with the same key, method, path and body, the key valid and the body readable, is
    -- answered with exactly the recorded response, and its handler is not called.
    pub replays :
        0 < rec.status_code
        → admit digest r t.recs ≡ (answered (replay rec.status_code rec.body), t.recs)
    replays complete =
        rw
          (admit_known r body rec t valid readable (Reaches-IsSettled r.key rec run (known, idle))
            same)
          (ap (λ x. (answered x, t.recs)) (known_key_done rec complete))

    -- Once a key has a record without a status and no handler that still runs for it, every later
    -- request with the same key, method, path and body, the key valid and the body readable, is
    -- answered that the original request is still being processed.
    pub never_replays :
        rec.status_code ≡ 0
        → admit digest r t.recs
          ≡ (answered (error_reply 409 true "original request still processing"), t.recs)
    never_replays lost =
        rw
          (admit_known r body rec t valid readable (Reaches-IsSettled r.key rec run (known, idle))
            same)
          (ap (λ x. (answered x, t.recs)) (known_key_lost rec lost))
