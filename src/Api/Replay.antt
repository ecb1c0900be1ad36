-- ===== src/Api/Replay.antt =====
-- internal/api/server.go: a request that is sent again with its key.
use eventledger.Prelude.{
  ℕ, ◌≡◌, refl, sym, ap, ◌∙◌, Bool, true, false, String, List, none, some, str_eq, str_eq_refl,
  if◌then◌else◌, not, ◌&&◌, ◌==◌,
}
use text.Mathlib.TextLemmas.{append-nil}
use eventledger.Domain.Errors.{ok}
use eventledger.Api.Keys.{
  IdempotencyRecord, no_record, Records, store_record, reserve, complete, hash_request,
}
use eventledger.Api.Stored.{reserve_row, complete_row, rows, rows_as_memory}
use eventledger.Api.Serve.{Request, error_reply, replay, known_key, validate_idempotency_key}
use eventledger.Api.Server.{
  Write, Handler, recorded_status, captured, writes_of, idempotent, after_reserve,
}

abbrev pending : String → String → Records → Records
pending hash key recs =
    store_record recs key (record { request_hash = hash; status_code = 0; body = "" })

abbrev final : String → List Write → IdempotencyRecord
final hash ws = record {
  request_hash = hash;
  status_code = recorded_status 200 ws;
  body = captured ws;
}

captured-replay :
    (encode_error : String → String) (status : ℕ) (text : String)
    → captured (writes_of encode_error (replay status text)) ≡ text
unfolding captured
captured-replay encode_error status text = append-nil text

reserve_new :
    (key hash : String) (recs : Records)
    → recs key ≡ none
    → reserve_row key hash (λ t. t) (rows recs)
      ≡ (ok (true, no_record), rows (pending hash key recs))
unfolding reserve
reserve_new key hash recs fresh = (rows_as_memory key hash 0 "" recs).0 ∙ (rw fresh refl)

reserve_known :
    (key hash : String) (recs : Records) (rec : IdempotencyRecord)
    → recs key ≡ some rec
    → reserve_row key hash (λ t. t) (rows recs) ≡ (ok (false, rec), rows recs)
unfolding reserve
reserve_known key hash recs rec known = (rows_as_memory key hash 0 "" recs).0 ∙ (rw known refl)

complete_pending :
    (key hash : String) (status : ℕ) (body : String) (recs : Records)
    → (complete_row key status body (rows (pending hash key recs))).1
      ≡ rows (
          store_record
            (pending hash key recs)
            key
            (record { request_hash = hash; status_code = status; body = body }))
unfolding complete
complete_pending key hash status body recs =
    ap (λ r. r.1) (rows_as_memory key hash status body (pending hash key recs)).1
    ∙ (rw (str_eq_refl key) refl)

known-replay :
    (rec : IdempotencyRecord)
    → (rec.status_code == 0) ≡ false
    → known_key rec.request_hash rec ≡ replay rec.status_code rec.body
known-replay rec answered =
    rw (str_eq_refl rec.request_hash) (if_known (str_eq rec.request_hash ""))
  where
    if_known :
        (b : Bool)
        → (if not b && not true
            then error_reply 422 false "Idempotency-Key already used with a different request"
            else if rec.status_code == 0
            then error_reply 409 true "original request still processing"
            else replay rec.status_code rec.body)
          ≡ replay rec.status_code rec.body
    if_known true = rw answered refl
    if_known false = rw answered refl

module _ (digest encode_error : String → String) {W : Type 0} (r : Request) (body : String)
    (valid : validate_idempotency_key r.key ≡ none) (readable : r.body ≡ some body) where
  first_call :
      (handler : Handler W) (recs : Records) (w : W)
      → recs r.key ≡ none
      → let hash = hash_request digest r.method r.path body in
        idempotent digest encode_error r (λ t. t) handler (rows recs) w ≡ (
          (handler w).0,
          (
            rows (store_record (pending hash r.key recs) r.key (final hash (handler w).0)),
            (handler w).1,
          ),
        )
  unfolding idempotent
  first_call handler recs w fresh =
      let hash = hash_request digest r.method r.path body in
      let ws = (handler w).0 in
      rw (valid, readable)
        (ap (λ q. after_reserve digest encode_error r.key hash handler q w)
            (reserve_new r.key hash recs fresh)
          ∙ ap (λ db. (ws, (db, (handler w).1)))
              (complete_pending r.key hash (recorded_status 200 ws) (captured ws) recs))

  second_call :
      (handler : Handler W) (recs : Records) (w : W) (rec : IdempotencyRecord)
      → recs r.key ≡ some rec
      → rec.request_hash ≡ hash_request digest r.method r.path body
      → (rec.status_code == 0) ≡ false
      → idempotent digest encode_error r (λ t. t) handler (rows recs) w
        ≡ (writes_of encode_error (replay rec.status_code rec.body), (rows recs, w))
  unfolding idempotent
  second_call handler recs w rec known same answered =
      let hash = hash_request digest r.method r.path body in
      rw (valid, readable)
        (ap (λ q. after_reserve digest encode_error r.key hash handler q w)
            (reserve_known r.key hash recs rec known)
          ∙ ap (λ h. (writes_of encode_error (known_key h rec), (rows recs, w))) (sym same)
          ∙ ap (λ x. (writes_of encode_error x, (rows recs, w))) (known-replay rec answered))

  -- A client that sends a request twice, with nobody else and no fault in between, gets the same
  -- status and body twice, and the second time no handler runs: if the key is valid and new, the body
  -- can be read and the handler gives a status, then the first answer is what the handler writes, with
  -- the state that it leaves, and the second one leaves the state and the keys as they are, has the
  -- same status and the same bytes as body, and stands for whatever the handler would do then.
  pub idempotent_twice :
      (first second : Handler W) (recs : Records) (w : W)
      → recs r.key ≡ none
      → (recorded_status 200 (first w).0 == 0) ≡ false
      → let (ws, s) = idempotent digest encode_error r (λ t. t) first (rows recs) w in
        let (again, s') = idempotent digest encode_error r (λ t. t) second s.0 s.1 in
        (ws ≡ (first w).0)
        × (s.1 ≡ (first w).1)
        × (s' ≡ s)
        × (recorded_status 200 again ≡ recorded_status 200 ws)
        × (captured again ≡ captured ws)
  unfolding recorded_status
  idempotent_twice first second recs w fresh answered =
      let ws = (first w).0 in
      let hash = hash_request digest r.method r.path body in
      let recs' = store_record (pending hash r.key recs) r.key (final hash ws) in
      let again =
        second_call second recs' (first w).1 (final hash ws) (rw (str_eq_refl r.key) refl) refl
          answered in
      rw (first_call first recs w fresh) (
        rw again (
          refl,
          refl,
          refl,
          refl,
          captured-replay encode_error (recorded_status 200 ws) (captured ws),
        ))
