-- ===== src/Api/Server.antt =====
-- internal/api/server.go: the middlewares, the recorder and the wrapper `idempotent` as a whole, over
-- the calls that a handler makes of its http.ResponseWriter. The mux, encoding/json and
-- net.SplitHostPort are parameters, and so is the state of the handlers.
use Prim.Native.String.{◌++◌ as append}
use eventledger.Prelude.{ℕ, Bool, true, false, String, List, [], ◌∷◌, Option, none, some}
use eventledger.Domain.Errors.{Result, ok, err}
use eventledger.Database.{Db}
use eventledger.Api.Keys.{IdempotencyRecord, Records, hash_request}
use eventledger.Api.Stored.{reserve_row, complete_row}
use eventledger.Api.Serve.{
  Request, Reply, error_reply, replay, write_error, known_key, validate_idempotency_key,
}
use eventledger.Api.Handlers.{Answer, refused, replied}
use eventledger.Api.RateLimit.{Float, RateLimiter, allow, with_rate_limit}

-- A call of a method of http.ResponseWriter.
pub data Write : Type 0 where
  header : String → String → Write
  write_header : ℕ → Write
  write_body : String → Write

-- The fields of `recorder` after the calls that went through it: the status, and what it captured.
unfoldable pub recorded_status : ℕ → List Write → ℕ
recorded_status status [] = status
recorded_status status (header k v ∷ ws) = recorded_status status ws
recorded_status status (write_header code ∷ ws) = recorded_status code ws
recorded_status status (write_body s ∷ ws) = recorded_status status ws

unfoldable pub captured : List Write → String
captured [] = ""
captured (header k v ∷ ws) = captured ws
captured (write_header code ∷ ws) = captured ws
captured (write_body s ∷ ws) = append s (captured ws)

-- writeJSON, with the text that the encoder gives.
abbrev pub write_json : ℕ → String → List Write
write_json status text =
    header "Content-Type" "application/json" ∷ write_header status ∷ write_body text ∷ []

abbrev pub retry_after : Bool → List Write → List Write
retry_after true ws = header "Retry-After" "1" ∷ ws
retry_after false ws = ws

module _ (encode_error : String → String) where
  -- The calls that give a reply; `encode_error` is the JSON text of errBody.
  abbrev pub writes_of : Reply → List Write
  writes_of (error_reply status retry message) =
      retry_after retry (write_json status (encode_error message))
  writes_of (replay status body) =
      header "Content-Type" "application/json"
      ∷ header "Idempotency-Replay" "true"
      ∷ write_header status
      ∷ write_body body
      ∷ []

-- What a handler with an answer writes; `encode` is the JSON text of its value.
module _ (encode_error : String → String) where
  abbrev pub answer_writes : {A : Type 0} → (A → String) → Answer A → List Write
  answer_writes encode (refused x) = writes_of encode_error x
  answer_writes encode (replied status a) = write_json status (encode a)

-- What a handler writes, and the state that it leaves.
abbrev pub Handler : Type 0 → Type 0
Handler W = W → List Write × W

module _ (digest encode_error : String → String) where
  module _ {W : Type 0} where
    -- The call of the handler through the recorder, and Complete, whose error is only logged.
    abbrev pub execute : String → Handler W → Db Records → W → List Write × (Db Records × W)
    execute key handler db w =
        let (ws, w') = handler w in
        let (logged, db') = complete_row key (recorded_status 200 ws) (captured ws) db in
        (ws, (db', w'))

    abbrev pub after_reserve :
        String
        → String
        → Handler W
        → Result (Bool × IdempotencyRecord) × Db Records
        → W
        → List Write × (Db Records × W)
    after_reserve key hash handler (err x, db) w = (writes_of encode_error (write_error x), (db, w))
    after_reserve key hash handler (ok (true, rec), db) w = execute key handler db w
    after_reserve key hash handler (ok (false, rec), db) w =
        (writes_of encode_error (known_key hash rec), (db, w))

    abbrev pub read_body :
        Option String
        → Request
        → (Records → Records)
        → Handler W
        → Db Records
        → W
        → List Write × (Db Records × W)
    read_body none r others handler db w =
        (writes_of encode_error (error_reply 400 false "cannot read body"), (db, w))
    read_body (some body) r others handler db w =
        let hash = hash_request digest r.method r.path body in
        after_reserve r.key hash handler (reserve_row r.key hash others db) w

    abbrev pub check_key :
        Option String
        → Request
        → (Records → Records)
        → Handler W
        → Db Records
        → W
        → List Write × (Db Records × W)
    check_key (some problem) r others handler db w =
        (writes_of encode_error (error_reply 400 false problem), (db, w))
    check_key none r others handler db w = read_body r.body r others handler db w

    -- idempotent, over the store on Postgres; `others` are the steps that others take between the two
    -- statements of Reserve.
    unfoldable pub idempotent :
        Request → (Records → Records) → Handler W → Db Records → W → List Write × (Db Records × W)
    idempotent r others handler db w =
        check_key (validate_idempotency_key r.key) r others handler db w

-- clientIP; `split_host_port` gives the host, or none where it fails.
unfoldable pub client_ip : (String → Option String) → String → String
client_ip split_host_port remote_addr = elim (split_host_port remote_addr) [
  | none ↦ remote_addr
  | some host ↦ host
]

-- The line of withLogging, without the duration.
pub record LogLine : Type 0 where
  pub method : String
  pub path : String
  pub status : ℕ

abbrev pub with_logging :
    {W : Type 0} → Request → (W → List Write × W) → W → List Write × (LogLine × W)
with_logging r next w =
    let (ws, w') = next w in
    (ws, (record { method = r.method; path = r.path; status = recorded_status 200 ws }, w'))

module _ (f : Float) (encode_error : String → String)
    (split_host_port : String → Option String) where
  -- Handler: the log around the rate limit around the mux.
  unfoldable pub serve :
      {W : Type 0}
      → Request
      → String
      → ℕ
      → (W → List Write × W)
      → RateLimiter f × W
      → List Write × (LogLine × (RateLimiter f × W))
  unfolding client_ip
  serve r remote_addr now mux = with_logging r (λ s.
      let (allowed, rl) = allow f (client_ip split_host_port remote_addr) now s.0 in
      with_rate_limit f (λ x. (writes_of encode_error x, (rl, s.1)))
        (let (ws, w) = mux s.1 in (ws, (rl, w))) allowed)
