-- ===== src/Tests/Api.antt =====
-- A request with an idempotency key, its completion, its loss, and its repetition: the theorems on
-- the keys at these inputs.
use eventledger.Prelude.{◌≡◌, ◌≤◌, refl, arith, true, String, some}
use eventledger.Api.Keys.{reserve, complete, hash_request}
use eventledger.Api.Serve.{
  Request, answered, replay, error_reply, admit, validate_idempotency_key, byte_length,
}
use eventledger.Api.Runs.{
  Service, new_service, enter, set, Reaches, done, next, admits, completes, calls_once,
}
use eventledger.Api.Settled.{replays, never_replays}

abbrev digest : String → String
digest s = s

abbrev deposit : Request
deposit = record { method = "POST"; path = "/accounts/a/deposits"; key = "k1"; body = some "{}" }

abbrev admitted : Service
admitted = enter new_service (admit digest deposit new_service.recs)

abbrev completed : Service
completed = record admitted {
  recs = complete "k1" 200 "accepted" admitted.recs;
  running = set admitted.running "k1" 0;
}

abbrev lost : Service
lost = record admitted { running = set admitted.running "k1" 0 }

to_completed : Reaches digest new_service completed
unfolding admit reserve complete validate_idempotency_key byte_length hash_request
to_completed = next (next done (admits deposit)) (completes "k1" 0 200 "accepted" refl)

again : (s : Service) → Reaches digest s (enter s (admit digest deposit s.recs))
again s = next done (admits deposit)

calls_once_example : completed.calls "k1" ≤ 1
calls_once_example = calls_once digest "k1" to_completed

abbrev completed_again : Service
completed_again = enter completed (admit digest deposit completed.recs)

replays_example :
    admit digest deposit completed_again.recs
    ≡ (answered (replay 200 "accepted"), completed_again.recs)
unfolding admit reserve complete validate_idempotency_key byte_length hash_request
replays_example =
    replays digest (again completed) deposit "{}"
      (record {
        request_hash = hash_request digest "POST" "/accounts/a/deposits" "{}";
        status_code = 200;
        body = "accepted";
      })
      refl refl refl refl refl (omega arith)

abbrev lost_again : Service
lost_again = enter lost (admit digest deposit lost.recs)

never_replays_example :
    admit digest deposit lost_again.recs
    ≡ (answered (error_reply 409 true "original request still processing"), lost_again.recs)
unfolding admit reserve complete validate_idempotency_key byte_length hash_request
never_replays_example =
    never_replays digest (again lost) deposit "{}"
      (record {
        request_hash = hash_request digest "POST" "/accounts/a/deposits" "{}";
        status_code = 0;
        body = "";
      })
      refl refl refl refl refl refl

nul_bytes : byte_length "\0" ≡ 1
unfolding byte_length
nul_bytes = refl
