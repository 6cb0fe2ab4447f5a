-- ===== src/Service/Requests.antt =====
-- internal/app/service/request.go: replaying the stored result of a request. The JSON encoder and
-- SHA-256 are Go's: an input hash and an encoded result are given.
pub mod Replay
use cert_me.Prelude.{Option, map, none, not, some, ◌++◌}
use cert_me.App.{conflict_kind, new_app_error, validation_kind}
use cert_me.Errors.{err, ok}
use cert_me.Identity.{lower_byte}
use cert_me.Prelude.Text.{Text, bytes, is_empty, text_eq}
use cert_me.Service.Callers.{Principal, admin, anonymous, internal}
use cert_me.Store.{
  Reply, Tx, gave, give, if_present, or_store_error, refuse_if, refused, ◌>>=◌, ◌>>◌,
}
use cert_me.Store.Accounts.{OperationRequestKey, OperationRequestResult, RequestRepository}
use cert_me.Values.Ids.{parse_uuid}

-- `strings.ToLower` on the ids of ASCII letters that `NormalizeUUID` is given.
unfoldable pub normalize_uuid : Text → Text
normalize_uuid raw = map lower_byte raw

-- `ActorKey`
unfoldable pub actor_key_of : Principal → Text
actor_key_of (admin account session epoch) = bytes "account:" ++ normalize_uuid account
actor_key_of (internal operations) = bytes "internal"
actor_key_of anonymous = bytes "anonymous"

-- `RequestKey`, with the `RequireIdempotencyKey` of the request.
unfoldable pub request_key : Principal → Text → Text → Reply OperationRequestKey
request_key principal raw_key operation = elim (parse_uuid raw_key) [
  | ok key ↦
      gave (record { actor_key = actor_key_of principal; operation = operation; request_id = key })
  | err e ↦ refused (new_app_error validation_kind "idempotency_key_invalid")
]

module _ {S : Type 0} (requests : RequestRepository S) where
  -- The answer to what `Find` gave.
  unfoldable pub replay_found :
      Option OperationRequestResult → Text → Tx S (Option OperationRequestResult)
  replay_found none input_hash = give none
  replay_found (some stored) input_hash = do
    refuse_if (not (text_eq stored.input_hash input_hash))
        (new_app_error conflict_kind "idempotency_key_reused")
    give (some stored)

  -- `ReplayStoredResult`: `none` where nothing is stored.
  unfoldable pub replay_stored_result :
      OperationRequestKey → Text → Tx S (Option OperationRequestResult)
  replay_stored_result key input_hash = do
    refuse_if (is_empty input_hash) (new_app_error validation_kind "request_input_hash_missing")
    found ← if_present (requests.find_result key) "request_lookup_failed"
    replay_found found input_hash

  -- `StoreRequestResult` of a result that was encoded.
  unfoldable pub store_request_result : OperationRequestKey → Text → Text → Tx S (Unit {0})
  store_request_result key input_hash encoded =
      or_store_error (requests.insert_result key input_hash encoded) "request_result_store_failed"
