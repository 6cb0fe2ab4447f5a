-- ===== src/Service/Requests/Replay.antt =====
-- internal/app/service/request.go over the store in memory: a stored result is replayed, and a key is
-- never used for two inputs.
use cert_me.Prelude.{arith, false, some, ◌≡◌, ◌≢◌}
use cert_me.App.{conflict_kind, duplicate, new_app_error, store_error, store_fault}
use cert_me.Prelude.Int.{apart}
use cert_me.Prelude.Text.{Text, is_empty, text_eq_iff, text_eq_refl}
use cert_me.Service.Requests.{replay_found, replay_stored_result, store_request_result}
use cert_me.Store.{gave, if_present, or_store_error, refused}
use cert_me.Store.Accounts.{OperationRequestKey}
use cert_me.Store.Memory.{MemoryState, memory_insert_result, memory_requests, request_keyed, row_of}
use cert_me.Store.Table.{find, find-put, pair_keyed, same_refl, text_keyed}

stored_row :
    (key : OperationRequestKey) (input_hash encoded : Text) (s t : MemoryState)
    → store_request_result memory_requests key input_hash encoded s ≡ gave (tt, t)
    → find key t.request_results ≡ some (record { input_hash = input_hash; result_json = encoded })
unfolding store_request_result memory_requests memory_insert_result or_store_error
stored_row key input_hash encoded s t h = ground (
  arith,
  find-put key key (record { input_hash = input_hash; result_json = encoded }) s.request_results,
  same_refl key,
)

-- A result that `StoreRequestResult` stored under an input hash that is not empty is what
-- `ReplayStoredResult` finds under its key and that hash. `ReplayStoredResult` refuses any other hash
-- under the key that is not empty as a reuse of the key. Storing a second result under the key is
-- refused with `request_result_store_failed`, whatever its hash, the first one's included.
pub store-replay :
    (key : OperationRequestKey) (input_hash encoded other_hash second_hash second : Text)
    (s t : MemoryState)
    → store_request_result memory_requests key input_hash encoded s ≡ gave (tt, t)
    → is_empty input_hash ≡ false
    → is_empty other_hash ≡ false
    → other_hash ≢ input_hash
    → (replay_stored_result memory_requests key input_hash t
        ≡ gave (some (record { input_hash = input_hash; result_json = encoded }), t))
      × (replay_stored_result memory_requests key other_hash t
          ≡ refused (new_app_error conflict_kind "idempotency_key_reused"))
      × (store_request_result memory_requests key second_hash second t
          ≡ refused (store_error (store_fault duplicate) "request_result_store_failed"))
unfolding store_request_result replay_stored_result replay_found memory_requests
    memory_insert_result or_store_error if_present row_of
store-replay key input_hash encoded other_hash second_hash second s t h filled other_filled apart =
    let held = stored_row key input_hash encoded s t h in
    (
      ground (arith, held, text_eq_refl input_hash),
      ground (arith, held, text_eq_iff input_hash other_hash),
      ground (arith, held),
    )
