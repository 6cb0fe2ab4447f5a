-- ===== src/Examples/Services.antt =====
-- internal/app/service over the store in memory, at concrete inputs: requests, setup and the accounts.
use cert_me.Prelude.{[], arith, false, none, refl, some, true, ◌∷◌, ◌≡◌, ◌≢◌}
use cert_me.App.{conflict_kind, duplicate, new_app_error, store_error, store_fault}
use cert_me.Examples.Samples.{at, id_a, id_b, id_c}
use cert_me.Identity.{Account, active_account}
use cert_me.Identity.Session.{SessionState}
use cert_me.Prelude.Int.{add64, pos, wrap64, ◌+ℤ◌}
use cert_me.Prelude.Star.{done, more}
use cert_me.Prelude.Text.{bytes}
use cert_me.Service.{append_account_audit, authorize}
use cert_me.Service.Auth.{require_current_auth}
use cert_me.Service.Callers.{internal}
use cert_me.Service.Requests.{replay_stored_result, store_request_result}
use cert_me.Service.Requests.Replay.{store-replay}
use cert_me.Service.Setup.{
  SetupCalls, SetupView, complete_pki_stage, complete_stage, complete_tx, create_admin_tx,
  insert_first_account, load_installation, to_setup_view,
}
use cert_me.Service.Setup.FirstAdmin.{SetupStep, create_admin_once, elsewhere, finished}
use cert_me.Store.{Reply, Tx, gave, or_absent, or_store_error, refused, write}
use cert_me.Store.Accounts.{
  Installation, OperationRequestKey, account_required, scope_is_valid, setup_complete,
}
use cert_me.Store.Memory.{
  MemoryState, account_named, memory_accounts, memory_audit, memory_insert_account,
  memory_insert_result, memory_installation, memory_requests, request_keyed, row_of, save_single,
}
use cert_me.Store.Table.{find, pair_keyed, put, text_keyed}
use cert_me.Values.Hex.{TokenHash}
use cert_me.Values.Ids.{next}

abbrev pub root_account : Account
root_account = record {
  id = id_a;
  normalized_login_name = bytes "root";
  password_hash = record { encoded = bytes "old" };
  state = active_account;
  auth_epoch = pos 4;
  is_global_admin = true;
  version = pos 1;
}

abbrev pub hash_of_link : TokenHash
hash_of_link = record { fingerprint = record { hex = bytes "0a" } }

abbrev pub hash_of_session : TokenHash
hash_of_session = record { fingerprint = record { hex = bytes "0b" } }

abbrev root_session : SessionState
root_session = record {
  id = id_b;
  account_id = id_a;
  token_hash = hash_of_session;
  csrf_secret_hash = hash_of_session;
  auth_epoch = pos 4;
  last_seen_at = at 100;
  absolute_expires_at = at 10_000_000_000;
}

abbrev fresh_installation : Installation
fresh_installation = record {
  setup_stage = account_required;
  first_admin_id = [];
  active_encryption_generation_id = [];
  active_tls_version_id = [];
  service_mode = [];
  version = pos 1;
}

-- A store before its setup.
abbrev pub empty_store : MemoryState
empty_store = record {
  accounts = [];
  sessions = [];
  sessions_by_hash = [];
  reset_tokens = [];
  reset_tokens_by_hash = [];
  rate_limits = [];
  installation = some fresh_installation;
  settings = some (record {
    schema_version = pos 1;
    settings_json = bytes "{}";
    version = pos 1;
    updated_by = [];
  });
  request_results = [];
  audit_events = [];
}

-- One account with one session.
abbrev pub one_account : MemoryState
one_account = record empty_store {
  accounts = (id_a, root_account) ∷ [];
  sessions = (id_b, root_session) ∷ [];
  sessions_by_hash = (bytes "0b", id_b) ∷ [];
}

-- The state that a call leaves.
abbrev pub left_by : {A : Type 0} → Reply (A × MemoryState) → MemoryState
left_by (gave (a, t)) = t
left_by (refused e) = empty_store

abbrev key : OperationRequestKey
key = record { actor_key = bytes "internal"; operation = bytes "op"; request_id = id_a }

abbrev result_stored : MemoryState
result_stored = record empty_store {
  request_results = (key, record { input_hash = bytes "1"; result_json = bytes "{}" }) ∷ [];
}

stored_now :
    store_request_result memory_requests key (bytes "1") (bytes "{}") empty_store
    ≡ gave (tt, result_stored)
unfolding store_request_result or_store_error memory_requests memory_insert_result find put
stored_now = refl

hashes_differ : bytes "2" ≢ bytes "1"
hashes_differ = λ e. ground arith

store-replay_example :
    (replay_stored_result memory_requests key (bytes "1") result_stored
      ≡ gave (some (record { input_hash = bytes "1"; result_json = bytes "{}" }), result_stored))
    × (replay_stored_result memory_requests key (bytes "2") result_stored
        ≡ refused (new_app_error conflict_kind "idempotency_key_reused"))
    × (store_request_result memory_requests key (bytes "1") (bytes "[]") result_stored
        ≡ refused (store_error (store_fault duplicate) "request_result_store_failed"))
store-replay_example =
    store-replay key (bytes "1") (bytes "{}") (bytes "2") (bytes "1") (bytes "[]") empty_store
      result_stored stored_now refl refl hashes_differ

abbrev setup_calls : SetupCalls
setup_calls = record {
  canceled = false;
  hashed = gave (record { encoded = bytes "old" });
  account_uuid = id_a;
  audit_uuid = id_c;
  now = at 200;
}

abbrev set_up : MemoryState
set_up = left_by (
    create_admin_tx memory_accounts memory_installation memory_audit root_account [] setup_calls
      empty_store)

admin_created :
    create_admin_tx memory_accounts memory_installation memory_audit root_account [] setup_calls
      empty_store
    ≡ gave (root_account, set_up)
unfolding create_admin_tx load_installation insert_first_account memory_accounts memory_installation
    memory_audit memory_insert_account or_store_error or_absent row_of save_single find put
    account_named append_account_audit scope_is_valid
admin_created = refl

-- Settings are stored, and then `Complete` commits.
abbrev with_settings : MemoryState
with_settings = record set_up {
  settings = some (record {
    schema_version = pos 1;
    settings_json = bytes "{}";
    version = pos 1;
    updated_by = id_a;
  });
}

abbrev run_complete : Tx MemoryState SetupView
run_complete =
    complete_tx memory_accounts memory_installation memory_audit (λ who action scope. none)
      (internal []) (pos 1) [] (at 300) setup_calls

abbrev complete_store : MemoryState
complete_store = left_by (run_complete with_settings)

abbrev complete_view : SetupView
complete_view = record { setup_stage = setup_complete; bootstrap_https = true }

setup_completed : run_complete with_settings ≡ gave (complete_view, complete_store)
unfolding complete_tx require_current_auth authorize complete_stage complete_pki_stage
    load_installation to_setup_view create_admin_tx insert_first_account memory_accounts
    memory_installation memory_audit memory_insert_account or_store_error or_absent row_of
    save_single find put account_named append_account_audit scope_is_valid next add64 wrap64 ◌+ℤ◌
setup_completed = refl

set_to_configured : SetupStep set_up with_settings
set_to_configured = elsewhere refl

create_admin_once_example :
    write
      (create_admin_tx memory_accounts memory_installation memory_audit root_account [] setup_calls)
      complete_store
    ≡ (refused (new_app_error conflict_kind "setup_already_has_admin"), complete_store)
create_admin_once_example =
    create_admin_once root_account root_account [] [] setup_calls setup_calls root_account
      empty_store set_up complete_store admin_created
      (more set_to_configured (
        more
          (finished (λ who action scope. none) (internal []) (pos 1) [] (at 300) setup_calls
            complete_view setup_completed)
          done))
