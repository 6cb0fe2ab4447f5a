-- ===== src/Examples/Logins.antt =====
-- internal/app/service/identity.go over the store in memory, at concrete inputs: resets and logins.
use cert_me.Prelude.{[], arith, false, refl, some, true, ◌≡◌}
use cert_me.App.{
  classify_store_error, code_of_failure, fields_of_failure, from_domain_error, is_store_fault,
  kind_of_failure, new_app_error, store_error, with_public_field, wrap_app_error,
}
use cert_me.App.Throttle.{
  admit_lookup, count_failure, current_window_start, decimal_digits, format_int, instant_from_time,
  rate_limited_error, record_pre_auth_failure, require_pre_auth_admission, save_counter,
  save_failure, window_offset,
}
use cert_me.Calendar.{rem}
use cert_me.Examples.Samples.{at, id_a, id_b, id_c}
use cert_me.Examples.Services.{hash_of_link, hash_of_session, left_by, one_account, root_account}
use cert_me.Identity.{Account, begin_reset, can_login, can_login_in}
use cert_me.Identity.ResetToken.{
  default_reset_policy, invalidate_token, issue_admin_reset_token, link_deadline,
  new_admin_reset_token, new_reset_policy, token_is_consumed, token_is_invalidated,
}
use cert_me.Identity.Session.{
  SessionState, default_session_policy, new_session_policy, new_session_state, session_deadline,
}
use cert_me.Prelude.Int.{add64, pos, sub64, wrap64, ◌+ℤ◌, ◌-ℤ◌}
use cert_me.Prelude.Text.{bytes, text_eq, text_eq_iff}
use cert_me.Service.{append_account_audit}
use cert_me.Service.Auth.{require_current_auth}
use cert_me.Service.Callers.{admin}
use cert_me.Service.Identity.{LoginCalls, LoginView, is_as_prepared, session_of}
use cert_me.Service.Identity.Login.{
  admission, count_attempt, lock_account_by_login_name, lock_found, login_locked, login_result,
  login_tx, login_verified, login_view, mint, start_session,
}
use cert_me.Service.Identity.Login.Checks.{Started, login_checked}
use cert_me.Service.Identity.Resets.{
  BeginResetCalls, ResetLinkView, begin_reset_row, begin_reset_tx, build_reset_link_url,
  drop_slashes, issue_link, store_reset,
}
use cert_me.Service.Identity.Resets.Effects.{WellKeyed}
use cert_me.Service.Identity.Resets.Guards.{begin_reset_ends_sessions}
use cert_me.Store.{gave, if_present, or_absent, or_store_error, write}
use cert_me.Store.Accounts.{scope_is_valid}
use cert_me.Store.Memory.{
  MemoryState, account_named, index_of_others, memory_accounts, memory_audit,
  memory_delete_all_sessions, memory_delete_session, memory_insert_account, memory_installation,
  memory_rate_limits, memory_save_account, memory_save_reset_token, memory_save_session,
  put_reset_token, put_session, request_keyed, row_of, save_versioned, sessions_of_others,
}
use cert_me.Store.Table.{find, pair_keyed, put, remove, text_keyed, update_all}
use cert_me.Values.Ids.{is_lower_hex_digit, is_uuid_byte, parse_uuid}
use cert_me.Values.Instant.{add, after, before, is_positive, is_zero}

abbrev pub begin_calls : BeginResetCalls
begin_calls = record {
  canceled = false;
  minted = gave (bytes "raw", hash_of_link);
  service_url = λ settings. gave (bytes "https://ca.example/");
  now = at 1000;
  token_uuid = id_c;
  audit_uuid = id_b;
}

abbrev pub reset_link : ResetLinkView
reset_link = record {
  url = bytes "https://ca.example/reset-password/raw";
  expires_at = at 10_800_001_000;
  token_id = id_c;
  account_id = id_a;
}

abbrev pub reset_issued : MemoryState
reset_issued = left_by (
    begin_reset_tx memory_accounts memory_audit memory_installation id_a [] begin_calls
      (bytes "raw") hash_of_link one_account)

pub link_issued :
    begin_reset_tx memory_accounts memory_audit memory_installation id_a [] begin_calls
      (bytes "raw")
      hash_of_link
      one_account
    ≡ gave (reset_link, reset_issued)
unfolding begin_reset_tx begin_reset_row issue_link store_reset build_reset_link_url drop_slashes
    default_reset_policy begin_reset memory_accounts memory_installation memory_audit or_store_error
    or_absent row_of append_account_audit find put put_reset_token memory_save_account
    memory_delete_all_sessions save_versioned sessions_of_others index_of_others update_all text_eq
    new_reset_policy is_positive parse_uuid issue_admin_reset_token new_admin_reset_token is_zero
    link_deadline add add64 wrap64 ◌+ℤ◌ after scope_is_valid
link_issued = refl

pub rows_keyed : WellKeyed one_account
unfolding find
rows_keyed id a held = ground (arith, text_eq_iff id_a id)

begin_reset_ends_sessions_example : ¬ (
    require_current_auth memory_accounts (admin id_a id_b (pos 5)) (at 2000) reset_issued
    ≡ gave (tt, reset_issued))
begin_reset_ends_sessions_example =
    begin_reset_ends_sessions id_a [] begin_calls (bytes "raw") hash_of_link reset_link one_account
      reset_issued rows_keyed link_issued id_b (pos 5) (at 2000) reset_issued

abbrev pub login_calls : LoginCalls
login_calls = record {
  canceled = false;
  admission_now = at 900;
  verify = λ hash. gave true;
  session_token = gave (bytes "token", hash_of_link);
  csrf_token = gave (bytes "csrf", hash_of_session);
  commit_admission_now = at 900;
  locked_now = at 1000;
  failure_now = at 1000;
  session_uuid = id_c;
  audit_uuid = id_b;
}

abbrev pub root_view : LoginView
root_view = record {
  account = root_account;
  idle_expires_at = at 3_600_001_000;
  absolute_expires_at = at 86_400_001_000;
  session_token = bytes "token";
  csrf_token = bytes "csrf";
}

abbrev new_session : SessionState
new_session = record {
  id = id_c;
  account_id = id_a;
  token_hash = hash_of_link;
  csrf_secret_hash = hash_of_session;
  auth_epoch = pos 4;
  last_seen_at = at 1000;
  absolute_expires_at = at 86_400_001_000;
}

abbrev pub logged_in : MemoryState
logged_in =
    (login_verified memory_accounts memory_audit memory_rate_limits [] (bytes "root") [] login_calls
      (some root_account) true one_account).1

session_started :
    login_verified memory_accounts memory_audit memory_rate_limits []
      (bytes "root")
      []
      login_calls
      (some root_account)
      true
      one_account
    ≡ (gave root_view, logged_in)
unfolding login_verified mint login_result write login_tx admission require_pre_auth_admission
    lock_account_by_login_name if_present memory_accounts row_of account_named text_eq lock_found
    find login_locked is_as_prepared start_session can_login can_login_in session_of parse_uuid
    default_session_policy new_session_policy is_positive new_session_state is_zero session_deadline
    add add64 wrap64 ◌+ℤ◌ before or_store_error append_account_audit admit_lookup count_failure
    current_window_start decimal_digits format_int instant_from_time rate_limited_error
    record_pre_auth_failure save_counter save_failure window_offset classify_store_error
    code_of_failure fields_of_failure from_domain_error is_store_fault kind_of_failure new_app_error
    store_error with_public_field wrap_app_error rem invalidate_token token_is_consumed
    token_is_invalidated sub64 ◌-ℤ◌ count_attempt login_view memory_delete_all_sessions
    memory_delete_session memory_insert_account memory_save_account memory_save_reset_token
    memory_save_session put_reset_token put_session save_versioned sessions_of_others put remove
    update_all is_lower_hex_digit is_uuid_byte memory_audit scope_is_valid
session_started = refl

login_checked_example :
    (true ≡ true)
    × ((a : Account) × (x : SessionState) × Started
          (bytes "root")
          login_calls
          (some root_account)
          a
          x
          one_account
          logged_in)
login_checked_example =
    login_checked memory_rate_limits [] (bytes "root") [] login_calls (some root_account) true
      root_view one_account logged_in session_started
