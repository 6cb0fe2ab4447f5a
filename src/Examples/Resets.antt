-- ===== src/Examples/Resets.antt =====
-- internal/app/service/identity.go over the store in memory, at concrete inputs: completed resets.
use cert_me.Prelude.{[], arith, false, refl, some, true, ◌∷◌, ◌≡◌}
use cert_me.App.{
  classify_store_error, is_store_fault, new_app_error, store_error, with_public_field,
  wrap_app_error,
}
use cert_me.App.Throttle.{
  admit_lookup, count_failure, current_window_start, decimal_digits, format_int, instant_from_time,
  rate_limited_error, record_pre_auth_failure, require_pre_auth_admission, save_counter,
  save_failure, window_offset,
}
use cert_me.Calendar.{rem}
use cert_me.Examples.Logins.{
  begin_calls, link_issued, logged_in, login_calls, reset_issued, reset_link, root_view, rows_keyed,
}
use cert_me.Examples.Samples.{at, id_a, id_b, id_c}
use cert_me.Examples.Services.{empty_store, hash_of_link, left_by, one_account, root_account}
use cert_me.Identity.{Account, begin_reset, complete_reset, next_epoch, reset_pending}
use cert_me.Identity.ResetToken.{
  AdminResetToken, can_consume_token, consume_token, default_reset_policy, invalidate_token,
  issue_admin_reset_token, link_deadline, new_admin_reset_token, new_reset_policy,
  token_is_consumed, token_is_invalidated,
}
use cert_me.Prelude.Int.{add64, pos, sub64, wrap64, ◌+ℤ◌, ◌-ℤ◌}
use cert_me.Prelude.Star.{done, more}
use cert_me.Prelude.Text.{bytes, text_eq, text_eq_iff}
use cert_me.Service.{append_account_audit}
use cert_me.Service.Identity.Login.{admission, count_attempt, login_verified}
use cert_me.Service.Identity.Resets.{
  CompleteResetCalls, ResetOutcome, auth_error_from_policy, begin_reset_row, begin_reset_tx,
  build_reset_link_url, drop_slashes, invalid_reset_token, issue_link, store_reset,
}
use cert_me.Service.Identity.Resets.Closing.{complete_reset_closes_links}
use cert_me.Service.Identity.Resets.Complete.{
  commit_reset, complete_reset_tx, reject_reset, reset_account_row, reset_token_row,
}
use cert_me.Service.Identity.Resets.Effects.{WellKeyed}
use cert_me.Service.Identity.Resets.Race.{login_after_reset}
use cert_me.Service.Identity.Resets.Versions.{AccountStep, VersionsFit, accounts_left, reset_ended}
use cert_me.Store.{gave, if_present, or_absent, or_store_error}
use cert_me.Store.Accounts.{scope_is_valid}
use cert_me.Store.Memory.{
  MemoryState, account_named, by_index, index_of_others, invalidate_of_account, memory_accounts,
  memory_audit, memory_delete_all_sessions, memory_delete_session, memory_insert_account,
  memory_installation, memory_rate_limits, memory_save_account, memory_save_reset_token,
  memory_save_session, put_reset_token, put_session, request_keyed, row_of, save_versioned,
  sessions_of_others,
}
use cert_me.Store.Table.{find, pair_keyed, put, remove, text_keyed, update_all}
use cert_me.Values.Ids.{next, parse_uuid}
use cert_me.Values.Instant.{add, after, before, is_expired_at, is_positive, is_zero, unset}

abbrev complete_calls : CompleteResetCalls
complete_calls = record {
  canceled = false;
  hashed_token = gave hash_of_link;
  admission_now = at 2000;
  hashed_password = gave (record { encoded = bytes "new" });
  commit_admission_now = at 2000;
  now = at 2000;
  failure_now = at 2000;
  audit_uuid = id_b;
}

abbrev pending_account : Account
pending_account = record root_account { state = reset_pending; auth_epoch = pos 5; version = pos 2 }

abbrev link_row : AdminResetToken
link_row = record {
  id = id_c;
  account_id = id_a;
  token_hash = hash_of_link;
  auth_epoch = pos 5;
  issued_at = at 1000;
  expires_at = at 10_800_001_000;
  consumed_at = unset;
  invalidated_at = unset;
}

-- The rows that `begin_reset_tx` leaves, written out.
abbrev awaiting_reset : MemoryState
awaiting_reset = record empty_store {
  accounts = (id_a, pending_account) ∷ [];
  reset_tokens = (id_c, link_row) ∷ [];
  reset_tokens_by_hash = (bytes "0a", id_c) ∷ [];
}

abbrev password_set : MemoryState
password_set = left_by (
    complete_reset_tx memory_accounts memory_audit memory_rate_limits [] [] complete_calls true
      (record { encoded = bytes "new" }) hash_of_link awaiting_reset)

password_was_set :
    complete_reset_tx memory_accounts memory_audit memory_rate_limits [] [] complete_calls true
      (record { encoded = bytes "new" })
      hash_of_link
      awaiting_reset
    ≡ gave (ResetOutcome.completed, password_set)
unfolding complete_reset_tx admission require_pre_auth_admission if_present memory_accounts by_index
    find text_eq reset_token_row row_of reset_account_row consume_token can_consume_token
    token_is_consumed is_zero token_is_invalidated is_expired_at complete_reset admit_lookup
    count_failure current_window_start decimal_digits format_int instant_from_time
    rate_limited_error record_pre_auth_failure save_counter save_failure window_offset
    classify_store_error is_store_fault new_app_error store_error with_public_field wrap_app_error
    rem invalidate_token next_epoch add64 sub64 wrap64 ◌+ℤ◌ ◌-ℤ◌ count_attempt
    auth_error_from_policy commit_reset invalid_reset_token reject_reset store_reset
    append_account_audit account_named index_of_others invalidate_of_account
    memory_delete_all_sessions memory_delete_session memory_insert_account memory_save_account
    memory_save_reset_token memory_save_session put_reset_token put_session save_versioned
    sessions_of_others put remove update_all or_store_error next add before memory_audit
    scope_is_valid
password_was_set = refl

pending_keyed : WellKeyed awaiting_reset
unfolding find
pending_keyed id a held = ground (arith, text_eq_iff id_a id)

link_found :
    memory_accounts.get_reset_token hash_of_link awaiting_reset ≡ gave (link_row, awaiting_reset)
unfolding memory_accounts by_index find text_eq
link_found = refl

abbrev used_row : AdminResetToken
used_row = record link_row { consumed_at = at 2000 }

used_link_found :
    memory_accounts.get_reset_token hash_of_link password_set ≡ gave (used_row, password_set)
unfolding memory_accounts by_index find complete_reset_tx admission require_pre_auth_admission
    if_present text_eq reset_token_row row_of reset_account_row consume_token can_consume_token
    token_is_consumed is_zero token_is_invalidated is_expired_at complete_reset admit_lookup
    count_failure current_window_start decimal_digits format_int instant_from_time
    rate_limited_error record_pre_auth_failure save_counter save_failure window_offset
    classify_store_error is_store_fault new_app_error store_error with_public_field wrap_app_error
    rem invalidate_token next_epoch add64 sub64 wrap64 ◌+ℤ◌ ◌-ℤ◌ count_attempt
    auth_error_from_policy commit_reset invalid_reset_token reject_reset store_reset
    append_account_audit account_named index_of_others invalidate_of_account
    memory_delete_all_sessions memory_delete_session memory_insert_account memory_save_account
    memory_save_reset_token memory_save_session put_reset_token put_session save_versioned
    sessions_of_others put remove update_all or_store_error next add before memory_audit
    scope_is_valid
used_link_found = refl

complete_reset_closes_links_example : ¬ (
    complete_reset_tx memory_accounts memory_audit memory_rate_limits [] [] complete_calls true
      (record { encoded = bytes "newer" })
      hash_of_link
      password_set
    ≡ gave (ResetOutcome.completed, password_set))
complete_reset_closes_links_example =
    complete_reset_closes_links memory_rate_limits [] [] complete_calls true
      (record { encoded = bytes "new" }) hash_of_link link_row awaiting_reset password_set
      pending_keyed link_found password_was_set [] [] complete_calls true
      (record { encoded = bytes "newer" }) hash_of_link used_row password_set used_link_found refl

one_account-VersionsFit : VersionsFit one_account
unfolding find
one_account-VersionsFit id a held = ground (arith, text_eq_iff id_a id)

pending-VersionsFit : VersionsFit awaiting_reset
unfolding find
pending-VersionsFit id a held = ground (arith, text_eq_iff id_a id)

-- What `begin_reset_tx` leaves has the accounts of `awaiting_reset`.
same_accounts : AccountStep memory_rate_limits reset_issued awaiting_reset
unfolding begin_reset_tx begin_reset_row issue_link store_reset build_reset_link_url drop_slashes
    default_reset_policy begin_reset memory_accounts memory_installation memory_audit or_store_error
    or_absent row_of append_account_audit find put put_reset_token memory_save_account
    memory_delete_all_sessions save_versioned sessions_of_others index_of_others update_all text_eq
    new_reset_policy is_positive parse_uuid issue_admin_reset_token new_admin_reset_token is_zero
    link_deadline add add64 wrap64 ◌+ℤ◌ after scope_is_valid next_epoch next
same_accounts = accounts_left refl

reset_done : AccountStep memory_rate_limits awaiting_reset password_set
reset_done =
    reset_ended [] [] complete_calls true (record { encoded = bytes "new" }) hash_of_link
      pending-VersionsFit password_was_set

root_held : find id_a one_account.accounts ≡ some root_account
unfolding find text_eq
root_held = refl

login_after_reset_example : ¬ (
    login_verified memory_accounts memory_audit memory_rate_limits []
      (bytes "root")
      []
      login_calls
      (some root_account)
      true
      password_set
    ≡ (gave root_view, logged_in))
login_after_reset_example =
    login_after_reset memory_rate_limits [] (bytes "root") [] login_calls root_account true id_a []
      begin_calls (bytes "raw") hash_of_link reset_link root_view one_account one_account
      reset_issued password_set logged_in rows_keyed root_held done one_account-VersionsFit
      link_issued (more same_accounts (more reset_done done))
