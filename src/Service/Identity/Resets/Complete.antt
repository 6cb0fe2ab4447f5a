-- ===== src/Service/Identity/Resets/Complete.antt =====
-- internal/app/service/identity.go: `CompleteReset` in the stores of its transaction.
use cert_me.Prelude.{Bool, List, Option, false, if◌then◌else◌, is_some, none, some, true}
use cert_me.App.{Fault, store_error}
use cert_me.App.Throttle.{RateLimits, ThrottleSubject}
use cert_me.Errors.{err, ok}
use cert_me.Identity.{Account, AccountResetOutcome, PasswordHash, complete_reset}
use cert_me.Identity.ResetToken.{AdminResetToken, consume_token}
use cert_me.Identity.Resetting.{facts_of}
use cert_me.Prelude.Text.{Text}
use cert_me.Service.{append_account_audit, request_canceled}
use cert_me.Service.Identity.Login.{admission, count_attempt}
use cert_me.Service.Identity.Resets.{
  CompleteResetCalls, ResetOutcome, auth_error_from_policy, completed, hash_new_password,
  invalid_reset_token, reset_rejected, reset_result, store_reset, subjects_of,
}
use cert_me.Store.{
  Reply, Tx, gave, give, if_present, or_store_error, read, refused, write, ◌>>=◌, ◌>>◌,
}
use cert_me.Store.Accounts.{AccountRepository, AuditRepository, by_account}
use cert_me.Values.Hex.{TokenHash}
use cert_me.Values.Ids.{Version}

module _ {S : Type 0} (accounts : AccountRepository S) (audit : AuditRepository S) where
  module _ (limits : RateLimits S) where
    -- `rejectReset` and `rejectResetWithCause`
    unfoldable pub reject_reset :
        List ThrottleSubject → CompleteResetCalls → Fault → Tx S ResetOutcome
    reject_reset subjects calls why = do
      count_attempt limits subjects calls.failure_now
      give (reset_rejected why)

    -- The commit of a token and an account that both accept the reset.
    unfoldable pub commit_reset :
        Text
        → CompleteResetCalls
        → Version
        → AdminResetToken
        → AccountResetOutcome
        → Tx S ResetOutcome
    commit_reset client_ip calls read_version consumed outcome = do
      or_store_error (accounts.save_reset_token consumed) "identity_reset_token_save_failed"
      store_reset accounts audit outcome read_version calls.now
      append_account_audit audit calls.audit_uuid calls.now client_ip by_account outcome.account.id
          "identity.complete_reset" "account" outcome.account.id
      give completed

    unfoldable pub reset_account_row :
        List ThrottleSubject
        → Text
        → CompleteResetCalls
        → PasswordHash
        → AdminResetToken
        → Option Account
        → Tx S ResetOutcome
    reset_account_row subjects client_ip calls new_hash token none =
        reject_reset subjects calls invalid_reset_token
    reset_account_row subjects client_ip calls new_hash token (some account) =
        elim (consume_token token calls.now (facts_of account)) [
          | err e ↦ reject_reset subjects calls (auth_error_from_policy e)
          | ok consumed ↦ elim (complete_reset account new_hash) [
            | err e ↦ reject_reset subjects calls (auth_error_from_policy e)
            | ok outcome ↦ commit_reset client_ip calls account.version consumed outcome
          ]
        ]

    unfoldable pub reset_token_row :
        List ThrottleSubject
        → Text
        → CompleteResetCalls
        → Bool
        → PasswordHash
        → Option AdminResetToken
        → Tx S ResetOutcome
    reset_token_row subjects client_ip calls known new_hash none =
        reject_reset subjects calls invalid_reset_token
    reset_token_row subjects client_ip calls false new_hash (some token) =
        reject_reset subjects calls invalid_reset_token
    reset_token_row subjects client_ip calls true new_hash (some token) = do
      account ←
          if_present (accounts.get_account_for_update token.account_id)
            "identity_reset_account_read_failed"
      reset_account_row subjects client_ip calls new_hash token account

    -- `CompleteReset`: the transaction.
    unfoldable pub complete_reset_tx :
        List ThrottleSubject
        → Text
        → CompleteResetCalls
        → Bool
        → PasswordHash
        → TokenHash
        → Tx S ResetOutcome
    complete_reset_tx subjects client_ip calls known new_hash hash = do
      admission limits subjects calls.commit_admission_now
      token ← if_present (accounts.get_reset_token hash) "identity_reset_token_read_failed"
      reset_token_row subjects client_ip calls known new_hash token

    -- `CompleteReset` from the reads before its transaction on; `early` is the state that they see.
    unfoldable pub reset_with_token :
        (Text → Text)
        → Text
        → CompleteResetCalls
        → TokenHash
        → Option AdminResetToken
        → S
        → S
        → Reply (Unit {0}) × S
    reset_with_token sha256_hex client_ip calls hash early_token early s =
        let subjects = subjects_of sha256_hex early_token client_ip in
        elim (read (admission limits subjects calls.admission_now) early) [
          | refused e ↦ (refused e, s)
          | gave _ ↦ elim (hash_new_password (is_some early_token) calls.hashed_password) [
            | refused e ↦ (refused e, s)
            | gave new_hash ↦ reset_result (
                write
                  (complete_reset_tx subjects client_ip calls (is_some early_token) new_hash hash)
                  s)
          ]
        ]

    -- `CompleteReset` of a command that `Validate` accepts.
    unfoldable pub set_new_password :
        (Text → Text) → Text → CompleteResetCalls → S → S → Reply (Unit {0}) × S
    set_new_password sha256_hex client_ip calls early s =
        if calls.canceled then (refused request_canceled, s) else elim calls.hashed_token [
          | refused e ↦ (refused (store_error e "identity_reset_token_hash_failed"), s)
          | gave hash ↦
              elim (read
                (if_present (accounts.get_reset_token hash) "identity_reset_token_lookup_failed")
                early) [
                  | refused e ↦ (refused e, s)
                  | gave early_token ↦
                      reset_with_token sha256_hex client_ip calls hash early_token early s
                ]
        ]
