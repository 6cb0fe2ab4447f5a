-- ===== src/Service/Identity/Resets.antt =====
-- internal/app/service/identity.go: `BeginReset` and `CompleteReset`, and `resetSubjects` of
-- internal/app/service/preauth.go. `DecodeSettingsV1` parses JSON: what it made of the settings, the
-- service URL, is an argument.
pub mod Complete
pub mod Effects
pub mod Guards
pub mod Versions
pub mod Race
pub mod Rows
pub mod Closing
use cert_me.Prelude.{
  Bool, List, Option, [], false, if◌then◌else◌, none, not, some, true, ◌&&◌, ◌++◌, ◌==◌, ◌||◌, ◌∷◌,
}
use cert_me.App.{
  Fault, auth_kind, conflict_kind, domain_fault, forbidden_kind, new_app_error, store_error,
  validation_kind, with_public_field, wrap_app_error,
}
use cert_me.App.Throttle.{ThrottleSubject, reset_account, reset_ip}
use cert_me.Errors.{Failure, policy, wrapped}
use cert_me.Identity.{Account, AccountResetOutcome, PasswordHash, begin_reset}
use cert_me.Identity.ResetToken.{AdminResetToken, default_reset_policy, issue_admin_reset_token}
use cert_me.Prelude.Text.{Text, bytes, is_empty}
use cert_me.Service.{RequestMeta, append_account_audit, request_canceled}
use cert_me.Service.Callers.{can, is_internal, reset_begin}
use cert_me.Store.{
  Reply, Tx, from_domain, gave, give, given, or_absent, or_store_error, refused, when, write, ◌>>=◌,
  ◌>>◌,
}
use cert_me.Store.Accounts.{
  AccountRepository, AuditRepository, InstallationRepository, Settings, by_cli,
}
use cert_me.Values.Hex.{TokenHash}
use cert_me.Values.Ids.{Version, check_id}
use cert_me.Values.Instant.{Instant}
use cert_me.Values.Keys.{new_fingerprint}

-- What the ports gave to a run of `BeginReset`.
pub record BeginResetCalls : Type 0 where
  pub canceled : Bool
  pub minted : Reply (Text × TokenHash)
  pub service_url : Settings → Reply Text
  pub now : Instant
  pub token_uuid : Text
  pub audit_uuid : Text

-- What the ports gave to a run of `CompleteReset`.
pub record CompleteResetCalls : Type 0 where
  pub canceled : Bool
  pub hashed_token : Reply TokenHash
  pub admission_now : Instant
  pub hashed_password : Reply PasswordHash
  pub commit_admission_now : Instant
  pub now : Instant
  pub failure_now : Instant
  pub audit_uuid : Text

pub record ResetLinkView : Type 0 where
  pub url : Text
  pub expires_at : Instant
  pub token_id : Text
  pub account_id : Text

-- The loop of `buildResetLinkURL` that drops the slashes at the end.
unfoldable pub drop_slashes : Text → Text
drop_slashes [] = []
drop_slashes (c ∷ s) =
    let rest = drop_slashes s in if is_empty rest && c == b'/' then [] else c ∷ rest

-- `buildResetLinkURL`
unfoldable pub build_reset_link_url : Text → Text → Reply Text
build_reset_link_url service_url raw =
    let base = drop_slashes service_url in
    if is_empty base
    then refused (new_app_error conflict_kind "identity_reset_link_service_url_not_configured")
    else gave (base ++ (bytes "/reset-password/" ++ raw))

-- `resetSubjects` and `resetIPOnlySubject`
unfoldable pub reset_ip_only : (Text → Text) → Text → List ThrottleSubject
reset_ip_only sha256_hex client_ip =
    record { limit_kind = reset_ip; hash = new_fingerprint sha256_hex client_ip } ∷ []

unfoldable pub reset_subjects : (Text → Text) → Text → Text → List ThrottleSubject
reset_subjects sha256_hex account_id client_ip =
    record { limit_kind = reset_account; hash = new_fingerprint sha256_hex account_id }
    ∷ reset_ip_only sha256_hex client_ip

unfoldable pub subjects_of : (Text → Text) → Option AdminResetToken → Text → List ThrottleSubject
subjects_of sha256_hex none client_ip = reset_ip_only sha256_hex client_ip
subjects_of sha256_hex (some token) client_ip = reset_subjects sha256_hex token.account_id client_ip

-- `authErrorFromPolicy`
unfoldable pub auth_error_from_policy : Failure → Fault
auth_error_from_policy (policy base code fields) =
    wrap_app_error auth_kind code (domain_fault (policy base code fields))
auth_error_from_policy (wrapped base) =
    wrap_app_error auth_kind "reset_rejected" (domain_fault (wrapped base))

unfoldable pub invalid_reset_token : Fault
invalid_reset_token = new_app_error auth_kind "invalid_reset_token"

-- What the transaction of `CompleteReset` leaves to return.
pub data ResetOutcome : Type 0 where
  completed : ResetOutcome
  reset_rejected : Fault → ResetOutcome

unfoldable pub reset_result : {S : Type 0} → Reply ResetOutcome × S → Reply (Unit {0}) × S
reset_result (gave completed, t) = (gave tt, t)
reset_result (gave (reset_rejected e), t) = (refused e, t)
reset_result (refused e, t) = (refused e, t)

-- The new password is hashed only for a token that was found; otherwise the hash is the zero value.
unfoldable pub hash_new_password : Bool → Reply PasswordHash → Reply PasswordHash
hash_new_password false hashed = gave (record { encoded = [] })
hash_new_password true (gave hash) = gave hash
hash_new_password true (refused e) = refused (store_error e "identity_new_password_hash_failed")

module _ {S : Type 0} (accounts : AccountRepository S) (audit : AuditRepository S) where
  -- The rows of a reset: the account, its sessions, its outstanding links.
  unfoldable pub store_reset : AccountResetOutcome → Version → Instant → Tx S (Unit {0})
  store_reset outcome read_version now = do
    or_store_error (accounts.save_account outcome.account read_version)
        "identity_reset_account_save_failed"
    when outcome.sessions_invalidated (
        or_store_error (accounts.delete_all_sessions outcome.account.id)
          "identity_reset_sessions_invalidate_failed")
    or_store_error (accounts.invalidate_reset_tokens outcome.account.id now)
        "identity_reset_tokens_invalidate_failed"

  -- The rest of `BeginReset`: the new link, under the epoch that the reset has reached.
  unfoldable pub issue_link :
      Text → BeginResetCalls → Text → TokenHash → Text → Account → Tx S ResetLinkView
  issue_link client_ip calls raw hash service_url account = do
    reset_policy ← from_domain default_reset_policy
    from_domain (check_id calls.token_uuid)
    token ← from_domain (
        issue_admin_reset_token calls.token_uuid account.id hash account.auth_epoch calls.now
          reset_policy)
    or_store_error (accounts.insert_reset_token token) "identity_reset_token_store_failed"
    url ← given (build_reset_link_url service_url raw)
    append_account_audit audit calls.audit_uuid calls.now client_ip by_cli [] "identity.begin_reset"
        "account" account.id
    give (record {
      url = url;
      expires_at = token.expires_at;
      token_id = calls.token_uuid;
      account_id = account.id;
    })

  -- `BeginReset` for an account that was read.
  unfoldable pub begin_reset_row :
      Text → BeginResetCalls → Text → TokenHash → Text → Account → Tx S ResetLinkView
  begin_reset_row client_ip calls raw hash service_url account = do
    outcome ← from_domain (begin_reset account)
    store_reset outcome account.version calls.now
    issue_link client_ip calls raw hash service_url outcome.account

  -- `BeginReset`: the transaction.
  unfoldable pub begin_reset_tx :
      InstallationRepository S
      → Text
      → Text
      → BeginResetCalls
      → Text
      → TokenHash
      → Tx S ResetLinkView
  begin_reset_tx installations account_id client_ip calls raw hash = do
    settings ←
        or_absent installations.get_settings
          (new_app_error conflict_kind "identity_reset_link_service_url_not_configured")
          "identity_reset_settings_read_failed"
    service_url ← given (calls.service_url settings)
    account ←
        or_absent (accounts.get_account_for_update account_id)
          (with_public_field "account_id" account_id
            (new_app_error validation_kind "identity_reset_account_not_found"))
          "identity_reset_account_read_failed"
    begin_reset_row client_ip calls raw hash service_url account

  -- `BeginReset` of a command that `Validate` accepts.
  unfoldable pub issue_reset_link :
      InstallationRepository S → RequestMeta → Text → BeginResetCalls → S → Reply ResetLinkView × S
  issue_reset_link installations meta account_id calls s =
      if not (is_internal meta.principal) || not (can meta.principal reset_begin)
      then (
        refused (new_app_error forbidden_kind "identity_begin_reset_requires_internal_operation"),
        s,
      )
      else if calls.canceled
      then (refused request_canceled, s)
      else elim calls.minted [
        | refused e ↦ (refused (store_error e "identity_reset_token_mint_failed"), s)
        | gave (raw, hash) ↦
            write (begin_reset_tx installations account_id meta.client_ip calls raw hash) s
      ]
