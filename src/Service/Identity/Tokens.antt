-- ===== src/Service/Identity/Tokens.antt =====
-- internal/app/service/identity.go: `Authenticate`, `Logout` and `IssueCSRF`.
use cert_me.Prelude.{Bool, Option, [], if◌then◌else◌, length, ltb, none, not, some, ◌||◌}
use cert_me.App.{Fault, app_fault, auth_kind, forbidden_kind, new_app_error, no_fault, store_error}
use cert_me.Identity.{Account}
use cert_me.Identity.Resetting.{facts_of}
use cert_me.Identity.Session.{touch, validate_at, with_csrf_secret_hash}
use cert_me.Prelude.Text.{Text}
use cert_me.Service.{Authorizer, RequestMeta, append_account_audit, authorize, request_canceled}
use cert_me.Service.Auth.{or_auth_error, require_current_auth, session_idle_timeout}
use cert_me.Service.Callers.{
  Principal, is_admin, new_admin_principal, principal_account, principal_session,
}
use cert_me.Store.{
  Reply, Tx, from_domain, gave, give, given, or_absent, or_store_error, refused, write, ◌>>=◌, ◌>>◌,
}
use cert_me.Store.Accounts.{AccountRepository, AuditRepository, by_account}
use cert_me.Values.Hex.{TokenHash}
use cert_me.Values.Instant.{Instant, add, hours}

-- What the ports gave to a run: the hash of the presented token, a fresh token, and the times.
pub record TokenCalls : Type 0 where
  pub canceled : Bool
  pub hashed : Reply TokenHash
  pub fresh : Reply (Text × TokenHash)
  pub auth_now : Instant
  pub now : Instant
  pub audit_uuid : Text

-- `AuthenticateResult`
pub record AuthenticateResult : Type 0 where
  pub principal : Principal
  pub account : Account
  pub idle_expires_at : Instant
  pub absolute_expires_at : Instant

-- `IdentityAuthenticateCommand.Validate` on the length of a token.
unfoldable pub validate_session_token : Text → Option Fault
validate_session_token token =
    if ltb (length token) 32 || ltb 256 (length token)
    then some (new_app_error auth_kind "invalid_session_token")
    else none

abbrev pub session_missing : Fault
session_missing = app_fault auth_kind "session_not_found" [] no_fault

module _ {S : Type 0} (accounts : AccountRepository S) (audit : AuditRepository S) where
  -- `Authenticate`: the transaction.
  unfoldable pub authenticate_tx : TokenCalls → Tx S AuthenticateResult
  authenticate_tx calls = do
    hash ← or_store_error (given calls.hashed) "identity_session_token_hash_failed"
    found ←
        or_absent (accounts.find_session_by_hash hash) session_missing
          "identity_session_lookup_failed"
    locked ←
        or_absent (accounts.get_session_for_update found.id) session_missing
          "identity_session_lookup_failed"
    account ←
        or_absent (accounts.get_account_for_update locked.account_id)
          (new_app_error auth_kind "account_not_found") "identity_account_read_failed"
    or_auth_error (validate_at locked calls.now session_idle_timeout (facts_of account))
    or_store_error (accounts.save_session (touch locked calls.now)) "identity_session_touch_failed"
    principal ← from_domain (new_admin_principal account.id locked.id account.auth_epoch)
    give (record {
      principal = principal;
      account = account;
      idle_expires_at = add calls.now (hours 1);
      absolute_expires_at = locked.absolute_expires_at;
    })

  unfoldable pub authenticate : Text → TokenCalls → S → Reply AuthenticateResult × S
  authenticate token calls s = elim (validate_session_token token) [
    | some e ↦ (refused e, s)
    | none ↦ write (authenticate_tx calls) s
  ]

  -- `Logout`
  unfoldable pub logout_tx : Authorizer → RequestMeta → TokenCalls → Tx S (Unit {0})
  logout_tx authorizer meta calls = do
    require_current_auth accounts meta.principal calls.auth_now
    authorize authorizer meta.principal "Identity.Logout" []
    or_store_error (accounts.delete_session (principal_session meta.principal))
        "identity_logout_session_delete_failed"
    append_account_audit audit calls.audit_uuid calls.now meta.client_ip by_account
        (principal_account meta.principal) "identity.logout" "account"
        (principal_account meta.principal)

  unfoldable pub logout : Authorizer → RequestMeta → TokenCalls → S → Reply (Unit {0}) × S
  logout authorizer meta calls s =
      if not (is_admin meta.principal)
      then (refused (new_app_error forbidden_kind "identity_logout_requires_admin"), s)
      else if calls.canceled
      then (refused request_canceled, s)
      else write (logout_tx authorizer meta calls) s

  -- `IssueCSRF`: the transaction for an administrator.
  unfoldable pub issue_csrf_tx : RequestMeta → TokenCalls → TokenHash → Tx S (Unit {0})
  issue_csrf_tx meta calls hash = do
    require_current_auth accounts meta.principal calls.auth_now
    session ←
        or_store_error (accounts.get_session_for_update (principal_session meta.principal))
          "identity_session_read_failed"
    fresh_session ← from_domain (with_csrf_secret_hash session hash)
    or_store_error (accounts.save_session fresh_session) "identity_csrf_store_failed"

  unfoldable pub issue_csrf : RequestMeta → TokenCalls → S → Reply Text × S
  issue_csrf meta calls s = elim calls.fresh [
    | refused e ↦ (refused (store_error e "identity_csrf_token_failed"), s)
    | gave (raw, hash) ↦
        if not (is_admin meta.principal)
        then (gave raw, s)
        else write (do issue_csrf_tx meta calls hash; give raw) s
  ]
