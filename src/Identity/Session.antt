-- ===== src/Identity/Session.antt =====
-- internal/domain/identity.go: server-side sessions (`SessionState`) and their lifetimes
-- (`SessionPolicy`).
use cert_me.Prelude.{not}
use cert_me.Errors.{
  Check, Result, conflict, expired, invalid_value, not_permitted, ok, policy_error, reject_if,
  with_field, ◌>>◌,
}
use cert_me.Identity.{AccountState, AuthEpoch, is_active}
use cert_me.Prelude.Int.{eq_ℤ}
use cert_me.Prelude.Text.{Text, text_eq}
use cert_me.Values.Hex.{TokenHash, token_hash_is_zero}
use cert_me.Values.Ids.{check_id}
use cert_me.Values.Instant.{
  Duration, Instant, add, before, hours, is_expired_at, is_positive, is_zero,
}

-- `SessionState`, and `SessionStateFacts` with the same fields.
pub record SessionState : Type 0 where
  pub id : Text
  pub account_id : Text
  pub token_hash : TokenHash
  pub csrf_secret_hash : TokenHash
  pub auth_epoch : AuthEpoch
  pub last_seen_at : Instant
  pub absolute_expires_at : Instant

unfoldable pub new_session_state : SessionState → Result SessionState
new_session_state facts = do
  check_id facts.id
  check_id facts.account_id
  reject_if (token_hash_is_zero facts.token_hash)
      (policy_error invalid_value "invalid_session_token_hash")
  reject_if (is_zero facts.last_seen_at) (policy_error invalid_value "invalid_session_last_seen")
  reject_if (is_zero facts.absolute_expires_at)
      (policy_error invalid_value "invalid_session_absolute_expiry")
  reject_if (before facts.absolute_expires_at facts.last_seen_at)
      (policy_error invalid_value "invalid_session_absolute_expiry")
  ok facts

unfoldable pub with_csrf_secret_hash : SessionState → TokenHash → Result SessionState
with_csrf_secret_hash s hash = do
  reject_if (token_hash_is_zero hash) (policy_error invalid_value "invalid_session_csrf_hash")
  ok (record s { csrf_secret_hash = hash })

-- `SessionAccountFacts`, and `ResetTokenAccountFacts` with the same fields.
pub record AccountFacts : Type 0 where
  pub account_id : Text
  pub state : AccountState
  pub auth_epoch : AuthEpoch

-- `ValidateAt`
unfoldable pub validate_at : SessionState → Instant → Duration → AccountFacts → Check
validate_at s now idle_timeout account = do
  reject_if (not (text_eq account.account_id s.account_id))
      (with_field "session_id" s.id (policy_error conflict "session_account_mismatch"))
  reject_if (not (is_active account.state))
      (with_field "account_id" s.account_id (policy_error not_permitted "account_not_active"))
  reject_if (not (eq_ℤ account.auth_epoch s.auth_epoch))
      (with_field "session_id" s.id (policy_error conflict "session_epoch_mismatch"))
  reject_if (is_expired_at (add s.last_seen_at idle_timeout) now)
      (with_field "session_id" s.id (policy_error expired "session_idle_expired"))
  reject_if (is_expired_at s.absolute_expires_at now)
      (with_field "session_id" s.id (policy_error expired "session_absolute_expired"))

unfoldable pub touch : SessionState → Instant → SessionState
touch s now = record s { last_seen_at = now }

pub record SessionPolicy : Type 0 where
  pub idle_timeout : Duration
  pub absolute_lifetime : Duration

unfoldable pub new_session_policy : Duration → Duration → Result SessionPolicy
new_session_policy idle_timeout absolute_lifetime = do
  reject_if (not (is_positive idle_timeout))
      (policy_error invalid_value "invalid_session_idle_timeout")
  reject_if (not (is_positive absolute_lifetime))
      (policy_error invalid_value "invalid_session_absolute_lifetime")
  ok (record { idle_timeout = idle_timeout; absolute_lifetime = absolute_lifetime })

-- `DefaultSessionPolicy`; a failure would be the panic of the source.
unfoldable pub default_session_policy : Result SessionPolicy
default_session_policy = new_session_policy (hours 1) (hours 24)

-- `AbsoluteExpiresAt`
unfoldable pub session_deadline : SessionPolicy → Instant → Instant
session_deadline p login_at = add login_at p.absolute_lifetime
