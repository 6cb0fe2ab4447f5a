-- ===== src/Identity/ResetToken.antt =====
-- internal/domain/identity.go: the one-time password reset link (`AdminResetToken`, `ResetPolicy`).
use cert_me.Prelude.{Bool, if◌then◌else◌, not, ◌||◌}
use cert_me.Errors.{
  Check, Result, already_consumed, conflict, expired, invalid_transition, invalid_value,
  not_permitted, ok, policy_error, reject_if, with_field, ◌>>◌,
}
use cert_me.Identity.{AuthEpoch, is_reset_pending}
use cert_me.Identity.Session.{AccountFacts}
use cert_me.Prelude.Int.{eq_ℤ}
use cert_me.Prelude.Text.{Text, text_eq}
use cert_me.Values.Hex.{TokenHash, token_hash_is_zero}
use cert_me.Values.Ids.{check_id}
use cert_me.Values.Instant.{
  Duration, Instant, add, after, hours, is_expired_at, is_positive, is_zero, unset,
}

pub record ResetPolicy : Type 0 where
  pub link_validity : Duration

unfoldable pub new_reset_policy : Duration → Result ResetPolicy
new_reset_policy link_validity = do
  reject_if (not (is_positive link_validity))
      (policy_error invalid_value "invalid_reset_link_validity")
  ok (record { link_validity = link_validity })

-- `DefaultResetPolicy`; a failure would be the panic of the source.
unfoldable pub default_reset_policy : Result ResetPolicy
default_reset_policy = new_reset_policy (hours 3)

-- `ResetPolicy.ExpiresAt`
unfoldable pub link_deadline : ResetPolicy → Instant → Instant
link_deadline p issued_at = add issued_at p.link_validity

-- `AdminResetToken`, and `AdminResetTokenFacts` with the same fields.
pub record AdminResetToken : Type 0 where
  pub id : Text
  pub account_id : Text
  pub token_hash : TokenHash
  pub auth_epoch : AuthEpoch
  pub issued_at : Instant
  pub expires_at : Instant
  pub consumed_at : Instant
  pub invalidated_at : Instant

unfoldable pub new_admin_reset_token : AdminResetToken → Result AdminResetToken
new_admin_reset_token facts = do
  check_id facts.id
  check_id facts.account_id
  reject_if (token_hash_is_zero facts.token_hash)
      (policy_error invalid_value "invalid_reset_token_hash")
  reject_if (is_zero facts.issued_at) (policy_error invalid_value "invalid_reset_token_issued_at")
  reject_if (is_zero facts.expires_at || not (after facts.expires_at facts.issued_at))
      (policy_error invalid_value "invalid_reset_token_expiry")
  ok facts

unfoldable pub issue_admin_reset_token :
    Text → Text → TokenHash → AuthEpoch → Instant → ResetPolicy → Result AdminResetToken
issue_admin_reset_token id account_id token_hash auth_epoch now reset_policy =
    new_admin_reset_token (record {
      id = id;
      account_id = account_id;
      token_hash = token_hash;
      auth_epoch = auth_epoch;
      issued_at = now;
      expires_at = link_deadline reset_policy now;
      consumed_at = unset;
      invalidated_at = unset;
    })

unfoldable pub token_is_consumed : AdminResetToken → Bool
token_is_consumed t = not (is_zero t.consumed_at)

unfoldable pub token_is_invalidated : AdminResetToken → Bool
token_is_invalidated t = not (is_zero t.invalidated_at)

-- `CanConsume`
unfoldable pub can_consume_token : AdminResetToken → Instant → AccountFacts → Check
can_consume_token t now account = do
  reject_if (token_is_consumed t)
      (with_field "reset_token_id" t.id (policy_error already_consumed "reset_token_consumed"))
  reject_if (token_is_invalidated t)
      (with_field "reset_token_id" t.id (policy_error not_permitted "reset_token_invalidated"))
  reject_if (is_expired_at t.expires_at now)
      (with_field "reset_token_id" t.id (policy_error expired "reset_token_expired"))
  reject_if (not (text_eq account.account_id t.account_id))
      (with_field "reset_token_id" t.id (policy_error conflict "reset_token_account_mismatch"))
  reject_if (not (eq_ℤ account.auth_epoch t.auth_epoch))
      (with_field "reset_token_id" t.id (policy_error conflict "reset_token_epoch_mismatch"))
  reject_if (not (is_reset_pending account.state)) (
      with_field "account_id" account.account_id
        (policy_error not_permitted "account_not_reset_pending"))

-- `Consume`
unfoldable pub consume_token : AdminResetToken → Instant → AccountFacts → Result AdminResetToken
consume_token t now account = do
  can_consume_token t now account
  ok (record t { consumed_at = now })

-- `Invalidate`
unfoldable pub invalidate_token : AdminResetToken → Instant → Result AdminResetToken
invalidate_token t now = do
  reject_if (token_is_consumed t)
      (with_field "reset_token_id" t.id (policy_error invalid_transition "reset_token_consumed"))
  ok (if token_is_invalidated t then t else record t { invalidated_at = now })
