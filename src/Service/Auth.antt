-- ===== src/Service/Auth.antt =====
-- internal/app/service/auth.go: the check inside a transaction that a session is still good. The clock
-- is read once the rows are locked, and `now` is what it gives then.
use cert_me.Prelude.{not}
use cert_me.App.{Fault, auth_kind, domain_fault, new_app_error, wrap_app_error}
use cert_me.Errors.{Check, Failure, err, ok, policy, wrapped}
use cert_me.Identity.{AuthEpoch}
use cert_me.Identity.Resetting.{facts_of}
use cert_me.Identity.Session.{validate_at}
use cert_me.Prelude.Int.{eq_ℤ}
use cert_me.Prelude.Text.{Text}
use cert_me.Service.Callers.{Principal, admin, anonymous, internal}
use cert_me.Store.{Tx, gave, give, or_absent, refuse_if, refused, ◌>>=◌, ◌>>◌}
use cert_me.Store.Accounts.{AccountRepository}
use cert_me.Values.Instant.{Duration, Instant, hours}

-- `SessionIdleTimeout`
abbrev pub session_idle_timeout : Duration
session_idle_timeout = hours 1

-- `authError`
unfoldable pub auth_error : Failure → Fault
auth_error (policy base code fields) =
    wrap_app_error auth_kind code (domain_fault (policy base code fields))
auth_error (wrapped base) = wrap_app_error auth_kind "session_invalid" (domain_fault (wrapped base))

-- `if err != nil { return authError(err) }`
abbrev pub or_auth_error : {S : Type 0} → Check → Tx S (Unit {0})
or_auth_error (ok a) s = gave (tt, s)
or_auth_error (err e) s = refused (auth_error e)

module _ {S : Type 0} (accounts : AccountRepository S) where
  -- The part of `requireCurrentAuth` for an administrator.
  unfoldable pub require_live_session : Text → Text → AuthEpoch → Instant → Tx S (Unit {0})
  require_live_session account_id session_id epoch now = do
    account ←
        or_absent (accounts.get_account_for_update account_id)
          (new_app_error auth_kind "account_not_found") "account_read_failed"
    refuse_if (not (eq_ℤ account.auth_epoch epoch))
        (new_app_error auth_kind "auth_epoch_superseded")
    session ←
        or_absent (accounts.get_session_for_update session_id)
          (new_app_error auth_kind "session_not_found") "session_read_failed"
    or_auth_error (validate_at session now session_idle_timeout (facts_of account))

  -- `requireCurrentAuth`
  unfoldable pub require_current_auth : Principal → Instant → Tx S (Unit {0})
  require_current_auth anonymous now = give tt
  require_current_auth (internal operations) now = give tt
  require_current_auth (admin account session epoch) now =
      require_live_session account session epoch now
