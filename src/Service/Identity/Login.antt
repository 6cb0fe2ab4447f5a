-- ===== src/Service/Identity/Login.antt =====
-- internal/app/service/identity.go, `Login`, and `lockAccountByLoginName` and `loginSubjects` of
-- internal/app/service/preauth.go.
pub mod Checks
use cert_me.Prelude.{
  Bool, List, Option, [], false, if◌then◌else◌, inl, inr, none, some, true, ◌&&◌, ◌∷◌,
}
use cert_me.App.{store_error}
use cert_me.App.Throttle.{
  RateLimits, ThrottleSubject, login_account, login_ip, record_pre_auth_failure,
  require_pre_auth_admission,
}
use cert_me.Identity.{Account, can_login, normalize_login_name}
use cert_me.Identity.Session.{SessionState}
use cert_me.Prelude.Text.{Text}
use cert_me.Service.{append_account_audit, request_canceled}
use cert_me.Service.Identity.{
  LoginCalls, LoginView, Prepared, hash_to_verify, invalid_credentials, is_as_prepared, session_of,
}
use cert_me.Store.{
  Reply, Tx, from_domain, gave, give, if_present, or_store_error, read, refused, write, ◌>>=◌, ◌>>◌,
}
use cert_me.Store.Accounts.{AccountRepository, AuditRepository, by_account}
use cert_me.Values.Hex.{TokenHash}
use cert_me.Values.Instant.{Instant, add, hours}
use cert_me.Values.Keys.{new_fingerprint}

-- `loginSubjects`: the hashes of the name and of the address.
unfoldable pub login_subjects : (Text → Text) → Text → Text → List ThrottleSubject
login_subjects sha256_hex name client_ip =
    record { limit_kind = login_account; hash = new_fingerprint sha256_hex name }
    ∷ record { limit_kind = login_ip; hash = new_fingerprint sha256_hex client_ip }
    ∷ []

-- What the transaction of `Login` leaves to return: a view, or a rejection whose counter is committed.
pub data LoginOutcome : Type 0 where
  accepted : LoginView → LoginOutcome
  rejected : LoginOutcome

-- The tokens of an attempt: minted only for an account whose password was right.
pub record Minted : Type 0 where
  pub session_token : Text
  pub session_hash : TokenHash
  pub csrf_token : Text
  pub csrf_hash : TokenHash

abbrev pub zero_hash : TokenHash
zero_hash = record { fingerprint = record { hex = [] } }

unfoldable pub mint : LoginCalls → Prepared → Bool → Reply Minted
mint calls none verified = gave (record {
  session_token = [];
  session_hash = zero_hash;
  csrf_token = [];
  csrf_hash = zero_hash;
})
mint calls (some account) false = gave (record {
  session_token = [];
  session_hash = zero_hash;
  csrf_token = [];
  csrf_hash = zero_hash;
})
mint calls (some account) true = elim calls.session_token [
  | refused e ↦ refused (store_error e "identity_session_token_failed")
  | gave (token, hash) ↦ elim calls.csrf_token [
    | refused e ↦ refused (store_error e "identity_csrf_token_failed")
    | gave (csrf, csrf_hash) ↦ gave (record {
      session_token = token;
      session_hash = hash;
      csrf_token = csrf;
      csrf_hash = csrf_hash;
    })
  ]
]

-- `requirePreAuthAdmission` and `recordPreAuthFailure` inside of a transaction.
unfoldable pub admission :
    {S : Type 0} → RateLimits S → List ThrottleSubject → Instant → Tx S (Unit {0})
admission limits subjects now s = elim (require_pre_auth_admission limits s subjects now) [
  | none ↦ gave (tt, s)
  | some e ↦ refused e
]

unfoldable pub count_attempt :
    {S : Type 0} → RateLimits S → List ThrottleSubject → Instant → Tx S (Unit {0})
count_attempt limits subjects now s = elim (record_pre_auth_failure limits s subjects now) [
  | inl t ↦ gave (tt, t)
  | inr e ↦ refused e
]

unfoldable pub login_view : Account → SessionState → Minted → Instant → LoginView
login_view account session minted now = record {
  account = account;
  idle_expires_at = add now (hours 1);
  absolute_expires_at = session.absolute_expires_at;
  session_token = minted.session_token;
  csrf_token = minted.csrf_token;
}

-- What a committed outcome returns.
unfoldable pub login_result : {S : Type 0} → Reply LoginOutcome × S → Reply LoginView × S
login_result (gave (accepted view), t) = (gave view, t)
login_result (gave rejected, t) = (refused invalid_credentials, t)
login_result (refused e, t) = (refused e, t)

module _ {S : Type 0} (accounts : AccountRepository S) (audit : AuditRepository S)
    (limits : RateLimits S) where
  -- `lockAccountByLoginName`, which gives no account for a name that is not known.
  unfoldable pub lock_found : Option Account → Tx S (Option Account)
  lock_found none = give none
  lock_found (some found) =
      if_present (accounts.get_account_for_update found.id) "account_read_failed"

  unfoldable pub lock_account_by_login_name : Text → Tx S (Option Account)
  lock_account_by_login_name name = do
    found ← if_present (accounts.find_account_by_login_name name) "account_lookup_failed"
    lock_found found

  -- The commit for an account that is as the password was checked against.
  unfoldable pub start_session : Text → LoginCalls → Minted → Account → Tx S LoginOutcome
  start_session client_ip calls minted account = do
    from_domain (can_login account)
    session ← from_domain (
        session_of account minted.session_hash minted.csrf_hash calls.session_uuid calls.locked_now)
    or_store_error (accounts.insert_session session) "identity_session_store_failed"
    append_account_audit audit calls.audit_uuid calls.locked_now client_ip by_account account.id
        "identity.login" "account" account.id
    give (accepted (login_view account session minted calls.locked_now))

  -- The commit of an attempt that failed: the counter is kept.
  unfoldable pub reject_login : List ThrottleSubject → LoginCalls → Tx S LoginOutcome
  reject_login subjects calls = do count_attempt limits subjects calls.failure_now; give rejected

  unfoldable pub login_locked :
      List ThrottleSubject
      → Text
      → LoginCalls
      → Minted
      → Prepared
      → Bool
      → Option Account
      → Tx S LoginOutcome
  login_locked subjects client_ip calls minted facts verified none = reject_login subjects calls
  login_locked subjects client_ip calls minted facts verified (some account) =
      if is_as_prepared account facts && verified
      then start_session client_ip calls minted account
      else reject_login subjects calls

  -- `Login`: the transaction.
  unfoldable pub login_tx :
      List ThrottleSubject → Text → Text → LoginCalls → Minted → Prepared → Bool → Tx S LoginOutcome
  login_tx subjects name client_ip calls minted facts verified = do
    admission limits subjects calls.commit_admission_now
    account ← lock_account_by_login_name name
    login_locked subjects client_ip calls minted facts verified account

  -- `resolveLoginAttempt`
  unfoldable pub resolve_login_attempt : Text → S → Reply Prepared
  resolve_login_attempt name =
      read (
        if_present (accounts.find_account_by_login_name name)
          "identity_login_account_lookup_failed")

  -- `Login` from the answer of the hasher on. Between the reads before it and its transaction other
  -- requests may commit, so the state of the transaction is one of its own.
  unfoldable pub login_verified :
      List ThrottleSubject → Text → Text → LoginCalls → Prepared → Bool → S → Reply LoginView × S
  login_verified subjects name client_ip calls facts verified s = elim (mint calls facts verified) [
    | refused e ↦ (refused e, s)
    | gave minted ↦
        login_result (write (login_tx subjects name client_ip calls minted facts verified) s)
  ]

  -- `Login` of a command that `Validate` accepts: `early` is the state that it reads, `s` the one that
  -- its transaction finds.
  unfoldable pub login : (Text → Text) → Text → Text → LoginCalls → S → S → Reply LoginView × S
  login sha256_hex login_name client_ip calls early s =
      let name = normalize_login_name login_name in
      let subjects = login_subjects sha256_hex name client_ip in
      if calls.canceled
      then (refused request_canceled, s)
      else elim (read (admission limits subjects calls.admission_now) early) [
        | refused e ↦ (refused e, s)
        | gave _ ↦ elim (resolve_login_attempt name early) [
          | refused e ↦ (refused e, s)
          | gave facts ↦ elim (calls.verify (hash_to_verify facts)) [
            | refused e ↦ (refused (store_error e "identity_password_verify_failed"), s)
            | gave verified ↦ login_verified subjects name client_ip calls facts verified s
          ]
        ]
      ]
