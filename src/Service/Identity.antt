-- ===== src/Service/Identity.antt =====
-- internal/app/service/identity.go: logging in and out, the check of a session token and the reset of a
-- password. `preauth.go` counts failed attempts. What the clock, the hasher, the codec of tokens and
-- the generator of ids gave is an argument; a token that is closed unused leaves no trace.
pub mod Login
pub mod Tokens
pub mod Resets
use cert_me.Prelude.{Bool, Option, none, some, true, ◌&&◌}
use cert_me.App.{Fault, auth_kind, new_app_error}
use cert_me.Errors.{Result, ◌>>=◌, ◌>>◌}
use cert_me.Identity.{Account, PasswordHash, active_account, new_account, normalize_login_name}
use cert_me.Identity.Session.{
  SessionState, default_session_policy, new_session_state, session_deadline,
}
use cert_me.Prelude.Int.{eq_ℤ, pos}
use cert_me.Prelude.Text.{Text, bytes, is_empty, text_eq}
use cert_me.Store.{Reply}
use cert_me.Values.Hex.{TokenHash}
use cert_me.Values.Ids.{check_id}
use cert_me.Values.Instant.{Instant}

-- What the ports gave to a run of `Login`: the two checks of the counters and the commit read the
-- clock each on their own.
pub record LoginCalls : Type 0 where
  pub canceled : Bool
  pub admission_now : Instant
  pub verify : PasswordHash → Reply Bool
  pub session_token : Reply (Text × TokenHash)
  pub csrf_token : Reply (Text × TokenHash)
  pub commit_admission_now : Instant
  pub locked_now : Instant
  pub failure_now : Instant
  pub session_uuid : Text
  pub audit_uuid : Text

pub record LoginView : Type 0 where
  pub account : Account
  pub idle_expires_at : Instant
  pub absolute_expires_at : Instant
  pub session_token : Text
  pub csrf_token : Text

-- `invalidCredentialsError`
unfoldable pub invalid_credentials : Fault
invalid_credentials = new_app_error auth_kind "invalid_credentials"

-- `dummyPasswordHash`
abbrev pub dummy_password_hash : PasswordHash
dummy_password_hash = record {
  encoded =
      bytes
        "$argon2id$v=19$m=65536,t=3,p=1$AAAAAAAAAAAAAAAAAAAAAA$AAAAAAAAAAAAAAAAAAAAAAAAAAAAAAAAAAAAAAAAAAA";
}

-- `loginAttemptFacts`; `none` is an account that was not found.
abbrev pub Prepared : Type 0
Prepared = Option Account

abbrev pub hash_to_verify : Prepared → PasswordHash
hash_to_verify none = dummy_password_hash
hash_to_verify (some account) = account.password_hash

-- `account.ID() == facts.accountID && account.Version() == facts.preparedVersion`
unfoldable pub is_as_prepared : Account → Prepared → Bool
is_as_prepared account none = is_empty account.id && eq_ℤ account.version (pos 0)
is_as_prepared account (some facts) =
    text_eq account.id facts.id && eq_ℤ account.version facts.version

-- The row that `Login` inserts.
unfoldable pub session_of : Account → TokenHash → TokenHash → Text → Instant → Result SessionState
session_of account session_hash csrf_hash uuid now = do
  check_id uuid
  p ← default_session_policy
  new_session_state (record {
    id = uuid;
    account_id = account.id;
    token_hash = session_hash;
    csrf_secret_hash = csrf_hash;
    auth_epoch = account.auth_epoch;
    last_seen_at = now;
    absolute_expires_at = session_deadline p now;
  })

-- The account that `CreateAdmin` of setup.go makes before its transaction.
unfoldable pub first_account : Text → Text → PasswordHash → Result Account
first_account uuid login_name hash = do
  check_id uuid
  new_account (record {
    id = uuid;
    normalized_login_name = normalize_login_name login_name;
    password_hash = hash;
    state = active_account;
    auth_epoch = pos 0;
    is_global_admin = true;
    version = pos 0;
  })
