-- ===== src/Identity.antt =====
-- internal/domain/identity.go: administrator accounts (`Account`). Sessions and reset tokens are in
-- the children `Session` and `ResetToken`.
pub mod Session
pub mod ResetToken
pub mod Resetting
pub mod Sessions
use cert_me.Prelude.{Bool, false, if◌then◌else◌, leb, map, not, true, ℕ, ◌&&◌, ◌+◌}
use cert_me.Errors.{
  Check, Result, err, invalid_transition, invalid_value, not_permitted, ok, policy_error, reject_if,
  with_field, ◌>>=◌, ◌>>◌,
}
use cert_me.Prelude.Int.{add64, ltb_ℤ, pos, ℤ}
use cert_me.Prelude.Text.{Text, is_empty, text_eq, trim_space}
use cert_me.Values.Ids.{Version, check_id, next}

abbrev pub AuthEpoch : Type 0
AuthEpoch = ℤ

unfoldable pub parse_auth_epoch : ℤ → Result AuthEpoch
parse_auth_epoch raw = do
  reject_if (ltb_ℤ raw (pos 0)) (policy_error invalid_value "invalid_auth_epoch")
  ok raw

-- `AuthEpoch.Next`
unfoldable pub next_epoch : AuthEpoch → AuthEpoch
next_epoch e = add64 e (pos 1)

pub data AccountState : Type 0 where
  active_account reset_pending disabled : AccountState
  unlisted : Text → AccountState

unfoldable pub validate_account_state : AccountState → Check
validate_account_state (AccountState.unlisted s) =
    err (with_field "state" s (policy_error invalid_value "invalid_account_state"))
validate_account_state active_account = ok tt
validate_account_state _ = ok tt

abbrev pub is_active : AccountState → Bool
is_active active_account = true
is_active _ = false

abbrev pub is_reset_pending : AccountState → Bool
is_reset_pending reset_pending = true
is_reset_pending _ = false

abbrev pub is_disabled : AccountState → Bool
is_disabled disabled = true
is_disabled _ = false

-- `PasswordHash`: the encoded hash.
pub record PasswordHash : Type 0 where
  pub encoded : Text

unfoldable pub new_password_hash : Text → Result PasswordHash
new_password_hash encoded = do
  reject_if (is_empty (trim_space encoded)) (policy_error invalid_value "invalid_password_hash")
  ok (record { encoded = encoded })

abbrev pub password_hash_is_zero : PasswordHash → Bool
password_hash_is_zero h = is_empty h.encoded

-- The body of the loop of `NormalizeLoginName`: `'a' - 'A'` is 32, and the sum is at most `'z'`.
unfoldable pub lower_byte : ℕ → ℕ
lower_byte c = if leb b'A' c && leb c b'Z' then c + 32 else c

unfoldable pub normalize_login_name : Text → Text
unfolding lower_byte
normalize_login_name raw = map lower_byte raw

-- `Account`, and `AccountFacts` with the same fields.
pub record Account : Type 0 where
  pub id : Text
  pub normalized_login_name : Text
  pub password_hash : PasswordHash
  pub state : AccountState
  pub auth_epoch : AuthEpoch
  pub is_global_admin : Bool
  pub version : Version

unfoldable pub new_account : Account → Result Account
new_account facts = do
  check_id facts.id
  reject_if (is_empty (trim_space facts.normalized_login_name))
      (policy_error invalid_value "invalid_login_name")
  reject_if
      (not (text_eq facts.normalized_login_name (normalize_login_name facts.normalized_login_name)))
      (policy_error invalid_value "login_name_not_normalized")
  reject_if (password_hash_is_zero facts.password_hash)
      (policy_error invalid_value "invalid_password_hash")
  validate_account_state facts.state
  ok facts

-- `CanLogin`, by the state.
unfoldable pub can_login_in : Text → AccountState → Check
can_login_in id active_account = ok tt
can_login_in id reset_pending =
    err (with_field "account_id" id (policy_error not_permitted "account_reset_pending"))
can_login_in id disabled =
    err (with_field "account_id" id (policy_error not_permitted "account_disabled"))
can_login_in id (AccountState.unlisted _) = err (policy_error invalid_value "invalid_account_state")

unfoldable pub can_login : Account → Check
can_login a = can_login_in a.id a.state

pub record AccountResetOutcome : Type 0 where
  pub account : Account
  pub sessions_invalidated : Bool

unfoldable pub begin_reset : Account → Result AccountResetOutcome
begin_reset a = do
  reject_if (is_disabled a.state)
      (with_field "account_id" a.id (policy_error invalid_transition "account_disabled"))
  ok (record {
    account = record a {
      state = reset_pending;
      auth_epoch = next_epoch a.auth_epoch;
      version = next a.version;
    };
    sessions_invalidated = true;
  })

unfoldable pub complete_reset : Account → PasswordHash → Result AccountResetOutcome
complete_reset a hash = do
  reject_if (not (is_reset_pending a.state))
      (with_field "account_id" a.id (policy_error invalid_transition "account_not_reset_pending"))
  reject_if (password_hash_is_zero hash) (policy_error invalid_value "invalid_password_hash")
  ok (record {
    account = record a {
      state = active_account;
      password_hash = hash;
      auth_epoch = next_epoch a.auth_epoch;
      version = next a.version;
    };
    sessions_invalidated = true;
  })
