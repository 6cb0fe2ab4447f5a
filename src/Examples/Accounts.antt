-- ===== src/Examples/Accounts.antt =====
-- internal/domain/identity.go at concrete inputs.
use cert_me.Identity.Resetting
use cert_me.Prelude.{String, arith, false, refl, true, ◌↔◌, ◌≡◌}
use cert_me.Errors.{is_ok, ok}
use cert_me.Examples.Samples.{at, id_a, id_b, id_c}
use cert_me.Identity.{
  Account, PasswordHash, active_account, begin_reset, complete_reset, next_epoch, reset_pending,
}
use cert_me.Identity.ResetToken.{AdminResetToken, can_consume_token}
use cert_me.Identity.Resetting.{facts_of, old_credentials_refused}
use cert_me.Identity.Session.{SessionState, validate_at}
use cert_me.Identity.Sessions.{IsLive, validate_at_iff}
use cert_me.Prelude.Int.{add64, pos, wrap64, ◌+ℤ◌}
use cert_me.Prelude.Star.{done, more}
use cert_me.Prelude.Text.{bytes}
use cert_me.Values.Hex.{TokenHash}
use cert_me.Values.Ids.{next}
use cert_me.Values.Instant.{hours, unset}

abbrev hash_of : String → PasswordHash
hash_of s = record { encoded = bytes s }

abbrev admin : Account
admin = record {
  id = id_a;
  normalized_login_name = bytes "root";
  password_hash = hash_of "old";
  state = active_account;
  auth_epoch = pos 4;
  is_global_admin = true;
  version = pos 1;
}

abbrev resetting : Account
resetting = record admin { state = reset_pending; auth_epoch = pos 5; version = pos 2 }

abbrev restored : Account
restored = record resetting {
  password_hash = hash_of "new";
  state = active_account;
  auth_epoch = pos 6;
  version = pos 3;
}

reset_begun : begin_reset admin ≡ ok (record { account = resetting; sessions_invalidated = true })
unfolding begin_reset next_epoch next add64 wrap64 ◌+ℤ◌
reset_begun = refl

reset_done :
    complete_reset resetting (hash_of "new")
    ≡ ok (record { account = restored; sessions_invalidated = true })
unfolding complete_reset next_epoch next add64 wrap64 ◌+ℤ◌
reset_done = refl

abbrev token : TokenHash
token = record { fingerprint = record { hex = bytes "00" } }

abbrev session : SessionState
session = record {
  id = id_b;
  account_id = id_a;
  token_hash = token;
  csrf_secret_hash = token;
  auth_epoch = pos 4;
  last_seen_at = at 100;
  absolute_expires_at = at 10_000_000_000;
}

abbrev reset_link : AdminResetToken
reset_link = record {
  id = id_c;
  account_id = id_a;
  token_hash = token;
  auth_epoch = pos 4;
  issued_at = at 100;
  expires_at = at 10_000_000_000;
  consumed_at = unset;
  invalidated_at = unset;
}

old_credentials_refused_example :
    (is_ok (validate_at session (at 200) (hours 1) (facts_of restored)) ≡ false)
    × (is_ok (can_consume_token reset_link (at 200) (facts_of restored)) ≡ false)
old_credentials_refused_example =
    old_credentials_refused admin resetting restored
      (Resetting.begun true (ground arith, ground arith) reset_begun)
      (more (Resetting.finished (hash_of "new") true (ground arith, ground arith) reset_done) done)
      session reset_link (at 200) (hours 1) refl refl

validate_at_iff_example :
    (validate_at session (at 200) (hours 1) (facts_of admin) ≡ ok tt)
    ↔ IsLive session (at 200) (hours 1) (facts_of admin)
validate_at_iff_example = validate_at_iff session (at 200) (hours 1) (facts_of admin)
