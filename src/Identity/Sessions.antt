-- ===== src/Identity/Sessions.antt =====
-- internal/domain/identity.go: `ValidateAt` and `Touch` of a session, against the conditions one by one.
use cert_me.Prelude.{arith, ◌↔◌, ◌≡◌}
use cert_me.Errors.{ok}
use cert_me.Identity.{active_account}
use cert_me.Identity.Session.{AccountFacts, SessionState, touch, validate_at}
use cert_me.Prelude.Int.{InInt64, add64_lem, eq_ℤ_iff, ◌+ℤ◌, ◌<ℤ◌}
use cert_me.Prelude.Text.{text_eq_iff}
use cert_me.Values.Instant.{Duration, Instant, add, is_expired_at}

-- The conditions under which a session is honoured.
pub record IsLive (s : SessionState) (now : Instant) (idle : Duration) (account : AccountFacts)
    : Type 0 where
  pub owner : account.account_id ≡ s.account_id
  pub state : account.state ≡ active_account
  pub epoch : account.auth_epoch ≡ s.auth_epoch
  pub not_idle : now.micros <ℤ (add s.last_seen_at idle).micros
  pub not_over : now.micros <ℤ s.absolute_expires_at.micros

module _ (s : SessionState) (now : Instant) (idle : Duration) (account : AccountFacts) where
  validate_at-IsLive : validate_at s now idle account ≡ ok tt → IsLive s now idle account
  unfolding validate_at is_expired_at
  validate_at-IsLive h = record {
    owner = ground (arith, text_eq_iff account.account_id s.account_id);
    state = ground arith;
    epoch = ground (arith, eq_ℤ_iff account.auth_epoch s.auth_epoch);
    not_idle = ground arith;
    not_over = ground arith;
  }

  IsLive-validate_at : IsLive s now idle account → validate_at s now idle account ≡ ok tt
  unfolding validate_at is_expired_at
  IsLive-validate_at v =
      ground (
        arith,
        text_eq_iff account.account_id s.account_id,
        eq_ℤ_iff account.auth_epoch s.auth_epoch,
      )

-- `ValidateAt` returns no error exactly for a session of the account, of its epoch, with the account
-- active, before the idle deadline and before the absolute one.
pub validate_at_iff :
    (s : SessionState) (now : Instant) (idle : Duration) (account : AccountFacts)
    → (validate_at s now idle account ≡ ok tt) ↔ IsLive s now idle account
validate_at_iff s now idle account =
    (validate_at-IsLive s now idle account, IsLive-validate_at s now idle account)

-- A session seen at `seen` is valid until the idle timeout after that, as long as the sum fits an
-- `int64`, and never from the absolute deadline on, however often it is touched.
pub touch_lem :
    (s : SessionState) (seen now : Instant) (idle : Duration) (account : AccountFacts)
    → account.account_id ≡ s.account_id
    → account.state ≡ active_account
    → account.auth_epoch ≡ s.auth_epoch
    → InInt64 (seen.micros +ℤ idle.micros)
    → (validate_at (touch s seen) now idle account ≡ ok tt)
      ↔ ((now.micros <ℤ seen.micros +ℤ idle.micros) × (now.micros <ℤ s.absolute_expires_at.micros))
touch_lem s seen now idle account o st e fits = (
  λ h. let v = validate_at-IsLive (touch s seen) now idle account h in touched v,
  λ h. IsLive-validate_at (touch s seen) now idle account (live h),
)
  where
    deadline : (add seen idle).micros ≡ seen.micros +ℤ idle.micros
    deadline = unfold add in add64_lem seen.micros idle.micros fits

    touched :
        IsLive (touch s seen) now idle account
        → (now.micros <ℤ seen.micros +ℤ idle.micros) × (now.micros <ℤ s.absolute_expires_at.micros)
    touched v = unfold touch in (rw deadline at v.not_idle, v.not_over)

    live :
        (now.micros <ℤ seen.micros +ℤ idle.micros) × (now.micros <ℤ s.absolute_expires_at.micros)
        → IsLive (touch s seen) now idle account
    live h =
        unfold touch in
        record { owner = o; state = st; epoch = e; not_idle = rw deadline h.0; not_over = h.1 }
