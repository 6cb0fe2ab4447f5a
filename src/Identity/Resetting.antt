-- ===== src/Identity/Resetting.antt =====
-- internal/domain/identity.go: the account's epoch along `BeginReset` and `CompleteReset`, against the checks
-- of sessions and reset links.
use cert_me.Prelude.{
  Bool, [], arith, false, if◌then◌else◌, some, true, ◌-◌, ◌<◌, ◌^◌, ◌∷◌, ◌≡◌, ◌≤◌, ◌⊎◌,
}
use cert_me.Errors.{
  already_consumed, err, expired, invalid_transition, is_ok, ok, policy, unwrap_error,
}
use cert_me.Identity.{
  Account, PasswordHash, begin_reset, can_login, can_login_in, complete_reset, is_disabled,
  next_epoch, password_hash_is_zero, reset_pending,
}
use cert_me.Identity.ResetToken.{
  AdminResetToken, ResetPolicy, can_consume_token, consume_token, invalidate_token,
  issue_admin_reset_token, link_deadline, new_admin_reset_token, token_is_consumed,
  token_is_invalidated,
}
use cert_me.Identity.Session.{AccountFacts, SessionState, validate_at}
use cert_me.Prelude.Int.{
  +ℤ_parts, add64_lem, apart, eq_ℤ, eq_ℤ_iff, neg_part, pos, pos_part, ℤ, ◌+ℤ◌, ◌<ℤ◌,
}
use cert_me.Prelude.Star.{Star, Star-keeps}
use cert_me.Prelude.Text.{Text, text_eq_refl}
use cert_me.Values.Hex.{TokenHash}
use cert_me.Values.Instant.{Duration, Instant, is_expired_at, is_zero}

-- An `int64` that is not the greatest one.
abbrev pub HasRoom : ℤ → Type 0
HasRoom e = (neg_part e ≤ 2 ^ 63) × (pos_part e < 2 ^ 63 - 1)

-- One call that writes an account whose epoch has not reached the last `int64`.
pub data Step (a : Account) (b : Account) : Type 0 where
  begun :
      (sessions : Bool)
      → HasRoom a.auth_epoch
      → begin_reset a ≡ ok (record { account = b; sessions_invalidated = sessions })
      → Step a b
  finished :
      (hash : PasswordHash) (sessions : Bool)
      → HasRoom a.auth_epoch
      → complete_reset a hash ≡ ok (record { account = b; sessions_invalidated = sessions })
      → Step a b

next_epoch-eq : (e : ℤ) → HasRoom e → next_epoch e ≡ e +ℤ pos 1
unfolding next_epoch
next_epoch-eq e h = add64_lem e (pos 1) (omega (arith, +ℤ_parts e (pos 1), one_part e))
  where
    one_part : (e : ℤ) → (pos_part (e +ℤ pos 1) ≡ 0) ⊎ (neg_part (e +ℤ pos 1) ≡ 0)
    one_part e = apart (e +ℤ pos 1)

next_epoch-lt : (e : ℤ) → HasRoom e → e <ℤ next_epoch e
next_epoch-lt e h = rw (next_epoch-eq e h) (omega (arith, +ℤ_parts e (pos 1)))

step-epoch : (a b : Account) → Step a b → (a.auth_epoch <ℤ b.auth_epoch) × (b.id ≡ a.id)
unfolding begin_reset complete_reset
step-epoch a b (begun sessions l h) = ground (arith, next_epoch-lt a.auth_epoch l)
step-epoch a b (finished hash sessions l h) = ground (arith, next_epoch-lt a.auth_epoch l)

-- The account and its epoch, as a session or a link is checked against them.
abbrev pub facts_of : Account → AccountFacts
facts_of a = record { account_id = a.id; state = a.state; auth_epoch = a.auth_epoch }

-- Past an epoch.
abbrev Past : ℤ → Account → Type 0
Past e a = e <ℤ a.auth_epoch

Past-every_step : (e : ℤ) (a b : Account) → Step a b → Past e a → Past e b
Past-every_step e a b st p = ground (arith, (step-epoch a b st).0)

module _ (a b c : Account) (first : Step a b) (rest : Star Step b c) where
  superseded : a.auth_epoch <ℤ c.auth_epoch
  superseded =
      Star-keeps (Past a.auth_epoch) (Past-every_step a.auth_epoch) rest (step-epoch a b first).0

  -- After a reset was begun or completed, every session and every reset link that was issued under
  -- the account's epoch before it is refused for good, whatever resets follow, as long as no epoch that
  -- is counted up has reached the last int64.
  pub old_credentials_refused :
      (s : SessionState) (t : AdminResetToken) (now : Instant) (idle : Duration)
      → s.auth_epoch ≡ a.auth_epoch
      → t.auth_epoch ≡ a.auth_epoch
      → (is_ok (validate_at s now idle (facts_of c)) ≡ false)
        × (is_ok (can_consume_token t now (facts_of c)) ≡ false)
  unfolding validate_at can_consume_token
  old_credentials_refused s t now idle es et =
      let differs : eq_ℤ c.auth_epoch a.auth_epoch ≡ false = ground (arith, superseded) in
      (ground arith, ground arith)

-- A reset that was begun shuts login out until it is completed; completing it needs a hash and opens
-- login again. Both drop the sessions, and a disabled account does neither.
pub reset_round :
    (a b c : Account) (hash : PasswordHash) (sessions sessions' : Bool)
    → begin_reset a ≡ ok (record { account = b; sessions_invalidated = sessions })
    → complete_reset b hash ≡ ok (record { account = c; sessions_invalidated = sessions' })
    → (is_ok (can_login b) ≡ false)
      × (can_login c ≡ ok tt)
      × (c.password_hash ≡ hash)
      × (password_hash_is_zero hash ≡ false)
      × (sessions ≡ true)
      × (sessions' ≡ true)
      × (is_disabled a.state ≡ false)
unfolding begin_reset complete_reset can_login can_login_in
reset_round a b c hash sessions sessions' h k = (
  ground arith,
  ground arith,
  ground arith,
  ground arith,
  ground arith,
  ground arith,
  ground arith,
)

-- A link that was consumed at a time that is set is spent: it can be neither consumed nor
-- invalidated again, for any account.
pub consume_token_once :
    (t u : AdminResetToken) (now later : Instant) (account other_account : AccountFacts)
    → is_zero now ≡ false
    → consume_token t now account ≡ ok u
    → (unwrap_error (can_consume_token u later other_account) ≡ some already_consumed)
      × (unwrap_error (invalidate_token u later) ≡ some invalid_transition)
unfolding consume_token invalidate_token can_consume_token token_is_consumed
consume_token_once t u now later account other_account set h = ground arith

-- A link that was issued by `IssueAdminResetToken` serves the account that is pending under the same
-- epoch exactly before its deadline.
pub issued_token_lem :
    (id account_id : Text) (hash : TokenHash) (epoch : ℤ) (now later : Instant) (p : ResetPolicy)
    (t : AdminResetToken)
    → issue_admin_reset_token id account_id hash epoch now p ≡ ok t
    → can_consume_token t later
        (record { account_id = account_id; state = reset_pending; auth_epoch = epoch })
      ≡ (if is_expired_at (link_deadline p now) later
          then err (policy expired "reset_token_expired" (("reset_token_id", id) ∷ []))
          else ok tt)
unfolding issue_admin_reset_token new_admin_reset_token can_consume_token token_is_consumed
    token_is_invalidated is_zero
issued_token_lem id account_id hash epoch now later p t h =
    ground (arith, text_eq_refl account_id, eq_ℤ_iff epoch epoch)
