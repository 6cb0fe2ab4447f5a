-- ===== src/Service/Identity/Resets/Race.antt =====
-- internal/app/service/identity.go over the store in memory: resets that commit between the two steps
-- of a `Login`.
use cert_me.Prelude.{Bool, List, ap, arith, some, sym, ◌∙◌, ◌≡◌}
use cert_me.App.Throttle.{RateLimits, ThrottleSubject}
use cert_me.Identity.{Account}
use cert_me.Identity.Session.{SessionState}
use cert_me.Prelude.Int.{eq_ℤ_iff, ◌<ℤ◌}
use cert_me.Prelude.Star.{Star}
use cert_me.Prelude.Text.{Text, text_eq_iff}
use cert_me.Service.Identity.{LoginCalls, LoginView, is_as_prepared}
use cert_me.Service.Identity.Login.{login_verified}
use cert_me.Service.Identity.Login.Checks.{Started, login_checked}
use cert_me.Service.Identity.Resets.{BeginResetCalls, ResetLinkView, begin_reset_tx}
use cert_me.Service.Identity.Resets.Effects.{WellKeyed, begin_reset_tx_lem}
use cert_me.Service.Identity.Resets.Guards.{account_after}
use cert_me.Service.Identity.Resets.Versions.{
  AccountStep, VersionsFit, begun-Grows, next-lt, run-Grows,
}
use cert_me.Store.{gave}
use cert_me.Store.Memory.{
  MemoryState, memory_accounts, memory_audit, memory_installation, request_keyed,
}
use cert_me.Store.Table.{find, pair_keyed, text_keyed}
use cert_me.Values.Hex.{TokenHash}
use cert_me.Values.Instant.{before}

moved_on :
    (name : Text) (calls : LoginCalls) (account_id : Text) (prepared_row b c : Account)
    (x : SessionState) (u v : MemoryState)
    → WellKeyed u
    → prepared_row.id ≡ account_id
    → find account_id u.accounts ≡ some c
    → prepared_row.version <ℤ c.version
    → ¬ Started name calls (some prepared_row) b x u v
unfolding is_as_prepared
moved_on name calls account_id prepared_row b c x u v keyed key held later begun_session =
    let (found, named, held_b) = begun_session.locked_account in
    let key_b : b.id ≡ found.id = keyed found.id b held_b in
    let same_id : b.id ≡ prepared_row.id =
      ground (arith, begun_session.unmoved, text_eq_iff b.id prepared_row.id) in
    let same_version : b.version ≡ prepared_row.version =
      ground (arith, begun_session.unmoved, eq_ℤ_iff b.version prepared_row.version) in
    let here : some c ≡ some b =
      sym held ∙ ap (λ k. find k u.accounts) (sym key ∙ sym same_id ∙ key_b) ∙ held_b in
    ground arith

-- Let a `Login` have read an account in a store that keeps accounts under their own ids, and checked
-- its password. If a `BeginReset` of that account commits before the transaction of the `Login`, then
-- the login gives no session, whatever the password: also if any number of resets of accounts have
-- begun and have been completed before and after that `BeginReset`, the account's own included, and
-- anything has happened that leaves the accounts. No account's version has reached the last int64
-- where a reset begins or is completed.
pub login_after_reset :
    (limits : RateLimits MemoryState) (subjects : List ThrottleSubject) (name client_ip : Text)
    (calls : LoginCalls) (prepared_row : Account) (verified : Bool) (account_id cli_ip : Text)
    (reset_calls : BeginResetCalls) (raw : Text) (hash : TokenHash) (link : ResetLinkView)
    (view : LoginView) (s r t u v : MemoryState)
    → WellKeyed s
    → find account_id s.accounts ≡ some prepared_row
    → Star (AccountStep limits) s r
    → VersionsFit r
    → begin_reset_tx memory_accounts memory_audit memory_installation account_id cli_ip reset_calls
        raw hash r
      ≡ gave (link, t)
    → Star (AccountStep limits) t u
    → ¬ (
        login_verified memory_accounts memory_audit limits subjects name client_ip calls
          (some prepared_row)
          verified
          u
        ≡ (gave view, v))
login_after_reset limits subjects name client_ip calls prepared_row verified account_id cli_ip
      reset_calls raw hash link view s r t u v keyed read_row before fit reset after_reset entered =
    let (keyed_r, grown) = run-Grows limits s r before keyed in
    let (b, held_b, up) = grown account_id prepared_row read_row in
    let (a, found, left) =
      begin_reset_tx_lem account_id cli_ip reset_calls raw hash link r t reset in
    let (keyed_t, grown_t) = begun-Grows account_id a r t keyed_r fit found left in
    let key : a.id ≡ account_id = keyed_r account_id a found in
    let held_t = ap (λ k. find k t.accounts) (sym key) ∙ account_after a r t left in
    let (keyed_u, grown_u) = run-Grows limits t u after_reset keyed_t in
    let (c, held_c, further) = grown_u account_id _ held_t in
    let stepped = next-lt a.version (fit account_id a found) in
    let same : some a ≡ some b = sym found ∙ held_b in
    let (right, (d, x, begun_session)) =
      login_checked limits subjects name client_ip calls (some prepared_row) verified view u v
        entered in
    moved_on name calls account_id prepared_row d c x u v keyed_u
      (keyed account_id prepared_row read_row) held_c (ground arith) begun_session
