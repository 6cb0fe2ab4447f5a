-- ===== src/Service/Identity/Resets/Guards.antt =====
-- internal/app/service/identity.go and auth.go over the store in memory: what a reset that has left
-- closes.
use cert_me.Prelude.{Option-cases, arith, if◌then◌else◌, inl, inr, some, subst, ◌≡◌}
use cert_me.Identity.{Account, AuthEpoch, next_epoch, reset_pending}
use cert_me.Identity.Session.{validate_at}
use cert_me.Prelude.Text.{Text, text_eq, text_eq_iff, text_eq_refl}
use cert_me.Service.Auth.{require_current_auth, require_live_session}
use cert_me.Service.Callers.{admin}
use cert_me.Service.Identity.Resets.{BeginResetCalls, ResetLinkView, begin_reset_tx}
use cert_me.Service.Identity.Resets.Effects.{ResetBegun, WellKeyed, begin_reset_tx_lem}
use cert_me.Store.{gave, or_absent}
use cert_me.Store.Memory.{
  MemoryState, memory_accounts, memory_audit, memory_installation, request_keyed, row_of,
}
use cert_me.Store.Memory.Sessions.{find-sessions_of_others}
use cert_me.Store.Table.{find, find-put, pair_keyed, text_keyed}
use cert_me.Values.Hex.{TokenHash}
use cert_me.Values.Ids.{next}
use cert_me.Values.Instant.{Instant}

-- What the rows of the accounts say once a reset of one has left.
pub account_at :
    (a : Account) (id : Text) (s t : MemoryState)
    → ResetBegun a s t
    → find id t.accounts ≡ (
        if text_eq a.id id
        then some (record a {
          state = reset_pending;
          auth_epoch = next_epoch a.auth_epoch;
          version = next a.version;
        })
        else find id s.accounts)
account_at a id s t left = rw left.accounts (
    find-put a.id id
      (record a {
        state = reset_pending;
        auth_epoch = next_epoch a.auth_epoch;
        version = next a.version;
      })
      s.accounts)

pub account_after :
    (a : Account) (s t : MemoryState)
    → ResetBegun a s t
    → find a.id t.accounts
      ≡ some (record a {
        state = reset_pending;
        auth_epoch = next_epoch a.auth_epoch;
        version = next a.version;
      })
account_after a s t left = ground (arith, account_at a a.id s t left, text_eq_refl a.id)

refused_after :
    (a : Account) (session_id : Text) (epoch : AuthEpoch) (now : Instant) (s t u : MemoryState)
    → ResetBegun a s t
    → ¬ (require_current_auth memory_accounts (admin a.id session_id epoch) now t ≡ gave (tt, u))
unfolding require_current_auth require_live_session memory_accounts or_absent row_of validate_at
refused_after a session_id epoch now s t u left h =
    let account = account_after a s t left in
    elim (Option-cases (find session_id t.sessions)) [
      | inl absent ↦ ground arith
      | inr (x, found) ↦
          let foreign =
            find-sessions_of_others a.id session_id s.sessions x (rw left.sessions at found) in
          ground (arith, text_eq_iff a.id x.account_id)
    ]

-- Once `BeginReset` of an account has committed, no session of it passes `requireCurrentAuth` any
-- more, whatever its id, its epoch and the time, in a store that keeps accounts under their own ids.
pub begin_reset_ends_sessions :
    (account_id client_ip : Text) (calls : BeginResetCalls) (raw : Text) (hash : TokenHash)
    (link : ResetLinkView) (s t : MemoryState)
    → WellKeyed s
    → begin_reset_tx memory_accounts memory_audit memory_installation account_id client_ip calls raw
        hash s
      ≡ gave (link, t)
    → (session_id : Text) (epoch : AuthEpoch) (now : Instant) (u : MemoryState)
    → ¬ (
        require_current_auth memory_accounts (admin account_id session_id epoch) now t
        ≡ gave (tt, u))
begin_reset_ends_sessions account_id client_ip calls raw hash link s t keyed h session_id epoch now
      u =
    let (a, found, left) = begin_reset_tx_lem account_id client_ip calls raw hash link s t h in
    subst
      (λ id.
        ¬ (require_current_auth memory_accounts (admin id session_id epoch) now t ≡ gave (tt, u)))
      (keyed account_id a found) (refused_after a session_id epoch now s t u left)
