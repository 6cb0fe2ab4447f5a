-- ===== src/Service/Identity/Resets/Effects.antt =====
-- internal/app/service/identity.go over the store in memory: what `BeginReset` leaves of the account
-- and of its sessions.
use cert_me.Prelude.{String, arith, some, subst, true, ◌≡◌}
use cert_me.App.{Fault}
use cert_me.Identity.{Account, AccountResetOutcome, begin_reset, next_epoch, reset_pending}
use cert_me.Prelude.Text.{Text}
use cert_me.Service.{append_account_audit}
use cert_me.Service.Identity.Resets.{
  BeginResetCalls, ResetLinkView, begin_reset_row, begin_reset_tx, issue_link, store_reset,
}
use cert_me.Store.{>>=-gave, Reply, from_domain, gave, given, or_absent, or_store_error}
use cert_me.Store.Accounts.{Settings}
use cert_me.Store.Memory.{
  MemoryState, memory_accounts, memory_audit, memory_delete_all_sessions, memory_installation,
  memory_save_account, put_reset_token, request_keyed, row_of, save_versioned, sessions_of_others,
}
use cert_me.Store.Table.{find, pair_keyed, put, text_keyed}
use cert_me.Values.Hex.{TokenHash}
use cert_me.Values.Ids.{Version, next}
use cert_me.Values.Instant.{Instant}

-- Every account is stored under its own id.
abbrev pub WellKeyed : MemoryState → Type 0
WellKeyed s = (id : Text) (a : Account) → find id s.accounts ≡ some a → a.id ≡ id

-- What a reset of the account `a` leaves.
pub record ResetBegun (a : Account) (s t : MemoryState) : Type 0 where
  pub accounts :
      t.accounts
      ≡ put a.id
          (record a {
            state = reset_pending;
            auth_epoch = next_epoch a.auth_epoch;
            version = next a.version;
          })
          s.accounts
  pub sessions : t.sessions ≡ sessions_of_others a.id s.sessions

pub store_reset_lem :
    (outcome : AccountResetOutcome) (v : Version) (now : Instant) (s t : MemoryState)
    → store_reset memory_accounts memory_audit outcome v now s ≡ gave (tt, t)
    → outcome.sessions_invalidated ≡ true
    → (t.accounts ≡ put outcome.account.id outcome.account s.accounts)
      × (t.sessions ≡ sessions_of_others outcome.account.id s.sessions)
unfolding store_reset memory_accounts memory_save_account save_versioned memory_delete_all_sessions
    or_store_error
store_reset_lem outcome v now s t h drop = ground arith

issue_link_lem :
    (client_ip : Text) (calls : BeginResetCalls) (raw : Text) (hash : TokenHash) (url : Text)
    (a : Account) (link : ResetLinkView) (s t : MemoryState)
    → issue_link memory_accounts memory_audit client_ip calls raw hash url a s ≡ gave (link, t)
    → (t.accounts ≡ s.accounts) × (t.sessions ≡ s.sessions)
unfolding issue_link memory_accounts memory_audit or_store_error append_account_audit
    put_reset_token
issue_link_lem client_ip calls raw hash url a link s t h = ground arith

begun_through :
    (client_ip : Text) (calls : BeginResetCalls) (raw : Text) (hash : TokenHash) (url : Text)
    (a : Account) (link : ResetLinkView) (outcome : AccountResetOutcome) (s s1 s2 t : MemoryState)
    → from_domain (begin_reset a) s ≡ gave (outcome, s1)
    → store_reset memory_accounts memory_audit outcome a.version calls.now s1 ≡ gave (tt, s2)
    → issue_link memory_accounts memory_audit client_ip calls raw hash url outcome.account s2
      ≡ gave (link, t)
    → ResetBegun a s t
unfolding begin_reset
begun_through client_ip calls raw hash url a link outcome s s1 s2 t began stored issued =
    let (accounts_kept, sessions_kept) =
      issue_link_lem client_ip calls raw hash url outcome.account link s2 t issued in
    record {
      accounts = ground (arith, store_reset_lem outcome a.version calls.now s1 s2);
      sessions = ground (arith, store_reset_lem outcome a.version calls.now s1 s2);
    }

begin_reset_row_lem :
    (client_ip : Text) (calls : BeginResetCalls) (raw : Text) (hash : TokenHash) (url : Text)
    (a : Account) (link : ResetLinkView) (s t : MemoryState)
    → begin_reset_row memory_accounts memory_audit client_ip calls raw hash url a s ≡ gave (link, t)
    → ResetBegun a s t
unfolding begin_reset_row
begin_reset_row_lem client_ip calls raw hash url a link s t h =
    let (outcome, s1, began, h1) = >>=-gave (from_domain (begin_reset a)) _ s t link h in
    let (done_store, s2, stored, issued) =
      >>=-gave (store_reset memory_accounts memory_audit outcome a.version calls.now) _ s1 t link
        h1 in
    begun_through client_ip calls raw hash url a link outcome s s1 s2 t began stored issued

found_through :
    (account_id : Text) (settings : Settings) (absent : Fault) (code : String) (a : Account)
    (s s1 s2 s3 : MemoryState) (answer : Reply Text) (url : Text)
    → or_absent memory_installation.get_settings absent code s ≡ gave (settings, s1)
    → given answer s1 ≡ gave (url, s2)
    → (other : Fault) (other_code : String)
    → or_absent (memory_accounts.get_account_for_update account_id) other other_code s2
      ≡ gave (a, s3)
    → (find account_id s.accounts ≡ some a) × (s3 ≡ s)
unfolding memory_installation memory_accounts or_absent row_of
found_through account_id settings absent code a s s1 s2 s3 answer url h1 h2 other other_code h3 =
    let first : s1 ≡ s = ground arith in
    let second : s2 ≡ s = ground arith in (ground arith, ground arith)

-- `BeginReset` finds the account under its id, and leaves it and its sessions as `ResetBegun` says.
pub begin_reset_tx_lem :
    (account_id client_ip : Text) (calls : BeginResetCalls) (raw : Text) (hash : TokenHash)
    (link : ResetLinkView) (s t : MemoryState)
    → begin_reset_tx memory_accounts memory_audit memory_installation account_id client_ip calls raw
        hash s
      ≡ gave (link, t)
    → (a : Account) × (find account_id s.accounts ≡ some a) × ResetBegun a s t
unfolding begin_reset_tx
begin_reset_tx_lem account_id client_ip calls raw hash link s t h =
    let (settings, s1, got_settings, h1) =
      >>=-gave (or_absent memory_installation.get_settings _ _) _ s t link h in
    let (url, s2, got_url, h2) = >>=-gave (given (calls.service_url settings)) _ s1 t link h1 in
    let (a, s3, got_account, h3) =
      >>=-gave (or_absent (memory_accounts.get_account_for_update account_id) _ _) _ s2 t link h2 in
    let (found, same) =
      found_through account_id settings _ _ a s s1 s2 s3 _ url got_settings got_url _ _
        got_account in
    (
      a,
      found,
      subst (λ u. ResetBegun a u t) same
          (begin_reset_row_lem client_ip calls raw hash url a link s3 t h3),
    )
