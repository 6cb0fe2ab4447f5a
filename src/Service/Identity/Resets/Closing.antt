-- ===== src/Service/Identity/Resets/Closing.antt =====
-- internal/app/service/identity.go over the store in memory: what `CompleteReset` rests on and leaves.
-- What a run of `CompleteReset` that sets a password rests on and leaves: the account that the token
-- names waits for it, and comes back active under its next epoch, without sessions.
use cert_me.Prelude.{
  Bool, List, Option, ap, arith, false, inl, inr, none, refl, some, subst, sym, true, ◌∙◌, ◌≡◌,
}
use cert_me.App.{Fault}
use cert_me.App.Throttle.{RateLimits, ThrottleSubject}
use cert_me.Errors.{Result-cases, ok}
use cert_me.Identity.{
  Account, AccountResetOutcome, PasswordHash, active_account, complete_reset, next_epoch,
  reset_pending,
}
use cert_me.Identity.ResetToken.{AdminResetToken, consume_token}
use cert_me.Identity.Resetting.{facts_of}
use cert_me.Prelude.Text.{Text, text_eq_iff}
use cert_me.Service.{append_account_audit}
use cert_me.Service.Identity.Login.{admission}
use cert_me.Service.Identity.Login.Checks.{admission_lem}
use cert_me.Service.Identity.Resets.{
  CompleteResetCalls, auth_error_from_policy, completed, invalid_reset_token, store_reset,
}
use cert_me.Service.Identity.Resets.Complete.{
  commit_reset, complete_reset_tx, reject_reset, reset_account_row, reset_token_row,
}
use cert_me.Service.Identity.Resets.Effects.{WellKeyed, store_reset_lem}
use cert_me.Service.Identity.Resets.Rows.{account_read, audited_lem, token_read, token_saved_lem}
use cert_me.Store.{>>=-gave, gave, give_lem, if_present, or_store_error}
use cert_me.Store.Accounts.{by_account}
use cert_me.Store.Memory.{
  MemoryState, memory_accounts, memory_audit, request_keyed, sessions_of_others,
}
use cert_me.Store.Table.{find, find-put, pair_keyed, put, text_keyed}
use cert_me.Values.Hex.{TokenHash}
use cert_me.Values.Ids.{Version, next}

pub record ResetDone (account_id : Text) (new_hash : PasswordHash) (a : Account) (s t : MemoryState)
    : Type 0 where
  pub held : find account_id s.accounts ≡ some a
  pub waiting : a.state ≡ reset_pending
  pub accounts :
      t.accounts
      ≡ put a.id
          (record a {
            state = active_account;
            password_hash = new_hash;
            auth_epoch = next_epoch a.auth_epoch;
            version = next a.version;
          })
          s.accounts
  pub sessions : t.sessions ≡ sessions_of_others a.id s.sessions

complete_reset_lem :
    (a : Account) (new_hash : PasswordHash) (outcome : AccountResetOutcome)
    → complete_reset a new_hash ≡ ok outcome
    → (a.state ≡ reset_pending)
      × (outcome.account ≡ record a {
        state = active_account;
        password_hash = new_hash;
        auth_epoch = next_epoch a.auth_epoch;
        version = next a.version;
      })
      × (outcome.sessions_invalidated ≡ true)
unfolding complete_reset
complete_reset_lem a new_hash outcome h = (ground arith, ground arith, ground arith)

closed_link :
    (new_hash later_hash : PasswordHash) (account_id : Text) (a b : Account) (s t u : MemoryState)
    → WellKeyed s
    → ResetDone account_id new_hash a s t
    → ¬ ResetDone account_id later_hash b t u
closed_link new_hash later_hash account_id a b s t u keyed left reopened =
    let waits = reopened.waiting in
    let held : find account_id t.accounts ≡ some b = reopened.held in
    let key : a.id ≡ account_id = keyed account_id a left.held in
    let rows = left.accounts in
    ground (
      arith,
      find-put a.id account_id
          (record a {
            state = active_account;
            password_hash = new_hash;
            auth_epoch = next_epoch a.auth_epoch;
            version = next a.version;
          })
          s.accounts,
      text_eq_iff a.id account_id,
    )

module _ (limits : RateLimits MemoryState) where
  rejected_through :
      (subjects : List ThrottleSubject) (calls : CompleteResetCalls) (why : Fault)
      (s t : MemoryState)
      → ¬ (
          reject_reset memory_accounts memory_audit limits subjects calls why s
          ≡ gave (completed, t))
  unfolding reject_reset
  rejected_through subjects calls why s t h = ground arith

  committed_rows :
      (client_ip : Text) (calls : CompleteResetCalls) (v : Version) (consumed : AdminResetToken)
      (outcome : AccountResetOutcome) (s t : MemoryState)
      → outcome.sessions_invalidated ≡ true
      → commit_reset memory_accounts memory_audit limits client_ip calls v consumed outcome s
        ≡ gave (completed, t)
      → (t.accounts ≡ put outcome.account.id outcome.account s.accounts)
        × (t.sessions ≡ sessions_of_others outcome.account.id s.sessions)
  unfolding commit_reset
  committed_rows client_ip calls v consumed outcome s t drop h =
      let (u1, s1, saving, h1) =
        >>=-gave (or_store_error (memory_accounts.save_reset_token consumed) _) _ s t completed h in
      let (u2, s2, storing, h2) =
        >>=-gave (store_reset memory_accounts memory_audit outcome v calls.now) _ s1 t completed
          h1 in
      let (u3, s3, auditing, h3) =
        >>=-gave
          (append_account_audit memory_audit calls.audit_uuid calls.now client_ip by_account
            outcome.account.id "identity.complete_reset" "account" outcome.account.id)
          _ s2 t completed h2 in
      let (accounts1, sessions1) = token_saved_lem consumed _ s s1 saving in
      let (accounts2, sessions2) = store_reset_lem outcome v calls.now s1 s2 storing drop in
      let (accounts3, sessions3) = audited_lem _ _ _ _ _ _ _ _ s2 s3 auditing in
      let last = (give_lem completed completed s3 t h3).1 in
      (
        sym (ap (λ y. y.accounts) last)
            ∙ accounts3
            ∙ accounts2
            ∙ ap (put outcome.account.id outcome.account) accounts1,
        sym (ap (λ y. y.sessions) last)
            ∙ sessions3
            ∙ sessions2
            ∙ ap (sessions_of_others outcome.account.id) sessions1,
      )

  account_through :
      (subjects : List ThrottleSubject) (client_ip : Text) (calls : CompleteResetCalls)
      (new_hash : PasswordHash) (token : AdminResetToken) (a : Account) (s t : MemoryState)
      → reset_account_row memory_accounts memory_audit limits subjects client_ip calls new_hash
          token
          (some a)
          s
        ≡ gave (completed, t)
      → (consumed : AdminResetToken) × (outcome : AccountResetOutcome) × (complete_reset a new_hash
          ≡ ok outcome)
        × (commit_reset memory_accounts memory_audit limits client_ip calls a.version consumed
              outcome s
            ≡ gave (completed, t))
  unfolding reset_account_row
  account_through subjects client_ip calls new_hash token a s t h =
      elim (Result-cases (consume_token token calls.now (facts_of a))) [
        | inl (consumed, using) ↦ elim (Result-cases (complete_reset a new_hash)) [
          | inl (outcome, setting) ↦ (consumed, outcome, setting, ground arith)
          | inr (e, bad) ↦
              ground (arith, rejected_through subjects calls (auth_error_from_policy e) s t)
        ]
        | inr (e, bad) ↦
            ground (arith, rejected_through subjects calls (auth_error_from_policy e) s t)
      ]

  done_through :
      (subjects : List ThrottleSubject) (client_ip : Text) (calls : CompleteResetCalls)
      (new_hash : PasswordHash) (token : AdminResetToken) (r : Option Account)
      (s s1 t : MemoryState)
      → if_present
          (memory_accounts.get_account_for_update token.account_id)
          "identity_reset_account_read_failed"
          s
        ≡ gave (r, s1)
      → reset_account_row memory_accounts memory_audit limits subjects client_ip calls new_hash
          token r s1
        ≡ gave (completed, t)
      → (a : Account) × ResetDone token.account_id new_hash a s t
  unfolding reset_account_row
  done_through subjects client_ip calls new_hash token none s s1 t got h =
      ground (arith, rejected_through subjects calls invalid_reset_token s1 t)
  done_through subjects client_ip calls new_hash token (some a) s s1 t got h =
      let (consumed, outcome, setting, committing) =
        account_through subjects client_ip calls new_hash token a s1 t h in
      let (waits, shape, drop) = complete_reset_lem a new_hash outcome setting in
      let (accounts, sessions) =
        committed_rows client_ip calls a.version consumed outcome s1 t drop committing in
      let (found, same) = account_read token.account_id a _ s s1 got in
      (
        a,
        record {
          held = found;
          waiting = waits;
          accounts = ground (arith, accounts, shape, same);
          sessions = ground (arith, sessions, shape, same);
        },
      )

  token_through :
      (subjects : List ThrottleSubject) (client_ip : Text) (calls : CompleteResetCalls)
      (known : Bool) (new_hash : PasswordHash) (r : Option AdminResetToken) (s t : MemoryState)
      → reset_token_row memory_accounts memory_audit limits subjects client_ip calls known new_hash
          r s
        ≡ gave (completed, t)
      → (token : AdminResetToken) × (r ≡ some token)
        × ((a : Account) × ResetDone token.account_id new_hash a s t)
  unfolding reset_token_row
  token_through subjects client_ip calls known new_hash none s t h =
      elim (rejected_through subjects calls invalid_reset_token s t h) [ ]
  token_through subjects client_ip calls false new_hash (some token) s t h =
      elim (rejected_through subjects calls invalid_reset_token s t h) [ ]
  token_through subjects client_ip calls true new_hash (some token) s t h =
      let (r, s1, getting, h1) =
        >>=-gave (if_present (memory_accounts.get_account_for_update token.account_id) _) _ s t
          completed h in
      (token, refl, done_through subjects client_ip calls new_hash token r s s1 t getting h1)

  -- `CompleteReset` sets a password only for a token that the store has under the hash, and leaves the
  -- account that it names as `ResetDone` says.
  pub complete_reset_tx_lem :
      (subjects : List ThrottleSubject) (client_ip : Text) (calls : CompleteResetCalls)
      (known : Bool) (new_hash : PasswordHash) (hash : TokenHash) (s t : MemoryState)
      → complete_reset_tx memory_accounts memory_audit limits subjects client_ip calls known
          new_hash hash s
        ≡ gave (completed, t)
      → (token : AdminResetToken) × (memory_accounts.get_reset_token hash s ≡ gave (token, s))
        × ((a : Account) × ResetDone token.account_id new_hash a s t)
  unfolding complete_reset_tx
  complete_reset_tx_lem subjects client_ip calls known new_hash hash s t h =
      let (u1, s1, admitted, h1) =
        >>=-gave (admission limits subjects calls.commit_admission_now) _ s t completed h in
      let (r, s2, getting, h2) =
        >>=-gave (if_present (memory_accounts.get_reset_token hash) _) _ s1 t completed h1 in
      let (token, is_token, (a, left)) =
        token_through subjects client_ip calls known new_hash r s2 t h2 in
      let same1 = admission_lem limits subjects calls.commit_admission_now s s1 admitted in
      let (read_row, same2) =
        token_read hash token _ s1 s2 (getting ∙ ap (λ y. gave (y, s2)) is_token) in
      (
        token,
        subst (λ y. memory_accounts.get_reset_token hash y ≡ gave (token, y)) same1 read_row,
        (a, subst (λ y. ResetDone token.account_id new_hash a y t) (same2 ∙ same1) left),
      )

  -- Once `CompleteReset` of an account has committed, no reset link of that account works any more: not
  -- the one that was used, and no other one, whatever the password and the time, in the state that the
  -- commit leaves of a store that keeps accounts under their own ids.
  pub complete_reset_closes_links :
      (subjects : List ThrottleSubject) (client_ip : Text) (calls : CompleteResetCalls)
      (known : Bool) (new_hash : PasswordHash) (hash : TokenHash) (used : AdminResetToken)
      (s t : MemoryState)
      → WellKeyed s
      → memory_accounts.get_reset_token hash s ≡ gave (used, s)
      → complete_reset_tx memory_accounts memory_audit limits subjects client_ip calls known
          new_hash hash s
        ≡ gave (completed, t)
      → (later_subjects : List ThrottleSubject) (later_ip : Text) (later : CompleteResetCalls)
        (later_known : Bool) (later_hash : PasswordHash) (link_hash : TokenHash)
        (link : AdminResetToken) (u : MemoryState)
      → memory_accounts.get_reset_token link_hash t ≡ gave (link, t)
      → link.account_id ≡ used.account_id
      → ¬ (
          complete_reset_tx memory_accounts memory_audit limits later_subjects later_ip later
            later_known later_hash link_hash t
          ≡ gave (completed, u))
  complete_reset_closes_links subjects client_ip calls known new_hash hash used s t keyed read_used
        first later_subjects later_ip later later_known later_hash link_hash link u read_link same
        second =
      let (token, read_token, (a, left)) =
        complete_reset_tx_lem subjects client_ip calls known new_hash hash s t first in
      let (other, read_other, (b, reopened)) =
        complete_reset_tx_lem later_subjects later_ip later later_known later_hash link_hash t u
          second in
      let token_same : token ≡ used = ground (arith, read_token, read_used) in
      let other_same : other ≡ link = ground (arith, read_other, read_link) in
      closed_link new_hash later_hash token.account_id a b s t u keyed left (
        subst (λ i. ResetDone i later_hash b t u)
          (ap (λ y. y.account_id) other_same ∙ same ∙ sym (ap (λ y. y.account_id) token_same))
          reopened)
