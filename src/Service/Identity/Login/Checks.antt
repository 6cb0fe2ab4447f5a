-- ===== src/Service/Identity/Login/Checks.antt =====
-- internal/app/service/identity.go, `Login`, over the store in memory: what a session that was started
-- rests on.
use cert_me.Prelude.{
  Bool, List, Option, Option-cases, ap, arith, inl, inr, none, refl, some, subst, true, ◌∙◌, ◌≡◌,
}
use cert_me.App.Throttle.{RateLimits, ThrottleSubject}
use cert_me.Errors.{Result-cases, ok}
use cert_me.Identity.{Account, active_account, can_login, can_login_in}
use cert_me.Identity.Session.{
  SessionState, default_session_policy, new_session_policy, new_session_state, session_deadline,
}
use cert_me.Prelude.Text.{Text}
use cert_me.Service.{append_account_audit}
use cert_me.Service.Identity.{LoginCalls, LoginView, Prepared, is_as_prepared, session_of}
use cert_me.Service.Identity.Login.{
  LoginOutcome, Minted, accepted, admission, lock_account_by_login_name, lock_found, login_locked,
  login_result, login_tx, login_verified, mint, reject_login, rejected, start_session,
}
use cert_me.Store.{
  >>=-gave, Reply, Reply-cases, Tx, gave, if_present, or_store_error, refused, write,
}
use cert_me.Store.Memory.{
  MemoryState, account_named, memory_accounts, memory_audit, put_session, request_keyed, row_of,
}
use cert_me.Store.Table.{find, pair_keyed, put, text_keyed}
use cert_me.Values.Hex.{TokenHash}
use cert_me.Values.Instant.{Instant, add, hours, is_positive}

-- The account under a login name, as `lockAccountByLoginName` reads it.
abbrev pub LockedAs : Text → MemoryState → Account → Type 0
LockedAs name s a =
    (found : Account) × (account_named name s.accounts ≡ some found)
    × (find found.id s.accounts ≡ some a)

lock_lem :
    (limits : RateLimits MemoryState) (name : Text) (a : Account) (s u : MemoryState)
    → lock_account_by_login_name memory_accounts memory_audit limits name s ≡ gave (some a, u)
    → LockedAs name s a × (u ≡ s)
unfolding lock_account_by_login_name lock_found if_present memory_accounts row_of
lock_lem limits name a s u h = elim (Option-cases (account_named name s.accounts)) [
  | inl nobody ↦ ground arith
  | inr (found, named) ↦ elim (Option-cases (find found.id s.accounts)) [
    | inl gone ↦ ground arith
    | inr (b, held) ↦ ((found, named, ground arith), ground arith)
  ]
]

-- What a run of `Login` that gives a view rests on and leaves.
pub record Started (name : Text) (calls : LoginCalls) (facts : Prepared) (a : Account)
    (x : SessionState) (s t : MemoryState) : Type 0 where
  pub locked_account : LockedAs name s a
  pub unmoved : is_as_prepared a facts ≡ true
  pub may_log_in : a.state ≡ active_account
  pub of_account : x.account_id ≡ a.id
  pub of_epoch : x.auth_epoch ≡ a.auth_epoch
  pub deadline : x.absolute_expires_at ≡ add calls.locked_now (hours 24)
  pub stored : t.sessions ≡ put calls.session_uuid x s.sessions
  pub accounts_kept : t.accounts ≡ s.accounts

session_of_lem :
    (a : Account) (session_hash csrf_hash : TokenHash) (uuid : Text) (now : Instant)
    (x : SessionState)
    → session_of a session_hash csrf_hash uuid now ≡ ok x
    → x ≡ record {
      id = uuid;
      account_id = a.id;
      token_hash = session_hash;
      csrf_secret_hash = csrf_hash;
      auth_epoch = a.auth_epoch;
      last_seen_at = now;
      absolute_expires_at = add now (hours 24);
    }
unfolding session_of new_session_state default_session_policy new_session_policy session_deadline
    is_positive
session_of_lem a session_hash csrf_hash uuid now x h = ground arith

can_login_lem : (a : Account) → can_login a ≡ ok tt → a.state ≡ active_account
unfolding can_login can_login_in
can_login_lem a h = ground arith

start_session_lem :
    (limits : RateLimits MemoryState) (client_ip : Text) (calls : LoginCalls) (minted : Minted)
    (a : Account) (view : LoginView) (s t : MemoryState)
    → start_session memory_accounts memory_audit limits client_ip calls minted a s
      ≡ gave (accepted view, t)
    → (x : SessionState) × (can_login a ≡ ok tt)
      × (session_of a minted.session_hash minted.csrf_hash calls.session_uuid calls.locked_now
          ≡ ok x)
      × (t.sessions ≡ put x.id x s.sessions)
      × (t.accounts ≡ s.accounts)
unfolding start_session memory_accounts memory_audit or_store_error append_account_audit put_session
start_session_lem limits client_ip calls minted a view s t h =
    elim (Result-cases
      (session_of a minted.session_hash minted.csrf_hash calls.session_uuid calls.locked_now)) [
        | inl (x, made) ↦ (x, ground arith, made, ground arith, ground arith)
        | inr (e, bad) ↦ ground arith
      ]

pub admission_lem :
    (limits : RateLimits MemoryState) (subjects : List ThrottleSubject) (now : Instant)
    (s u : MemoryState)
    → admission limits subjects now s ≡ gave (tt, u)
    → u ≡ s
unfolding admission
admission_lem limits subjects now s u h = ground arith

locked_through :
    (limits : RateLimits MemoryState) (subjects : List ThrottleSubject) (client_ip : Text)
    (calls : LoginCalls) (minted : Minted) (facts : Prepared) (verified : Bool) (r : Option Account)
    (view : LoginView) (s t : MemoryState)
    → login_locked memory_accounts memory_audit limits subjects client_ip calls minted facts
        verified r s
      ≡ gave (accepted view, t)
    → (a : Account) × (r ≡ some a)
      × (is_as_prepared a facts ≡ true)
      × (verified ≡ true)
      × (start_session memory_accounts memory_audit limits client_ip calls minted a s
          ≡ gave (accepted view, t))
unfolding login_locked reject_login
locked_through limits subjects client_ip calls minted facts verified none view s t h = ground arith
locked_through limits subjects client_ip calls minted facts verified (some a) view s t h =
    (a, refl, ground arith, ground arith, ground arith)

accepted_lem :
    (r : Reply LoginOutcome × MemoryState) (view : LoginView) (t : MemoryState)
    → login_result r ≡ (gave view, t)
    → r ≡ (gave (accepted view), t)
unfolding login_result
accepted_lem (gave (accepted v), u) view t h = ground arith
accepted_lem (gave rejected, u) view t h = ground arith
accepted_lem (refused e, u) view t h = ground arith

-- The chain of the transaction's steps.
session_through :
    (limits : RateLimits MemoryState) (subjects : List ThrottleSubject) (name client_ip : Text)
    (calls : LoginCalls) (minted : Minted) (facts : Prepared) (verified : Bool) (a : Account)
    (x : SessionState) (view : LoginView) (s t : MemoryState)
    → LockedAs name s a
    → is_as_prepared a facts ≡ true
    → can_login a ≡ ok tt
    → session_of a minted.session_hash minted.csrf_hash calls.session_uuid calls.locked_now ≡ ok x
    → t.sessions ≡ put x.id x s.sessions
    → t.accounts ≡ s.accounts
    → Started name calls facts a x s t
session_through limits subjects name client_ip calls minted facts verified a x view s t locked
      as_prepared usable made stored kept =
    let shape =
      session_of_lem a minted.session_hash minted.csrf_hash calls.session_uuid calls.locked_now x
        made in
    record {
      locked_account = locked;
      unmoved = as_prepared;
      may_log_in = can_login_lem a usable;
      of_account = ap (λ y. y.account_id) shape;
      of_epoch = ap (λ y. y.auth_epoch) shape;
      deadline = ap (λ y. y.absolute_expires_at) shape;
      stored = stored ∙ ap (λ y. put y x s.sessions) (ap (λ y. y.id) shape);
      accounts_kept = kept;
    }

login_tx_lem :
    (limits : RateLimits MemoryState) (subjects : List ThrottleSubject) (name client_ip : Text)
    (calls : LoginCalls) (minted : Minted) (facts : Prepared) (verified : Bool) (view : LoginView)
    (s t : MemoryState)
    → login_tx memory_accounts memory_audit limits subjects name client_ip calls minted facts
        verified s
      ≡ gave (accepted view, t)
    → (verified ≡ true) × ((a : Account) × (x : SessionState) × Started name calls facts a x s t)
unfolding login_tx
login_tx_lem limits subjects name client_ip calls minted facts verified view s t h =
    let (unit1, s1, admitted, h1) =
      >>=-gave (admission limits subjects calls.commit_admission_now) _ s t (accepted view) h in
    let same1 = admission_lem limits subjects calls.commit_admission_now s s1 admitted in
    let (r, s2, got, h2) =
      >>=-gave (lock_account_by_login_name memory_accounts memory_audit limits name) _ s1 t
        (accepted view) h1 in
    let (a, is_a, as_prepared, right, h3) =
      locked_through limits subjects client_ip calls minted facts verified r view s2 t h2 in
    let (locked, same2) = lock_lem limits name a s1 s2 (got ∙ ap (λ y. gave (y, s2)) is_a) in
    let (x, usable, made, stored, kept) =
      start_session_lem limits client_ip calls minted a view s2 t h3 in
    let same = same2 ∙ same1 in
    (
      right,
      (
        a,
        x,
        session_through limits subjects name client_ip calls minted facts verified a x view s t
            (subst (λ y. LockedAs name y a) same1 locked) as_prepared usable made
            (stored ∙ ap (λ y. put x.id x y.sessions) same) (kept ∙ ap (λ y. y.accounts) same),
      ),
    )

written_lem :
    (m : Tx MemoryState LoginOutcome) (view : LoginView) (s t : MemoryState)
    → login_result (write m s) ≡ (gave view, t)
    → m s ≡ gave (accepted view, t)
unfolding write
written_lem m view s t h = ground (arith, accepted_lem (write m s) view t h)

-- `Login` starts a session only if the password was right, for the account that its transaction reads
-- under the name: it is active and has the id and the version that the password was checked against.
-- The session is the account's, under its epoch, ends after 24 hours, and is the only row that the
-- accounts and the sessions change by.
pub login_checked :
    (limits : RateLimits MemoryState) (subjects : List ThrottleSubject) (name client_ip : Text)
    (calls : LoginCalls) (facts : Prepared) (verified : Bool) (view : LoginView) (s t : MemoryState)
    → login_verified memory_accounts memory_audit limits subjects name client_ip calls facts
        verified s
      ≡ (gave view, t)
    → (verified ≡ true) × ((a : Account) × (x : SessionState) × Started name calls facts a x s t)
unfolding login_verified
login_checked limits subjects name client_ip calls facts verified view s t h =
    elim (Reply-cases (mint calls facts verified)) [
      | inl (minted, made) ↦
          login_tx_lem limits subjects name client_ip calls minted facts verified view s t (
            written_lem
              (login_tx memory_accounts memory_audit limits subjects name client_ip calls minted
                facts verified)
              view s t (ground arith))
      | inr (e, bad) ↦ ground arith
    ]
