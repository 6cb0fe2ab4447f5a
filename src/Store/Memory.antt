-- ===== src/Store/Memory.antt =====
-- internal/app/porttest/state.go, accounts.go, audit.go, installation.go and requests.go: the store in
-- memory, as far as its rows are those of `Accounts`. A state is a snapshot; copies of rows are the
-- rows themselves.
pub mod Sessions
pub mod ResetTokens
pub mod Laws
use mathlib.Core.Option
use cert_me.Prelude.{
  Bool, List, Option, [], ap, arith, if◌then◌else◌, inl, is_some, none, some, true, ◌&&◌, ◌++◌,
  ◌||◌, ◌↔◌, ◌∷◌, ◌≡◌, ◌≢◌, ◌⊎◌,
}
use cert_me.App.{Fault, duplicate, not_found, other_fault, store_fault, version_conflict}
use cert_me.App.Throttle.{RateLimitRecord, RateLimits, ThrottleSubject, row}
use cert_me.App.Throttle.Memory.{find_counter, kept_law, put_counter, saved_law}
use cert_me.Errors.{err, ok}
use cert_me.Identity.{Account}
use cert_me.Identity.ResetToken.{AdminResetToken, invalidate_token}
use cert_me.Identity.Session.{SessionState}
use cert_me.Prelude.Int.{eq_ℤ, pos}
use cert_me.Prelude.Text.{Text, text_eq, text_eq_iff}
use cert_me.Store.{Reply, Tx, gave, refused}
use cert_me.Store.Accounts.{
  AccountRepository, AuditEvent, AuditRepository, AuditScope, Installation, InstallationRepository,
  OperationRequestKey, OperationRequestResult, RequestRepository, Settings, scope_is_valid,
}
use cert_me.Store.Table.{Keyed, find, pair_keyed, put, remove, text_keyed, update_all}
use cert_me.Values.Ids.{Version, next}
use cert_me.Values.Instant.{Instant, unset}

-- `==` on the keys of stored results.
abbrev request_key_eq : OperationRequestKey → OperationRequestKey → Bool
request_key_eq k l =
    text_eq k.actor_key l.actor_key
    && text_eq k.operation l.operation
    && text_eq k.request_id l.request_id

pub request_key_eq_iff : (k l : OperationRequestKey) → (request_key_eq k l ≡ true) ↔ (k ≡ l)
request_key_eq_iff k l = ground (
  arith,
  text_eq_iff k.actor_key l.actor_key,
  text_eq_iff k.operation l.operation,
  text_eq_iff k.request_id l.request_id,
)

instance abbrev pub request_keyed : Keyed OperationRequestKey
request_keyed = record { same = request_key_eq; same_iff = request_key_eq_iff }

-- `state`
pub record MemoryState : Type 0 where
  pub accounts : List (Text × Account)
  pub sessions : List (Text × SessionState)
  pub sessions_by_hash : List (Text × Text)
  pub reset_tokens : List (Text × AdminResetToken)
  pub reset_tokens_by_hash : List (Text × Text)
  pub rate_limits : List RateLimitRecord
  pub installation : Option Installation
  pub settings : Option Settings
  pub request_results : List (OperationRequestKey × OperationRequestResult)
  pub audit_events : List (AuditEvent × AuditScope)

-- `v, ok := m[key]; if !ok { return ErrNotFound }`
unfoldable pub row_of : {S V : Type 0} → Option V → Tx S V
row_of (some v) s = gave (v, s)
row_of none s = refused (store_fault not_found)

-- The row of an index of ids; the map gives its zero value for an id that it does not hold.
unfoldable pub by_index : {S V : Type 0} → List (Text × Text) → Text → List (Text × V) → V → Tx S V
by_index index key rows zero_value s = elim (find key index) [
  | none ↦ refused (store_fault not_found)
  | some id ↦ elim (find id rows) [ some v ↦ gave (v, s) | none ↦ gave (zero_value, s) ]
]

abbrev pub zero_session : SessionState
zero_session = record {
  id = [];
  account_id = [];
  token_hash = record { fingerprint = record { hex = [] } };
  csrf_secret_hash = record { fingerprint = record { hex = [] } };
  auth_epoch = pos 0;
  last_seen_at = unset;
  absolute_expires_at = unset;
}

abbrev pub zero_reset_token : AdminResetToken
zero_reset_token = record {
  id = [];
  account_id = [];
  token_hash = record { fingerprint = record { hex = [] } };
  auth_epoch = pos 0;
  issued_at = unset;
  expires_at = unset;
  consumed_at = unset;
  invalidated_at = unset;
}

-- The loops over `accounts` of `FindAccountByLoginName` and `InsertAccount`.
unfoldable pub account_named : Text → List (Text × Account) → Option Account
account_named name [] = none
account_named name ((id, a) ∷ rows) =
    let rest = account_named name rows in
    if text_eq a.normalized_login_name name then some a else rest

unfoldable pub memory_insert_account : Account → Tx MemoryState (Unit {0})
memory_insert_account a s =
    if is_some (find a.id s.accounts) || is_some (account_named a.normalized_login_name s.accounts)
    then refused (store_fault duplicate)
    else gave (tt, record s { accounts = put a.id a s.accounts })

-- The check of `expectedVersion` that every `Save` with a version makes.
unfoldable pub save_versioned : {S : Type 0} → Option Version → Version → S → Reply (Unit {0} × S)
save_versioned none expected t = refused (store_fault not_found)
save_versioned (some held) expected t =
    if eq_ℤ held expected then gave (tt, t) else refused (store_fault version_conflict)

unfoldable pub memory_save_account : Account → Version → Tx MemoryState (Unit {0})
memory_save_account a expected s =
    save_versioned (Option.map (λ (b : Account). b.version) (find a.id s.accounts)) expected
      (record s { accounts = put a.id a s.accounts })

-- `r.s.sessions[session.ID()] = session`, with the index by hash.
unfoldable pub put_session : SessionState → MemoryState → MemoryState
put_session x s = record s {
  sessions = put x.id x s.sessions;
  sessions_by_hash = put x.token_hash.fingerprint.hex x.id s.sessions_by_hash;
}

unfoldable pub memory_save_session : SessionState → Tx MemoryState (Unit {0})
memory_save_session x s =
    if is_some (find x.id s.sessions)
    then gave (tt, put_session x s)
    else refused (store_fault not_found)

unfoldable pub memory_delete_session : Text → Tx MemoryState (Unit {0})
memory_delete_session id s = elim (find id s.sessions) [
  | none ↦ gave (tt, s)
  | some x ↦ gave (
    tt,
    record s {
      sessions = remove id s.sessions;
      sessions_by_hash = remove x.token_hash.fingerprint.hex s.sessions_by_hash;
    },
  )
]

-- The loop of `DeleteAllSessions`: the rows that stay, and the index without the others.
unfoldable pub sessions_of_others : Text → List (Text × SessionState) → List (Text × SessionState)
sessions_of_others account [] = []
sessions_of_others account ((id, x) ∷ rows) =
    let rest = sessions_of_others account rows in
    if text_eq x.account_id account then rest else (id, x) ∷ rest

unfoldable pub index_of_others :
    Text → List (Text × SessionState) → List (Text × Text) → List (Text × Text)
index_of_others account [] index = index
index_of_others account ((id, x) ∷ rows) index =
    index_of_others account rows
      (if text_eq x.account_id account then remove x.token_hash.fingerprint.hex index else index)

unfoldable pub memory_delete_all_sessions : Text → Tx MemoryState (Unit {0})
memory_delete_all_sessions account s = gave (
  tt,
  record s {
    sessions = sessions_of_others account s.sessions;
    sessions_by_hash = index_of_others account s.sessions s.sessions_by_hash;
  },
)

unfoldable pub put_reset_token : AdminResetToken → MemoryState → MemoryState
put_reset_token x s = record s {
  reset_tokens = put x.id x s.reset_tokens;
  reset_tokens_by_hash = put x.token_hash.fingerprint.hex x.id s.reset_tokens_by_hash;
}

unfoldable pub memory_save_reset_token : AdminResetToken → Tx MemoryState (Unit {0})
memory_save_reset_token x s =
    if is_some (find x.id s.reset_tokens)
    then gave (tt, put_reset_token x s)
    else refused (store_fault not_found)

-- One round of the loop of `InvalidateResetTokens`.
unfoldable pub invalidate_of_account : Text → Instant → AdminResetToken → AdminResetToken
invalidate_of_account account now x =
    if text_eq x.account_id account
    then (elim (invalidate_token x now) [ ok next ↦ next | err _ ↦ x ])
    else x

unfoldable pub memory_accounts : AccountRepository MemoryState
memory_accounts = record {
  get_account_for_update = λ id s. row_of (find id s.accounts) s;
  find_account_by_login_name = λ name s. row_of (account_named name s.accounts) s;
  find_session_by_hash =
      λ hash s. by_index s.sessions_by_hash hash.fingerprint.hex s.sessions zero_session s;
  get_session_for_update = λ id s. row_of (find id s.sessions) s;
  insert_account = memory_insert_account;
  save_account = memory_save_account;
  insert_session = λ x s. gave (tt, put_session x s);
  save_session = memory_save_session;
  delete_session = memory_delete_session;
  delete_all_sessions = memory_delete_all_sessions;
  get_reset_token = λ hash s.
      by_index s.reset_tokens_by_hash hash.fingerprint.hex s.reset_tokens zero_reset_token s;
  insert_reset_token = λ x s. gave (tt, put_reset_token x s);
  save_reset_token = memory_save_reset_token;
  invalidate_reset_tokens = λ account now s. gave (
    tt,
    record s { reset_tokens = update_all (invalidate_of_account account now) s.reset_tokens },
  );
}

-- `Append`: the order of the events is that of the calls.
unfoldable pub memory_audit : AuditRepository MemoryState
memory_audit = record {
  append_event = λ event scope s.
      if scope_is_valid scope
      then gave (tt, record s { audit_events = s.audit_events ++ (event, scope) ∷ [] })
      else refused other_fault;
}

-- `Save` of a single row: the first one creates it, under the version 0.
unfoldable pub save_single : {S : Type 0} → Option Version → Version → S → Reply (Unit {0} × S)
save_single none expected t =
    if eq_ℤ expected (pos 0) then gave (tt, t) else refused (store_fault not_found)
save_single (some held) expected t =
    if eq_ℤ held expected then gave (tt, t) else refused (store_fault version_conflict)

unfoldable pub memory_installation : InstallationRepository MemoryState
memory_installation = record {
  get_installation = λ s. row_of s.installation s;
  save_installation = λ row expected s.
      save_single (Option.map (λ (r : Installation). r.version) s.installation) expected
        (record s { installation = some row });
  get_settings = λ s. row_of s.settings s;
  save_settings = λ row expected s.
      save_single (Option.map (λ (r : Settings). r.version) s.settings) expected
        (record s { settings = some row });
}

unfoldable pub memory_insert_result : OperationRequestKey → Text → Text → Tx MemoryState (Unit {0})
memory_insert_result k hash json s =
    if is_some (find k s.request_results)
    then refused (store_fault duplicate)
    else gave (
      tt,
      record s {
        request_results =
            put k (record { input_hash = hash; result_json = json }) s.request_results;
      },
    )

unfoldable pub memory_requests : RequestRepository MemoryState
memory_requests = record {
  find_result = λ k s. row_of (find k s.request_results) s;
  insert_result = memory_insert_result;
}

-- `GetRateLimit` and `SaveRateLimit` on the counters of the state.
pub rate_limit_saved :
    (s t : MemoryState) (r : RateLimitRecord)
    → ◌≡◌ {A = MemoryState ⊎ Fault}
        (inl (record s { rate_limits = put_counter s.rate_limits r }))
        (inl t)
    → find_counter t.rate_limits r.subject r.window_start ≡ row r
rate_limit_saved s t r h =
    let same : put_counter s.rate_limits r ≡ t.rate_limits = ground arith in
    saved_law s.rate_limits t.rate_limits r (ap inl same)

pub rate_limit_kept :
    (s t : MemoryState) (r : RateLimitRecord) (who : ThrottleSubject) (w : Instant)
    → ◌≡◌ {A = MemoryState ⊎ Fault}
        (inl (record s { rate_limits = put_counter s.rate_limits r }))
        (inl t)
    → (r.subject ≢ who) ⊎ (r.window_start ≢ w)
    → find_counter t.rate_limits who w ≡ find_counter s.rate_limits who w
rate_limit_kept s t r who w h elsewhere =
    let same : put_counter s.rate_limits r ≡ t.rate_limits = ground arith in
    kept_law s.rate_limits t.rate_limits r who w (ap inl same) elsewhere

unfoldable pub memory_rate_limits : RateLimits MemoryState
memory_rate_limits = record {
  get_rate_limit = λ s. find_counter s.rate_limits;
  save_rate_limit = λ s r. inl (record s { rate_limits = put_counter s.rate_limits r });
  saved = rate_limit_saved;
  kept = rate_limit_kept;
}
