-- ===== src/Store/Memory/Sessions.antt =====
-- What internal/app/port/accounts.go promises of the sessions of a store, and
-- internal/app/porttest/accounts.go as a store that keeps it.
use cert_me.Prelude.{
  Bool-cases, List, Option, Option-cases, [], arith, if◌then◌else◌, inl, inr, none, refl, some, ◌∷◌,
  ◌≡◌, ◌≢◌,
}
use cert_me.App.{not_found, store_fault}
use cert_me.Identity.Session.{SessionState}
use cert_me.Prelude.Text.{Text, text_eq, text_eq_iff, text_eq_refl}
use cert_me.Store.{gave, refused}
use cert_me.Store.Accounts.{AccountRepository}
use cert_me.Store.Memory.{
  MemoryState, by_index, index_of_others, memory_accounts, memory_delete_all_sessions,
  memory_delete_session, memory_save_session, put_session, request_keyed, row_of,
  sessions_of_others,
}
use cert_me.Store.Table.{find, find-put, find-remove, pair_keyed, remove, text_keyed}

-- Over a view of a state as a partial map by id: reads give the rows; an insert and a save replace the
-- row of their own id alone, and a save wants it to be there; deleting is idempotent, and the hash of a
-- deleted session is not known any more; deleting those of an account removes them all and no others.
pub record SessionLaws {S : Type 0} (r : AccountRepository S)
    (view : S → Text → Option SessionState) : Type 0 where
  pub session_held :
      (id : Text) (x : SessionState) (s : S)
      → view s id ≡ some x
      → r.get_session_for_update id s ≡ gave (x, s)
  pub session_absent :
      (id : Text) (s : S)
      → view s id ≡ none
      → r.get_session_for_update id s ≡ refused (store_fault not_found)
  pub session_inserted :
      (x : SessionState) (s : S)
      → (t : S) × (r.insert_session x s ≡ gave (tt, t))
        × (r.find_session_by_hash x.token_hash t ≡ gave (x, t))
        × ((id : Text) → view t id ≡ (if text_eq x.id id then some x else view s id))
  pub session_unsaved :
      (x : SessionState) (s : S)
      → view s x.id ≡ none
      → r.save_session x s ≡ refused (store_fault not_found)
  pub session_saved :
      (x y : SessionState) (s : S)
      → view s x.id ≡ some y
      → (t : S) × (r.save_session x s ≡ gave (tt, t))
        × ((id : Text) → view t id ≡ (if text_eq x.id id then some x else view s id))
  pub session_deleted :
      (id : Text) (s : S)
      → (t : S) × (r.delete_session id s ≡ gave (tt, t))
        × ((j : Text) → view t j ≡ (if text_eq id j then none else view s j))
  pub hash_forgotten :
      (x : SessionState) (s t : S)
      → view s x.id ≡ some x
      → r.delete_session x.id s ≡ gave (tt, t)
      → r.find_session_by_hash x.token_hash t ≡ refused (store_fault not_found)
  pub sessions_deleted :
      (account : Text) (s : S)
      → (t : S) × (r.delete_all_sessions account s ≡ gave (tt, t))
        × ((id : Text) (x : SessionState) → view t id ≡ some x → x.account_id ≢ account)
        × ((id : Text) (x : SessionState)
            → view s id ≡ some x
            → x.account_id ≢ account
            → view t id ≡ some x)

abbrev pub session_view : MemoryState → Text → Option SessionState
session_view s id = find id s.sessions

pub find-sessions_of_others :
    (account id : Text) (rows : List (Text × SessionState)) (x : SessionState)
    → find id (sessions_of_others account rows) ≡ some x
    → x.account_id ≢ account
unfolding find sessions_of_others
find-sessions_of_others account id [] x h = ground arith
find-sessions_of_others account id ((key, y) ∷ rows) x h =
    elim (Bool-cases (text_eq y.account_id account)) [
      | inl own ↦ find-sessions_of_others account id rows x (ground arith)
      | inr other ↦ elim (Bool-cases (text_eq key id)) [
        | inl here ↦ λ e. ground (arith, text_eq_iff y.account_id account)
        | inr there ↦ find-sessions_of_others account id rows x (ground arith)
      ]
    ]

other-sessions_of_others :
    (account id : Text) (rows : List (Text × SessionState)) (x : SessionState)
    → find id rows ≡ some x
    → x.account_id ≢ account
    → find id (sessions_of_others account rows) ≡ some x
unfolding find sessions_of_others
other-sessions_of_others account id [] x h other = ground arith
other-sessions_of_others account id ((key, y) ∷ rows) x h other =
    elim (Bool-cases (text_eq key id)) [
      | inl here ↦ ground (arith, text_eq_iff y.account_id account)
      | inr there ↦ ground (arith, other-sessions_of_others account id rows x)
    ]

session_held_lem :
    (id : Text) (x : SessionState) (s : MemoryState)
    → session_view s id ≡ some x
    → memory_accounts.get_session_for_update id s ≡ gave (x, s)
unfolding memory_accounts row_of
session_held_lem id x s h = ground arith

session_absent_lem :
    (id : Text) (s : MemoryState)
    → session_view s id ≡ none
    → memory_accounts.get_session_for_update id s ≡ refused (store_fault not_found)
unfolding memory_accounts row_of
session_absent_lem id s h = ground arith

put_session_found :
    (x : SessionState) (s : MemoryState)
    → memory_accounts.find_session_by_hash x.token_hash (put_session x s)
      ≡ gave (x, put_session x s)
unfolding memory_accounts put_session by_index
put_session_found x s =
    let hash = x.token_hash.fingerprint.hex in
    ground (
      arith,
      find-put hash hash x.id s.sessions_by_hash,
      find-put x.id x.id x s.sessions,
      text_eq_refl hash,
      text_eq_refl x.id,
    )

put_session_view :
    (x : SessionState) (s : MemoryState) (id : Text)
    → session_view (put_session x s) id ≡ (if text_eq x.id id then some x else session_view s id)
unfolding put_session
put_session_view x s id = find-put x.id id x s.sessions

session_inserted_lem :
    (x : SessionState) (s : MemoryState)
    → (t : MemoryState) × (memory_accounts.insert_session x s ≡ gave (tt, t))
      × (memory_accounts.find_session_by_hash x.token_hash t ≡ gave (x, t))
      × ((id : Text) → session_view t id ≡ (if text_eq x.id id then some x else session_view s id))
session_inserted_lem x s =
    (put_session x s, unfold memory_accounts in refl, put_session_found x s, put_session_view x s)

session_unsaved_lem :
    (x : SessionState) (s : MemoryState)
    → session_view s x.id ≡ none
    → memory_accounts.save_session x s ≡ refused (store_fault not_found)
unfolding memory_accounts memory_save_session
session_unsaved_lem x s h = ground arith

session_saved_lem :
    (x y : SessionState) (s : MemoryState)
    → session_view s x.id ≡ some y
    → (t : MemoryState) × (memory_accounts.save_session x s ≡ gave (tt, t))
      × ((id : Text) → session_view t id ≡ (if text_eq x.id id then some x else session_view s id))
unfolding memory_accounts memory_save_session
session_saved_lem x y s h = (put_session x s, ground arith, put_session_view x s)

session_deleted_lem :
    (id : Text) (s : MemoryState)
    → (t : MemoryState) × (memory_accounts.delete_session id s ≡ gave (tt, t))
      × ((j : Text) → session_view t j ≡ (if text_eq id j then none else session_view s j))
unfolding memory_accounts memory_delete_session
session_deleted_lem id s = elim (Option-cases (find id s.sessions)) [
  | inl absent ↦ (s, ground arith, λ j. ground (arith, text_eq_iff id j))
  | inr (x, found) ↦ (
    record s {
      sessions = remove id s.sessions;
      sessions_by_hash = remove x.token_hash.fingerprint.hex s.sessions_by_hash;
    },
    ground arith,
    λ j. find-remove id j s.sessions,
  )
]

hash_forgotten_lem :
    (x : SessionState) (s t : MemoryState)
    → session_view s x.id ≡ some x
    → memory_accounts.delete_session x.id s ≡ gave (tt, t)
    → memory_accounts.find_session_by_hash x.token_hash t ≡ refused (store_fault not_found)
unfolding memory_accounts memory_delete_session by_index
hash_forgotten_lem x s t h deleted =
    let hash = x.token_hash.fingerprint.hex in
    ground (arith, find-remove hash hash s.sessions_by_hash, text_eq_refl hash)

sessions_deleted_lem :
    (account : Text) (s : MemoryState)
    → (t : MemoryState) × (memory_accounts.delete_all_sessions account s ≡ gave (tt, t))
      × ((id : Text) (x : SessionState) → session_view t id ≡ some x → x.account_id ≢ account)
      × ((id : Text) (x : SessionState)
          → session_view s id ≡ some x
          → x.account_id ≢ account
          → session_view t id ≡ some x)
unfolding memory_accounts memory_delete_all_sessions
sessions_deleted_lem account s = (
  record s {
    sessions = sessions_of_others account s.sessions;
    sessions_by_hash = index_of_others account s.sessions s.sessions_by_hash;
  },
  refl,
  λ id x held. find-sessions_of_others account id s.sessions x held,
  λ id x held other. other-sessions_of_others account id s.sessions x held other,
)

-- The sessions of the store in memory keep the contract of the port.
pub memory_accounts-SessionLaws : SessionLaws memory_accounts session_view
memory_accounts-SessionLaws = record {
  session_held = session_held_lem;
  session_absent = session_absent_lem;
  session_inserted = session_inserted_lem;
  session_unsaved = session_unsaved_lem;
  session_saved = session_saved_lem;
  session_deleted = session_deleted_lem;
  hash_forgotten = hash_forgotten_lem;
  sessions_deleted = sessions_deleted_lem;
}
