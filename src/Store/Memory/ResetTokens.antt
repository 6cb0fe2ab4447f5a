-- ===== src/Store/Memory/ResetTokens.antt =====
-- What internal/app/port/accounts.go promises of the reset links of a store, and
-- internal/app/porttest/accounts.go as a store that keeps it.
use cert_me.Prelude.{Option, arith, if◌then◌else◌, none, refl, some, ◌≡◌, ◌≢◌}
use cert_me.App.{not_found, store_fault}
use cert_me.Errors.{ok}
use cert_me.Identity.ResetToken.{AdminResetToken, invalidate_token}
use cert_me.Prelude.Text.{Text, text_eq, text_eq_iff, text_eq_refl}
use cert_me.Store.{gave, refused}
use cert_me.Store.Accounts.{AccountRepository}
use cert_me.Store.Memory.{
  MemoryState, by_index, invalidate_of_account, memory_accounts, memory_save_reset_token,
  put_reset_token, request_keyed,
}
use cert_me.Store.Table.{find, find-put, find-update_all, pair_keyed, text_keyed, update_all}
use cert_me.Values.Instant.{Instant}

-- Over a view of a state as a partial map by id: an insert and a save replace the row of their own id
-- alone, and it is found by its hash then; a save wants the row to be there; invalidating those of an
-- account applies the domain's transition to each of them and leaves the others.
pub record ResetTokenLaws {S : Type 0} (r : AccountRepository S)
    (view : S → Text → Option AdminResetToken) : Type 0 where
  pub token_inserted :
      (x : AdminResetToken) (s : S)
      → (t : S) × (r.insert_reset_token x s ≡ gave (tt, t))
        × (r.get_reset_token x.token_hash t ≡ gave (x, t))
        × ((id : Text) → view t id ≡ (if text_eq x.id id then some x else view s id))
  pub token_unsaved :
      (x : AdminResetToken) (s : S)
      → view s x.id ≡ none
      → r.save_reset_token x s ≡ refused (store_fault not_found)
  pub token_saved :
      (x y : AdminResetToken) (s : S)
      → view s x.id ≡ some y
      → (t : S) × (r.save_reset_token x s ≡ gave (tt, t))
        × (r.get_reset_token x.token_hash t ≡ gave (x, t))
        × ((id : Text) → view t id ≡ (if text_eq x.id id then some x else view s id))
  pub tokens_invalidated :
      (account : Text) (now : Instant) (s : S)
      → (t : S) × (r.invalidate_reset_tokens account now s ≡ gave (tt, t))
        × ((id : Text) (x : AdminResetToken)
            → view s id ≡ some x
            → x.account_id ≢ account
            → view t id ≡ some x)
        × ((id : Text) (x y : AdminResetToken)
            → view s id ≡ some x
            → x.account_id ≡ account
            → invalidate_token x now ≡ ok y
            → view t id ≡ some y)

abbrev pub token_view : MemoryState → Text → Option AdminResetToken
token_view s id = find id s.reset_tokens

put_token_found :
    (x : AdminResetToken) (s : MemoryState)
    → memory_accounts.get_reset_token x.token_hash (put_reset_token x s)
      ≡ gave (x, put_reset_token x s)
unfolding memory_accounts put_reset_token by_index
put_token_found x s =
    let hash = x.token_hash.fingerprint.hex in
    ground (
      arith,
      find-put hash hash x.id s.reset_tokens_by_hash,
      find-put x.id x.id x s.reset_tokens,
      text_eq_refl hash,
      text_eq_refl x.id,
    )

put_token_view :
    (x : AdminResetToken) (s : MemoryState) (id : Text)
    → token_view (put_reset_token x s) id ≡ (if text_eq x.id id then some x else token_view s id)
unfolding put_reset_token
put_token_view x s id = find-put x.id id x s.reset_tokens

token_inserted_lem :
    (x : AdminResetToken) (s : MemoryState)
    → (t : MemoryState) × (memory_accounts.insert_reset_token x s ≡ gave (tt, t))
      × (memory_accounts.get_reset_token x.token_hash t ≡ gave (x, t))
      × ((id : Text) → token_view t id ≡ (if text_eq x.id id then some x else token_view s id))
token_inserted_lem x s =
    (put_reset_token x s, unfold memory_accounts in refl, put_token_found x s, put_token_view x s)

token_unsaved_lem :
    (x : AdminResetToken) (s : MemoryState)
    → token_view s x.id ≡ none
    → memory_accounts.save_reset_token x s ≡ refused (store_fault not_found)
unfolding memory_accounts memory_save_reset_token
token_unsaved_lem x s h = ground arith

token_saved_lem :
    (x y : AdminResetToken) (s : MemoryState)
    → token_view s x.id ≡ some y
    → (t : MemoryState) × (memory_accounts.save_reset_token x s ≡ gave (tt, t))
      × (memory_accounts.get_reset_token x.token_hash t ≡ gave (x, t))
      × ((id : Text) → token_view t id ≡ (if text_eq x.id id then some x else token_view s id))
token_saved_lem x y s h = (
  put_reset_token x s,
  unfold memory_accounts in unfold memory_save_reset_token in ground arith,
  put_token_found x s,
  put_token_view x s,
)

tokens_invalidated_lem :
    (account : Text) (now : Instant) (s : MemoryState)
    → (t : MemoryState) × (memory_accounts.invalidate_reset_tokens account now s ≡ gave (tt, t))
      × ((id : Text) (x : AdminResetToken)
          → token_view s id ≡ some x
          → x.account_id ≢ account
          → token_view t id ≡ some x)
      × ((id : Text) (x y : AdminResetToken)
          → token_view s id ≡ some x
          → x.account_id ≡ account
          → invalidate_token x now ≡ ok y
          → token_view t id ≡ some y)
unfolding memory_accounts invalidate_of_account
tokens_invalidated_lem account now s =
    let f = invalidate_of_account account now in
    (
      record s { reset_tokens = update_all f s.reset_tokens },
      refl,
      λ id x held other.
          ground (arith, find-update_all f id s.reset_tokens, text_eq_iff x.account_id account),
      λ id x y held own done_so.
          ground (arith, find-update_all f id s.reset_tokens, text_eq_iff x.account_id account),
    )

-- The reset links of the store in memory keep the contract of the port.
pub memory_accounts-ResetTokenLaws : ResetTokenLaws memory_accounts token_view
memory_accounts-ResetTokenLaws = record {
  token_inserted = token_inserted_lem;
  token_unsaved = token_unsaved_lem;
  token_saved = token_saved_lem;
  tokens_invalidated = tokens_invalidated_lem;
}
