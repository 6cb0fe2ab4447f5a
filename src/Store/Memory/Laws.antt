-- ===== src/Store/Memory/Laws.antt =====
-- What internal/app/port/accounts.go promises of the accounts of a store, and
-- internal/app/porttest/accounts.go as a store that keeps it.
-- The contract of the accounts, over a view of a state as a partial map: a read returns the row that
-- the view has, by its id or by its login name; an insert never replaces a row, and is refused exactly
-- for an id or a login name that is taken; and a save replaces the row of its own id alone, if the row
-- has the version that the caller has read.
use cert_me.Prelude.{
  Bool-cases, List, Option, Option-cases, [], ap, arith, if◌then◌else◌, inl, inr, none, some, sym,
  ◌∙◌, ◌∷◌, ◌≡◌, ◌≢◌,
}
use cert_me.App.{duplicate, not_found, store_fault, version_conflict}
use cert_me.Identity.{Account}
use cert_me.Identity.ResetToken.{AdminResetToken}
use cert_me.Identity.Session.{SessionState}
use cert_me.Prelude.Int.{eq_ℤ_iff}
use cert_me.Prelude.Text.{Text, text_eq, text_eq_iff}
use cert_me.Store.{gave, refused}
use cert_me.Store.Accounts.{AccountRepository}
use cert_me.Store.Memory.{
  MemoryState, account_named, memory_accounts, memory_insert_account, memory_save_account,
  request_keyed, row_of, save_versioned,
}
use cert_me.Store.Memory.ResetTokens.{ResetTokenLaws}
use cert_me.Store.Memory.Sessions.{SessionLaws}
use cert_me.Store.Table.{find, find-put, pair_keyed, put, text_keyed}
use cert_me.Values.Ids.{Version}

pub record AccountLaws {S : Type 0} (r : AccountRepository S) (view : S → Text → Option Account)
    : Type 0 where
  pub get_held :
      (id : Text) (a : Account) (s : S)
      → view s id ≡ some a
      → r.get_account_for_update id s ≡ gave (a, s)
  pub get_absent :
      (id : Text) (s : S)
      → view s id ≡ none
      → r.get_account_for_update id s ≡ refused (store_fault not_found)
  pub insert_held :
      (a b : Account) (s : S)
      → view s a.id ≡ some b
      → r.insert_account a s ≡ refused (store_fault duplicate)
  pub insert_taken :
      (id : Text) (a b : Account) (s : S)
      → view s id ≡ some b
      → b.normalized_login_name ≡ a.normalized_login_name
      → r.insert_account a s ≡ refused (store_fault duplicate)
  pub insert_free :
      (a : Account) (s : S)
      → view s a.id ≡ none
      → r.find_account_by_login_name a.normalized_login_name s ≡ refused (store_fault not_found)
      → (t : S) × (r.insert_account a s ≡ gave (tt, t))
  pub name_found :
      (name : Text) (a : Account) (s t : S)
      → r.find_account_by_login_name name s ≡ gave (a, t)
      → (a.normalized_login_name ≡ name) × (t ≡ s)
  pub name_known :
      (id : Text) (b : Account) (s : S)
      → view s id ≡ some b
      → (a : Account) × (r.find_account_by_login_name b.normalized_login_name s ≡ gave (a, s))
  pub insert_view :
      (a : Account) (s t : S)
      → r.insert_account a s ≡ gave (tt, t)
      → (id : Text) → view t id ≡ (if text_eq a.id id then some a else view s id)
  pub save_absent :
      (a : Account) (v : Version) (s : S)
      → view s a.id ≡ none
      → r.save_account a v s ≡ refused (store_fault not_found)
  pub save_stale :
      (a b : Account) (v : Version) (s : S)
      → view s a.id ≡ some b
      → b.version ≢ v
      → r.save_account a v s ≡ refused (store_fault version_conflict)
  pub save_view :
      (a b : Account) (s : S)
      → view s a.id ≡ some b
      → (t : S) × (r.save_account a b.version s ≡ gave (tt, t))
        × ((id : Text) → view t id ≡ (if text_eq a.id id then some a else view s id))

abbrev pub account_view : MemoryState → Text → Option Account
account_view s id = find id s.accounts

get_held_lem :
    (id : Text) (a : Account) (s : MemoryState)
    → account_view s id ≡ some a
    → memory_accounts.get_account_for_update id s ≡ gave (a, s)
unfolding memory_accounts row_of
get_held_lem id a s h = ground arith

get_absent_lem :
    (id : Text) (s : MemoryState)
    → account_view s id ≡ none
    → memory_accounts.get_account_for_update id s ≡ refused (store_fault not_found)
unfolding memory_accounts row_of
get_absent_lem id s h = ground arith

insert_held_lem :
    (a b : Account) (s : MemoryState)
    → account_view s a.id ≡ some b
    → memory_accounts.insert_account a s ≡ refused (store_fault duplicate)
unfolding memory_accounts memory_insert_account
insert_held_lem a b s h = ground arith

account_named-find :
    (id : Text) (b : Account) (rows : List (Text × Account))
    → find id rows ≡ some b
    → (a : Account) × (account_named b.normalized_login_name rows ≡ some a)
unfolding find account_named
account_named-find id b [] h = ground arith
account_named-find id b ((key, c) ∷ rows) h =
    elim (Bool-cases (text_eq c.normalized_login_name b.normalized_login_name)) [
      | inl same ↦ (c, ground arith)
      | inr other ↦
          let further : find id rows ≡ some b =
            ground (arith, text_eq_iff c.normalized_login_name b.normalized_login_name) in
          let (a, found) = account_named-find id b rows further in (a, ground arith)
    ]

account_named_lem :
    (name : Text) (a : Account) (rows : List (Text × Account))
    → account_named name rows ≡ some a
    → a.normalized_login_name ≡ name
unfolding account_named
account_named_lem name a [] h = ground arith
account_named_lem name a ((key, c) ∷ rows) h =
    ground (arith, text_eq_iff c.normalized_login_name name, account_named_lem name a rows)

insert_taken_lem :
    (id : Text) (a b : Account) (s : MemoryState)
    → account_view s id ≡ some b
    → b.normalized_login_name ≡ a.normalized_login_name
    → memory_accounts.insert_account a s ≡ refused (store_fault duplicate)
unfolding memory_accounts memory_insert_account
insert_taken_lem id a b s h same =
    let (c, named) = account_named-find id b s.accounts h in
    let taken : account_named a.normalized_login_name s.accounts ≡ some c =
      ap (λ n. account_named n s.accounts) (sym same) ∙ named in
    ground arith

insert_free_lem :
    (a : Account) (s : MemoryState)
    → account_view s a.id ≡ none
    → memory_accounts.find_account_by_login_name a.normalized_login_name s
      ≡ refused (store_fault not_found)
    → (t : MemoryState) × (memory_accounts.insert_account a s ≡ gave (tt, t))
unfolding memory_accounts memory_insert_account row_of
insert_free_lem a s absent free = (
  record s { accounts = put a.id a s.accounts },
  elim (Option-cases (account_named a.normalized_login_name s.accounts)) [
    | inl unnamed ↦ ground arith
    | inr (b, named) ↦ ground arith
  ],
)

name_found_lem :
    (name : Text) (a : Account) (s t : MemoryState)
    → memory_accounts.find_account_by_login_name name s ≡ gave (a, t)
    → (a.normalized_login_name ≡ name) × (t ≡ s)
unfolding memory_accounts row_of
name_found_lem name a s t h = elim (Option-cases (account_named name s.accounts)) [
  | inl unnamed ↦ ground arith
  | inr (b, named) ↦ (ground (arith, account_named_lem name b s.accounts), ground arith)
]

name_known_lem :
    (id : Text) (b : Account) (s : MemoryState)
    → account_view s id ≡ some b
    → (a : Account) × (memory_accounts.find_account_by_login_name b.normalized_login_name s
        ≡ gave (a, s))
unfolding memory_accounts row_of
name_known_lem id b s h = let (a, named) = account_named-find id b s.accounts h in (a, ground arith)

insert_view_lem :
    (a : Account) (s t : MemoryState)
    → memory_accounts.insert_account a s ≡ gave (tt, t)
    → (id : Text) → account_view t id ≡ (if text_eq a.id id then some a else account_view s id)
unfolding memory_accounts memory_insert_account
insert_view_lem a s t h id =
    let rows : t.accounts ≡ put a.id a s.accounts = ground arith in
    rw rows (find-put a.id id a s.accounts)

save_absent_lem :
    (a : Account) (v : Version) (s : MemoryState)
    → account_view s a.id ≡ none
    → memory_accounts.save_account a v s ≡ refused (store_fault not_found)
unfolding memory_accounts memory_save_account save_versioned
save_absent_lem a v s h = ground arith

save_stale_lem :
    (a b : Account) (v : Version) (s : MemoryState)
    → account_view s a.id ≡ some b
    → b.version ≢ v
    → memory_accounts.save_account a v s ≡ refused (store_fault version_conflict)
unfolding memory_accounts memory_save_account save_versioned
save_stale_lem a b v s h other = ground (arith, eq_ℤ_iff b.version v)

save_view_lem :
    (a b : Account) (s : MemoryState)
    → account_view s a.id ≡ some b
    → (t : MemoryState) × (memory_accounts.save_account a b.version s ≡ gave (tt, t))
      × ((id : Text) → account_view t id ≡ (if text_eq a.id id then some a else account_view s id))
unfolding memory_accounts memory_save_account save_versioned
save_view_lem a b s h = (
  record s { accounts = put a.id a s.accounts },
  ground (arith, eq_ℤ_iff b.version b.version),
  λ id. find-put a.id id a s.accounts,
)

-- The accounts of the store in memory keep the contract of the port, under the map of the rows by id.
pub memory_accounts-AccountLaws : AccountLaws memory_accounts account_view
memory_accounts-AccountLaws = record {
  get_held = get_held_lem;
  get_absent = get_absent_lem;
  insert_held = insert_held_lem;
  insert_taken = insert_taken_lem;
  insert_free = insert_free_lem;
  name_found = name_found_lem;
  name_known = name_known_lem;
  insert_view = insert_view_lem;
  save_absent = save_absent_lem;
  save_stale = save_stale_lem;
  save_view = save_view_lem;
}

-- The contract of `AccountRepository`: that of its accounts, of its sessions and of its reset links.
pub record AccountContract {S : Type 0} (r : AccountRepository S)
    (accounts : S → Text → Option Account) (sessions : S → Text → Option SessionState)
    (tokens : S → Text → Option AdminResetToken) : Type 0 where
  pub of_accounts : AccountLaws r accounts
  pub of_sessions : SessionLaws r sessions
  pub of_tokens : ResetTokenLaws r tokens
