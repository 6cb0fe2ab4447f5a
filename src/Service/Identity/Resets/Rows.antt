-- ===== src/Service/Identity/Resets/Rows.antt =====
-- internal/app/service/identity.go over the store in memory: what the reads and writes of `CompleteReset`
-- leave of the accounts and the sessions.
use cert_me.Prelude.{List, Option-cases, String, ap, arith, inl, inr, some, ◌∙◌, ◌≡◌}
use cert_me.Identity.{Account}
use cert_me.Identity.ResetToken.{AdminResetToken}
use cert_me.Prelude.Text.{Text}
use cert_me.Service.{append_account_audit}
use cert_me.Store.{gave, if_present, if_present_lem, or_store_error, or_store_error_lem}
use cert_me.Store.Accounts.{AuditActorKind, AuditEvent, AuditScope}
use cert_me.Store.Memory.{
  MemoryState, by_index, memory_accounts, memory_audit, memory_save_reset_token, put_reset_token,
  request_keyed, row_of,
}
use cert_me.Store.Table.{find, pair_keyed, text_keyed}
use cert_me.Values.Hex.{TokenHash}
use cert_me.Values.Instant.{Instant}

-- The other rows of a step that does not touch the accounts and the sessions.
abbrev pub SameRows : MemoryState → MemoryState → Type 0
SameRows s t = (t.accounts ≡ s.accounts) × (t.sessions ≡ s.sessions)

pub token_saved_lem :
    (x : AdminResetToken) (code : String) (s t : MemoryState)
    → or_store_error (memory_accounts.save_reset_token x) code s ≡ gave (tt, t)
    → SameRows s t
unfolding or_store_error memory_accounts memory_save_reset_token put_reset_token
token_saved_lem x code s t h = (ground arith, ground arith)

pub appended_lem :
    (event : AuditEvent) (scope : AuditScope) (s t : MemoryState)
    → memory_audit.append_event event scope s ≡ gave (tt, t)
    → SameRows s t
unfolding memory_audit
appended_lem event scope s t h = (ground arith, ground arith)

pub audited_lem :
    (id : Text) (now : Instant) (client_ip : Text) (by : AuditActorKind) (actor : Text)
    (action kind : String) (target : Text) (s t : MemoryState)
    → append_account_audit memory_audit id now client_ip by actor action kind target s
      ≡ gave (tt, t)
    → SameRows s t
unfolding append_account_audit
audited_lem id now client_ip by actor action kind target s t h =
    appended_lem _ _ s t (or_store_error_lem (memory_audit.append_event _ _) _ s t tt h)

pub account_read :
    (id : Text) (a : Account) (code : String) (s t : MemoryState)
    → if_present (memory_accounts.get_account_for_update id) code s ≡ gave (some a, t)
    → (find id s.accounts ≡ some a) × (t ≡ s)
unfolding if_present memory_accounts row_of
account_read id a code s t h = elim (Option-cases (find id s.accounts)) [
  | inl gone ↦ ground arith
  | inr (b, found) ↦ (ground arith, ground arith)
]

pub index_read :
    {V : Type 0} (index : List (Text × Text)) (key : Text) (rows : List (Text × V)) (zero_row v : V)
    (s t : MemoryState)
    → by_index index key rows zero_row s ≡ gave (v, t)
    → t ≡ s
unfolding by_index
index_read index key rows zero_row v s t h = elim (Option-cases (find key index)) [
  | inl absent ↦ ground arith
  | inr (id, known) ↦ elim (Option-cases (find id rows)) [
    | inl absent ↦ ground arith
    | inr (w, found) ↦ ground arith
  ]
]

pub token_read :
    (hash : TokenHash) (token : AdminResetToken) (code : String) (s t : MemoryState)
    → if_present (memory_accounts.get_reset_token hash) code s ≡ gave (some token, t)
    → (memory_accounts.get_reset_token hash s ≡ gave (token, s)) × (t ≡ s)
unfolding memory_accounts
token_read hash token code s t h =
    let read_row = if_present_lem (memory_accounts.get_reset_token hash) code s t token h in
    let same = index_read _ _ _ _ token s t read_row in
    (read_row ∙ ap (λ y. gave (token, y)) same, same)
