-- ===== src/Service/Revoking/Stamped.antt =====
-- internal/app/service/revocations.go, `applyIssuerBatch`: the generation that a batch leaves.
use cert_me.Prelude.{List, [], false, true, ◌∷◌, ◌≡◌, ◌⊎◌}
use cert_me.Errors.{ok}
use cert_me.Prelude.Int.{ℤ}
use cert_me.Prelude.Text.{Text}
use cert_me.Revocation.{Revocation, stamp_change_generation}
use cert_me.Revocation.Crl.{CrlState, bump_revocation_generation}
use cert_me.Service.Revoking.{LedgerPorts, PendingRevocation, RevocationChange, RevocationMeta}
use cert_me.Service.Revoking.Batch.{append_revocation_audit, record_crl_demand, resolve_changes}
use cert_me.Store.{gave}

-- How one row of a batch is stored: a new one is inserted, another one replaces the version that was
-- read.
abbrev pub StoresRow :
    {S : Type 0} → LedgerPorts S → PendingRevocation → Revocation → S → S → Type 0
StoresRow ports item entry s t =
    ((item.is_new ≡ true) × (ports.revocations.insert_revocation entry s ≡ gave (tt, t)))
    ⊎ ((item.is_new ≡ false)
        × (ports.revocations.save_revocation entry item.expected_version s ≡ gave (tt, t)))

-- A run that stores the rows of a batch under one generation: each is stamped with it, stored, and
-- audited, in their order, and nothing else happens.
pub data StoredRows {S : Type 0} (ports : LedgerPorts S) (generation : ℤ) (meta : RevocationMeta)
    : List PendingRevocation → List Revocation → S → S → Type 0 where
  none_left : {s t : S} → t ≡ s → StoredRows ports generation meta [] [] s t
  row_stored :
      {item : PendingRevocation} {items : List PendingRevocation} {rows : List Revocation} {s t : S}
      (entry : Revocation) (after_row after_audit : S)
      → stamp_change_generation item.revocation generation ≡ ok entry
      → entry.change_generation ≡ generation
      → StoresRow ports item entry s after_row
      → append_revocation_audit ports entry item.change meta after_row ≡ gave (tt, after_audit)
      → StoredRows ports generation meta items rows after_audit t
      → StoredRows ports generation meta (item ∷ items) (entry ∷ rows) s t

-- What a batch that changes the ledger does: it reads the issuer's state and finds the rows that
-- change; it stores these rows under one generation, the next one of the issuer; it stores the issuer's
-- state with that generation against the version that was read; and then it makes a demand for a CRL
-- that covers it.
pub record Covered {S : Type 0} (ports : LedgerPorts S) (issuer : Text)
    (changes : List RevocationChange) (meta : RevocationMeta) (rows : List Revocation)
    (generation : ℤ) (s t : S) : Type 0 where
  pub state : CrlState
  pub first : PendingRevocation
  pub others : List PendingRevocation
  pub after_read : S
  pub resolved : S
  pub before_save : S
  pub after_save : S
  pub state_read : ports.crls.get_state_for_update issuer s ≡ gave (state, after_read)
  pub rows_resolved : resolve_changes ports changes after_read ≡ gave (first ∷ others, resolved)
  pub next_generation : generation ≡ (bump_revocation_generation state).revocation_generation
  pub rows_stored : StoredRows ports generation meta (first ∷ others) rows resolved before_save
  pub state_saved :
      ports.crls.save_state (bump_revocation_generation state) state.version before_save
      ≡ gave (tt, after_save)
  pub demanded : record_crl_demand ports issuer generation after_save ≡ gave (tt, t)

-- What a batch without a change does: it reads the issuer's state and finds that no row changes. The
-- reads are all that happens to the store.
pub record Unchanged {S : Type 0} (ports : LedgerPorts S) (issuer : Text)
    (changes : List RevocationChange) (rows : List Revocation) (s t : S) : Type 0 where
  pub state : CrlState
  pub after_read : S
  pub state_read : ports.crls.get_state_for_update issuer s ≡ gave (state, after_read)
  pub none_resolved : resolve_changes ports changes after_read ≡ gave ([], t)
  pub no_rows : rows ≡ []
