-- ===== src/Service/Revoking/Batch.antt =====
-- internal/app/service/revocations.go: `applyRevocations` in the stores of its transaction.
use cert_me.Prelude.{
  List, Option, [], false, if◌then◌else◌, length, none, not, some, true, ◌+◌, ◌∷◌,
}
use cert_me.App.{
  new_app_error, unavailable_kind, validation_kind, with_public_field, wrap_app_error,
}
use cert_me.Prelude.Int.{pos, ℤ}
use cert_me.Prelude.Text.{Text, bytes, is_empty}
use cert_me.Revocation.{Revocation, merge, new_revocation, stamp_change_generation}
use cert_me.Revocation.Crl.{CrlState, bump_revocation_generation}
use cert_me.Service.Revoking.{
  LedgerPorts, PendingRevocation, RevocationChange, RevocationMeta, RevocationOutcome, changes_of,
  check_changes, crl_dedup_key, crl_payload, facts_of_change, issuer_order, revocation_event,
  validate_meta,
}
use cert_me.Store.{
  Tx, from_domain, give, if_present, or_absent, or_absent_wrapped, or_store_error, refuse,
  refuse_if, ◌>>=◌, ◌>>◌,
}
use cert_me.Store.Accounts.{new_authorities_audit_scope}
use cert_me.Values.Ids.{check_id}

module _ {S : Type 0} (ports : LedgerPorts S) where
  -- The answer of `resolveChange` to a row that is there, or is not.
  unfoldable pub resolve_found :
      RevocationChange → Option Revocation → Tx S (Option PendingRevocation)
  resolve_found change (some existing) = do
    joined ← from_domain (merge existing (facts_of_change change))
    give (
        if joined.1
        then some (record {
          change = change;
          revocation = joined.0;
          expected_version = existing.version;
          is_new = false;
        })
        else none)
  resolve_found change none = do
    id ← ports.new_uuid
    from_domain (check_id id)
    created ← from_domain (new_revocation (record (facts_of_change change) { id = id }))
    give (
        some (record {
          change = change;
          revocation = created;
          expected_version = pos 0;
          is_new = true;
        }))

  unfoldable pub resolve_change : RevocationChange → Tx S (Option PendingRevocation)
  resolve_change change = do
    existing ←
        if_present (ports.revocations.find_for_update change.issuer_id change.serial)
          "revocation_read_failed"
    resolve_found change existing

  -- The first loop of `applyIssuerBatch`.
  unfoldable pub resolve_changes : List RevocationChange → Tx S (List PendingRevocation)
  resolve_changes [] = give []
  resolve_changes (change ∷ changes) = do
    resolved ← resolve_change change
    rest ← resolve_changes changes
    give (elim resolved [ none ↦ rest | some p ↦ p ∷ rest ])

  -- The authority under which `appendRevocationAudit` makes the event visible.
  unfoldable pub audit_authority : RevocationChange → Revocation → Tx S Text
  audit_authority change r =
      if not (is_empty change.authority_id) then give change.authority_id else (do
        generation ←
            or_absent (ports.pki.get_ca_key_generation r.issuer_id)
              (new_app_error unavailable_kind "revocation_audit_scope_missing")
              "revocation_audit_scope_read_failed"
        give generation.authority_id)

  unfoldable pub append_revocation_audit :
      Revocation → RevocationChange → RevocationMeta → Tx S (Unit {0})
  append_revocation_audit r change meta = do
    id ← ports.new_uuid
    authority ← audit_authority change r
    refuse_if (is_empty authority) (new_app_error unavailable_kind "revocation_audit_scope_missing")
    or_store_error
        (ports.audit.append_event (revocation_event id r meta)
          (new_authorities_audit_scope (authority ∷ [])))
        "revocation_audit_failed"

  -- Storing one stamped row.
  unfoldable pub store_revocation : PendingRevocation → Revocation → Tx S (Unit {0})
  store_revocation item entry =
      if item.is_new
      then or_store_error (ports.revocations.insert_revocation entry) "revocation_insert_failed"
      else or_store_error (ports.revocations.save_revocation entry item.expected_version)
          "revocation_save_failed"

  -- The second loop of `applyIssuerBatch`, with the rows that it stores.
  unfoldable pub store_pending :
      ℤ → RevocationMeta → List PendingRevocation → Tx S (List Revocation)
  store_pending generation meta [] = give []
  store_pending generation meta (item ∷ items) = do
    entry ← from_domain (stamp_change_generation item.revocation generation)
    store_revocation item entry
    append_revocation_audit entry item.change meta
    rest ← store_pending generation meta items
    give (entry ∷ rest)

  -- `recordCRLDemand`
  unfoldable pub record_crl_demand : Text → ℤ → Tx S (Unit {0})
  record_crl_demand issuer generation =
      or_store_error
        (ports.jobs.upsert_demand (crl_dedup_key issuer) (bytes "crl_publish") (pos 1)
          (crl_payload generation))
        "crl_demand_failed"

  -- The rest of `applyIssuerBatch` for the rows that change.
  unfoldable pub commit_batch :
      Text → RevocationMeta → CrlState → List PendingRevocation → Tx S (List Revocation × ℤ)
  commit_batch issuer meta state [] = give ([], pos 0)
  commit_batch issuer meta state (item ∷ items) = do
    stored ←
        store_pending (bump_revocation_generation state).revocation_generation meta (item ∷ items)
    or_store_error (ports.crls.save_state (bump_revocation_generation state) state.version)
        "revocation_crl_state_save_failed"
    record_crl_demand issuer (bump_revocation_generation state).revocation_generation
    give (stored, (bump_revocation_generation state).revocation_generation)

  -- `applyIssuerBatch`, with the rows that it stores in place of their number.
  unfoldable pub apply_issuer_batch :
      Text → List RevocationChange → RevocationMeta → Tx S (List Revocation × ℤ)
  apply_issuer_batch issuer changes meta = do
    state ←
        or_absent_wrapped (ports.crls.get_state_for_update issuer)
          (λ e.
            with_public_field "issuer" issuer
              (wrap_app_error validation_kind "revocation_issuer_unknown" e))
          "revocation_crl_state_read_failed"
    items ← resolve_changes changes
    commit_batch issuer meta state items

  -- `outcome.Changed += changed; outcome.Generations[issuer] = generation`
  unfoldable pub add_outcome : Text → List Revocation × ℤ → RevocationOutcome → RevocationOutcome
  add_outcome issuer ([], generation) outcome = outcome
  add_outcome issuer (r ∷ rows, generation) outcome = record {
    changed = length (r ∷ rows) + outcome.changed;
    generations = (issuer, generation) ∷ outcome.generations;
  }

  -- The loop over the issuers.
  unfoldable pub apply_issuers :
      List RevocationChange → RevocationMeta → List Text → Tx S RevocationOutcome
  apply_issuers changes meta [] = give (record { changed = 0; generations = [] })
  apply_issuers changes meta (issuer ∷ issuers) = do
    batch ← apply_issuer_batch issuer (changes_of issuer changes) meta
    rest ← apply_issuers changes meta issuers
    give (add_outcome issuer batch rest)

  -- `applyRevocations` behind its check of the batch.
  unfoldable pub apply_checked : List RevocationChange → RevocationMeta → Tx S RevocationOutcome
  apply_checked changes meta = elim (validate_meta meta) [
    | some e ↦ refuse e
    | none ↦ elim (check_changes changes) [
      | some e ↦ refuse e
      | none ↦ apply_issuers changes meta (issuer_order changes)
    ]
  ]

  unfoldable pub apply_revocations : List RevocationChange → RevocationMeta → Tx S RevocationOutcome
  apply_revocations [] meta = give (record { changed = 0; generations = [] })
  apply_revocations (change ∷ changes) meta = apply_checked (change ∷ changes) meta
