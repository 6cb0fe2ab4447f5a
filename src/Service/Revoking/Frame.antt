-- ===== src/Service/Revoking/Frame.antt =====
-- internal/app/service/revocations.go: `applyRevocations` raises no quantity of a state that its ports
-- do not raise.
-- The ports of `applyRevocations` raise no `size`: they store and read rows that it does not count.
use cert_me.Prelude.{
  Bool-cases, List, Option, Option-cases, [], arith, inl, inr, none, some, ℕ, ◌∷◌,
}
use cert_me.App.{new_app_error, unavailable_kind}
use cert_me.Prelude.Int.{pos, ℤ}
use cert_me.Prelude.Text.{Text, bytes, is_empty}
use cert_me.Revocation.{Revocation, merge, new_revocation, stamp_change_generation}
use cert_me.Revocation.Crl.{CrlState, bump_revocation_generation}
use cert_me.Service.Revoking.{
  LedgerPorts, PendingRevocation, RevocationChange, RevocationMeta, changes_of, check_changes,
  crl_dedup_key, crl_payload, facts_of_change, issuer_order, revocation_event, validate_meta,
}
use cert_me.Service.Revoking.Batch.{
  append_revocation_audit, apply_checked, apply_issuer_batch, apply_issuers, apply_revocations,
  audit_authority, commit_batch, record_crl_demand, resolve_change, resolve_changes, resolve_found,
  store_pending, store_revocation,
}
use cert_me.Store.{
  >>=-gave, Tx, from_domain, give, if_present, or_absent, or_absent_wrapped, or_absent_wrapped_lem,
  or_store_error, refuse_if, ◌>>=◌,
}
use cert_me.Store.Accounts.{AuditEvent, AuditScope, new_authorities_audit_scope}
use cert_me.Store.Frame.{
  Keeps, bind-Keeps, from_domain-Keeps, give-Keeps, if_present-Keeps, or_absent-Keeps,
  or_store_error-Keeps, refuse_if-Keeps, step-Keeps,
}
use cert_me.Values.Hex.{SerialNumber}
use cert_me.Values.Ids.{Version, check_id}

pub record LedgerKeeps {S : Type 0} (ports : LedgerPorts S) (size : S → ℕ) : Type 0 where
  pub state_read : (issuer : Text) → Keeps size (ports.crls.get_state_for_update issuer)
  pub state_saved : (c : CrlState) (v : Version) → Keeps size (ports.crls.save_state c v)
  pub row_read :
      (issuer : Text) (serial : SerialNumber)
      → Keeps size (ports.revocations.find_for_update issuer serial)
  pub row_inserted : (r : Revocation) → Keeps size (ports.revocations.insert_revocation r)
  pub row_saved :
      (r : Revocation) (v : Version) → Keeps size (ports.revocations.save_revocation r v)
  pub demanded :
      (dedup kind : Text) (version : ℤ) (payload : Text)
      → Keeps size (ports.jobs.upsert_demand dedup kind version payload)
  pub generation_read : (id : Text) → Keeps size (ports.pki.get_ca_key_generation id)
  pub audited :
      (event : AuditEvent) (scope : AuditScope) → Keeps size (ports.audit.append_event event scope)
  pub id_made : Keeps size ports.new_uuid

module _ {S : Type 0} (ports : LedgerPorts S) (size : S → ℕ) (keeps : LedgerKeeps ports size) where
  resolve_found-Keeps :
      (change : RevocationChange) (r : Option Revocation)
      → Keeps size (resolve_found ports change r)
  unfolding resolve_found
  resolve_found-Keeps change (some existing) =
      bind-Keeps size (from_domain (merge existing (facts_of_change change))) _
        (from_domain-Keeps size _) (λ joined. give-Keeps size _)
  resolve_found-Keeps change none = bind-Keeps size ports.new_uuid _ keeps.id_made (λ id.
      step-Keeps size (from_domain (check_id id)) _ (from_domain-Keeps size (check_id id)) (
        bind-Keeps size (from_domain (new_revocation (record (facts_of_change change) { id = id })))
          _ (from_domain-Keeps size _) (λ created. give-Keeps size _)))

  resolve_change-Keeps : (change : RevocationChange) → Keeps size (resolve_change ports change)
  unfolding resolve_change
  resolve_change-Keeps change =
      bind-Keeps size
        (if_present (ports.revocations.find_for_update change.issuer_id change.serial)
          "revocation_read_failed")
        (resolve_found ports change)
        (if_present-Keeps size (ports.revocations.find_for_update change.issuer_id change.serial)
          "revocation_read_failed" (keeps.row_read change.issuer_id change.serial))
        (resolve_found-Keeps change)

  resolve_changes-Keeps :
      (changes : List RevocationChange) → Keeps size (resolve_changes ports changes)
  unfolding resolve_changes
  resolve_changes-Keeps [] = give-Keeps size _
  resolve_changes-Keeps (change ∷ changes) =
      bind-Keeps size (resolve_change ports change) _ (resolve_change-Keeps change) (λ resolved.
        bind-Keeps size (resolve_changes ports changes) _ (resolve_changes-Keeps changes)
          (λ rest. give-Keeps size _))

  -- The read of `audit_authority`.
  abbrev authority_of : Revocation → Tx S Text
  authority_of r = do
    generation ←
        or_absent (ports.pki.get_ca_key_generation r.issuer_id)
          (new_app_error unavailable_kind "revocation_audit_scope_missing")
          "revocation_audit_scope_read_failed"
    give generation.authority_id

  looked_up : (r : Revocation) → Keeps size (authority_of r)
  looked_up r =
      bind-Keeps size
        (or_absent (ports.pki.get_ca_key_generation r.issuer_id)
          (new_app_error unavailable_kind "revocation_audit_scope_missing")
          "revocation_audit_scope_read_failed")
        _
        (or_absent-Keeps size (ports.pki.get_ca_key_generation r.issuer_id)
          (new_app_error unavailable_kind "revocation_audit_scope_missing")
          "revocation_audit_scope_read_failed" (keeps.generation_read r.issuer_id))
        (λ generation. give-Keeps size _)

  audit_authority-Keeps :
      (change : RevocationChange) (r : Revocation) → Keeps size (audit_authority ports change r)
  unfolding audit_authority
  audit_authority-Keeps change r s t a h = elim (Bool-cases (is_empty change.authority_id)) [
    | inl bare ↦ looked_up r s t a (ground arith)
    | inr named ↦ ground arith
  ]

  append_audit-Keeps :
      (r : Revocation) (change : RevocationChange) (meta : RevocationMeta)
      → Keeps size (append_revocation_audit ports r change meta)
  unfolding append_revocation_audit
  append_audit-Keeps r change meta = bind-Keeps size ports.new_uuid _ keeps.id_made (λ id.
      bind-Keeps size (audit_authority ports change r) _ (audit_authority-Keeps change r)
        (λ authority.
          step-Keeps size
            (refuse_if (is_empty authority)
              (new_app_error unavailable_kind "revocation_audit_scope_missing"))
            _
            (refuse_if-Keeps size (is_empty authority)
              (new_app_error unavailable_kind "revocation_audit_scope_missing"))
            (or_store_error-Keeps size
              (ports.audit.append_event (revocation_event id r meta)
                (new_authorities_audit_scope (authority ∷ [])))
              "revocation_audit_failed" (keeps.audited _ _))))

  store_revocation-Keeps :
      (item : PendingRevocation) (entry : Revocation)
      → Keeps size (store_revocation ports item entry)
  unfolding store_revocation
  store_revocation-Keeps item entry s t a h = elim (Bool-cases item.is_new) [
    | inl fresh_row ↦
        or_store_error-Keeps size (ports.revocations.insert_revocation entry)
          "revocation_insert_failed" (keeps.row_inserted entry) s t a (ground arith)
    | inr old_row ↦
        or_store_error-Keeps size (ports.revocations.save_revocation entry item.expected_version)
          "revocation_save_failed" (keeps.row_saved entry item.expected_version) s t a
          (ground arith)
  ]

  store_pending-Keeps :
      (generation : ℤ) (meta : RevocationMeta) (items : List PendingRevocation)
      → Keeps size (store_pending ports generation meta items)
  unfolding store_pending
  store_pending-Keeps generation meta [] = give-Keeps size _
  store_pending-Keeps generation meta (item ∷ items) =
      bind-Keeps size (from_domain (stamp_change_generation item.revocation generation)) _
        (from_domain-Keeps size (stamp_change_generation item.revocation generation))
        (λ entry.
          step-Keeps size (store_revocation ports item entry) _ (store_revocation-Keeps item entry)
            (step-Keeps size (append_revocation_audit ports entry item.change meta) _
              (append_audit-Keeps entry item.change meta)
              (bind-Keeps size (store_pending ports generation meta items) _
                (store_pending-Keeps generation meta items) (λ rest. give-Keeps size _))))

  demand-Keeps :
      (issuer : Text) (generation : ℤ) → Keeps size (record_crl_demand ports issuer generation)
  unfolding record_crl_demand
  demand-Keeps issuer generation =
      or_store_error-Keeps size
        (ports.jobs.upsert_demand (crl_dedup_key issuer) (bytes "crl_publish") (pos 1)
          (crl_payload generation))
        "crl_demand_failed" (keeps.demanded _ _ _ _)

  commit_batch-Keeps :
      (issuer : Text) (meta : RevocationMeta) (state : CrlState) (items : List PendingRevocation)
      → Keeps size (commit_batch ports issuer meta state items)
  unfolding commit_batch
  commit_batch-Keeps issuer meta state [] = give-Keeps size _
  commit_batch-Keeps issuer meta state (item ∷ items) =
      let bumped = bump_revocation_generation state in
      bind-Keeps size (store_pending ports bumped.revocation_generation meta (item ∷ items)) _
        (store_pending-Keeps bumped.revocation_generation meta (item ∷ items))
        (λ stored.
          step-Keeps size
            (or_store_error (ports.crls.save_state bumped state.version)
              "revocation_crl_state_save_failed")
            _
            (or_store_error-Keeps size (ports.crls.save_state bumped state.version)
              "revocation_crl_state_save_failed" (keeps.state_saved bumped state.version))
            (step-Keeps size (record_crl_demand ports issuer bumped.revocation_generation) _
              (demand-Keeps issuer bumped.revocation_generation) (give-Keeps size _)))

  issuer_batch-Keeps :
      (issuer : Text) (changes : List RevocationChange) (meta : RevocationMeta)
      → Keeps size (apply_issuer_batch ports issuer changes meta)
  unfolding apply_issuer_batch
  issuer_batch-Keeps issuer changes meta s t a h =
      let (state, s1, got, h1) =
        >>=-gave
          (or_absent_wrapped (ports.crls.get_state_for_update issuer) _
            "revocation_crl_state_read_failed")
          _ s t a h in
      let read_state =
        or_absent_wrapped_lem (ports.crls.get_state_for_update issuer) _ _ s s1 state got in
      let first = keeps.state_read issuer s s1 state read_state in
      let rest =
        bind-Keeps size (resolve_changes ports changes) (commit_batch ports issuer meta state)
          (resolve_changes-Keeps changes) (commit_batch-Keeps issuer meta state) s1 t a h1 in
      omega arith

  apply_issuers-Keeps :
      (changes : List RevocationChange) (meta : RevocationMeta) (issuers : List Text)
      → Keeps size (apply_issuers ports changes meta issuers)
  unfolding apply_issuers
  apply_issuers-Keeps changes meta [] = give-Keeps size _
  apply_issuers-Keeps changes meta (issuer ∷ issuers) =
      bind-Keeps size (apply_issuer_batch ports issuer (changes_of issuer changes) meta) _
        (issuer_batch-Keeps issuer (changes_of issuer changes) meta)
        (λ batch.
          bind-Keeps size (apply_issuers ports changes meta issuers) _
            (apply_issuers-Keeps changes meta issuers) (λ rest. give-Keeps size _))

  pub apply_revocations-Keeps :
      (changes : List RevocationChange) (meta : RevocationMeta)
      → Keeps size (apply_revocations ports changes meta)
  unfolding apply_revocations apply_checked
  apply_revocations-Keeps [] meta s t a h = give-Keeps size _ s t a h
  apply_revocations-Keeps (change ∷ changes) meta s t a h =
      elim (Option-cases (validate_meta meta)) [
        | inr (e, bad) ↦ ground arith
        | inl fine ↦ elim (Option-cases (check_changes (change ∷ changes))) [
          | inr (e, bad) ↦ ground arith
          | inl approved ↦
              apply_issuers-Keeps (change ∷ changes) meta (issuer_order (change ∷ changes)) s t a
                (ground arith)
        ]
      ]
