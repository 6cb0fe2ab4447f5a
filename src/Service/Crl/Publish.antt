-- ===== src/Service/Crl/Publish.antt =====
-- internal/app/service/crl.go: `Publish`, with the transactions `reserveSnapshot` and `finalizePublish`.
use cert_me.Prelude.{Bool, [], false, if◌then◌else◌, not, true, ◌||◌, ◌∷◌}
use cert_me.App.{
  conflict_kind, domain_fault, forbidden_kind, from_domain_error, new_app_error, unavailable_kind,
  validation_kind, with_public_field, wrap_app_error,
}
use cert_me.Authority.{Authority, can_sign_crl}
use cert_me.Certificate.Issuance.{Certificate}
use cert_me.Errors.{err, ok}
use cert_me.Prelude.Text.{Text, is_empty, text_eq}
use cert_me.Revocation.Crl.{CrlState, can_publish, mark_published, reserve_next}
use cert_me.Service.{RequestMeta, request_canceled}
use cert_me.Service.Callers.{can, crl_publish, is_internal}
use cert_me.Service.Crl.{
  CrlReservation, PublicationResult, PublishCalls, SignedCrl, document_of, finished_job,
  is_ca_certificate, is_conflict, is_running, needs_followup, publish_event, signing_purpose,
  truncate_to_second,
}
use cert_me.Service.Revoking.{LedgerPorts, crl_dedup_key}
use cert_me.Store.{
  Reply, Tx, from_domain, gave, give, given, or_absent, or_store_error, refuse, refuse_if, refused,
  when, write, ◌>>=◌, ◌>>◌,
}
use cert_me.Store.Accounts.{InstallationRepository, new_authorities_audit_scope}
use cert_me.Store.Pki.{CaKeyGeneration, Job}
use cert_me.Values.Ids.{check_id}
use cert_me.Values.Instant.{add, is_zero}

module _ {S : Type 0} (ports : LedgerPorts S) where
  -- `loadCRLSigningAuthority`
  unfoldable pub load_crl_signing_authority : Text → Tx S (Authority × CaKeyGeneration)
  load_crl_signing_authority key_generation_id = do
    generation ←
        or_absent (ports.pki.get_ca_key_generation key_generation_id)
          (with_public_field "ca_key_generation_id" key_generation_id
            (new_app_error unavailable_kind "crl_ca_key_generation_missing"))
          "crl_ca_key_generation_read_failed"
    refuse_if (not (is_zero generation.key_destroyed_at))
        (new_app_error forbidden_kind "crl_signing_key_destroyed")
    authority ←
        or_absent (ports.pki.get_issuer_for_update generation.authority_id)
          (new_app_error unavailable_kind "crl_authority_missing") "crl_authority_read_failed"
    give (authority, generation)

  -- The certificate of the signer in `reserveSnapshot`.
  unfoldable pub load_signing_certificate : Text → Text → Tx S Certificate
  load_signing_certificate certificate_id key_material_id = do
    refuse_if (is_empty certificate_id)
        (new_app_error unavailable_kind "crl_signing_certificate_missing")
    certificate ←
        or_absent (ports.pki.get_certificate certificate_id)
          (new_app_error unavailable_kind "crl_signing_certificate_missing")
          "crl_signing_certificate_read_failed"
    refuse_if
        (not (is_ca_certificate certificate.kind)
          || not (text_eq certificate.key_material_id key_material_id))
        (new_app_error unavailable_kind "crl_signing_certificate_mismatch")
    give certificate

  -- `reserveSnapshot`: the transaction.
  unfoldable pub reserve_snapshot_tx :
      InstallationRepository S → PublishCalls → Text → Tx S CrlReservation
  reserve_snapshot_tx installations calls key_generation_id = do
    state ←
        or_absent (ports.crls.get_state_for_update key_generation_id)
          (with_public_field "ca_key_generation_id" key_generation_id
            (new_app_error validation_kind "crl_state_missing"))
          "crl_state_read_failed"
    signer ← load_crl_signing_authority key_generation_id
    from_domain (can_sign_crl signer.0 calls.reserve_now)
    ca_key ←
        or_store_error
          (ports.pki.get_encrypted signer.1.key_material_id (signing_purpose signer.0.kind))
          "crl_signing_secret_read_failed"
    certificate ← load_signing_certificate state.signing_ca_certificate_id signer.1.key_material_id
    settings ←
        or_absent installations.get_settings
          (new_app_error conflict_kind "crl_settings_not_configured") "crl_settings_read_failed"
    schedule ← given (calls.decode settings)
    revoked ←
        or_store_error (ports.revocations.list_by_issuer key_generation_id)
          "crl_revocation_list_failed"
    or_store_error (ports.crls.save_state (reserve_next state).1 state.version)
        "crl_state_reserve_failed"
    give (record {
      ca_key_generation_id = key_generation_id;
      key_material_id = signer.1.key_material_id;
      issuer_certificate = certificate;
      number = (reserve_next state).0;
      this_update = truncate_to_second calls.reserve_now;
      next_update = add (truncate_to_second calls.reserve_now) schedule.validity;
      covered_generation = (reserve_next state).1.revocation_generation;
      revoked = revoked;
      ca_key = ca_key;
      next_publish_at = add calls.reserve_now schedule.interval;
    })

  -- Whether the signed document becomes the published one: the state behind that decision.
  unfoldable pub publish_document : CrlState → Text → CrlReservation → Tx S (CrlState × Bool)
  publish_document state document_id r = elim (can_publish state r.number r.covered_generation) [
    | ok _ ↦ (do
      marked_state ←
          from_domain
            (mark_published state document_id r.number r.covered_generation r.next_publish_at)
      or_store_error (ports.crls.save_state marked_state state.version) "crl_state_publish_failed"
      give (marked_state, true))
    | err e ↦
        if is_conflict e then give (state, false) else refuse (from_domain_error (domain_fault e))
  ]

  -- `finalizePublish` from the document on, for the rows that it has read.
  unfoldable pub record_publication :
      PublishCalls
      → Text
      → CrlReservation
      → SignedCrl
      → CrlState
      → Authority × CaKeyGeneration
      → Job
      → Text
      → Tx S PublicationResult
  record_publication calls client_ip r signed state signer job document_id = do
    or_store_error (ports.crls.insert_document (document_of document_id r signed))
        "crl_document_store_failed"
    decided ← publish_document state document_id r
    when (is_running job.state) (
        or_store_error
          (ports.jobs.save_job (finished_job job (needs_followup decided.0) calls.publish_now)
            job.version)
          "crl_job_save_failed")
    event_id ← ports.new_uuid
    or_store_error
        (ports.audit.append_event (publish_event event_id client_ip calls.publish_now r decided.1)
          (new_authorities_audit_scope (signer.1.authority_id ∷ [])))
        "crl_audit_failed"
    give (record {
      ca_key_generation_id = r.ca_key_generation_id;
      document_id = document_id;
      number = r.number;
      covered_generation = r.covered_generation;
      published = decided.1;
      followup_required = needs_followup decided.0;
    })

  -- `finalizePublish`: the transaction.
  unfoldable pub finalize_publish_tx :
      PublishCalls → Text → Text → CrlReservation → SignedCrl → Tx S PublicationResult
  finalize_publish_tx calls client_ip job_id r signed = do
    state ←
        or_store_error (ports.crls.get_state_for_update r.ca_key_generation_id)
          "crl_state_read_failed"
    signer ← load_crl_signing_authority r.ca_key_generation_id
    from_domain (can_sign_crl signer.0 calls.publish_now)
    job ←
        or_absent (ports.jobs.get_job_for_update job_id)
          (with_public_field "job_id" job_id (new_app_error validation_kind "crl_job_not_found"))
          "crl_job_read_failed"
    refuse_if (not (text_eq job.dedup_key (crl_dedup_key r.ca_key_generation_id)))
        (new_app_error validation_kind "crl_job_mismatch")
    document_id ← ports.new_uuid
    from_domain (check_id document_id)
    record_publication calls client_ip r signed state signer job document_id

  -- `Publish` from its reservation on: `late` is the state that the second transaction finds when other
  -- requests have committed during the signing.
  unfoldable pub sign_and_publish :
      PublishCalls → Text → Text → CrlReservation → S → Reply PublicationResult × S
  sign_and_publish calls client_ip job_id r late = elim (calls.sign r) [
    | refused e ↦ (refused (wrap_app_error unavailable_kind "crl_sign_failed" e), late)
    | gave signed ↦ write (finalize_publish_tx calls client_ip job_id r signed) late
  ]

  -- `Publish` of a command that `Validate` accepts, with what others do in between.
  unfoldable pub publish :
      InstallationRepository S
      → RequestMeta
      → Text
      → Text
      → PublishCalls
      → (S → S)
      → S
      → Reply PublicationResult × S
  publish installations meta job_id key_generation_id calls others s =
      if not (is_internal meta.principal) || not (can meta.principal crl_publish)
      then (refused (new_app_error forbidden_kind "crl_publish_requires_internal_operation"), s)
      else if calls.canceled
      then (refused request_canceled, s)
      else (let (reservation, t) =
            write (reserve_snapshot_tx installations calls key_generation_id) s in
          elim reservation [
            | refused e ↦ (refused e, t)
            | gave r ↦ sign_and_publish calls meta.client_ip job_id r (others t)
          ])
