-- ===== src/Service/Crl/Finalizing.antt =====
-- internal/app/service/crl.go, `finalizePublish`: what a run that commits has checked and done.
use cert_me.Prelude.{Bool, [], false, true, ◌∷◌, ◌≡◌, ◌⊎◌}
use cert_me.Authority.{Authority, can_sign_crl}
use cert_me.Errors.{ok}
use cert_me.Prelude.Text.{Text, text_eq}
use cert_me.Revocation.Crl.{CrlState}
use cert_me.Service.Crl.{
  CrlReservation, PublicationResult, PublishCalls, SignedCrl, document_of, finished_job, is_running,
  needs_followup, publish_event,
}
use cert_me.Service.Crl.Publish.{load_crl_signing_authority}
use cert_me.Service.Crl.Published.{Advanced, Superseded}
use cert_me.Service.Revoking.{LedgerPorts, crl_dedup_key}
use cert_me.Store.{gave}
use cert_me.Store.Accounts.{new_authorities_audit_scope}
use cert_me.Store.Pki.{CaKeyGeneration, Job}

-- What `finalizePublish` does with the rows that it has read: the document row is stored on either
-- outcome.
pub record Recorded {S : Type 0} (ports : LedgerPorts S) (calls : PublishCalls) (client_ip : Text)
    (r : CrlReservation) (signed : SignedCrl) (state : CrlState)
    (signer : Authority × CaKeyGeneration) (job : Job) (document_id : Text) (p : PublicationResult)
    (s t : S) : Type 0 where
  pub after : CrlState
  pub published : Bool
  pub event_id : Text
  pub after_insert : S
  pub decided : S
  pub after_job : S
  pub before_audit : S
  pub document_kept :
      ports.crls.insert_document (document_of document_id r signed) s ≡ gave (tt, after_insert)
  pub outcome :
      ((published ≡ true) × Advanced ports state after document_id r after_insert decided)
      ⊎ ((published ≡ false) × Superseded state r × (after ≡ state) × (decided ≡ after_insert))
  pub job_ended :
      ((is_running job.state ≡ true)
        × (ports.jobs.save_job
              (finished_job job (needs_followup after) calls.publish_now)
              job.version
              decided
            ≡ gave (tt, after_job)))
      ⊎ ((is_running job.state ≡ false) × (after_job ≡ decided))
  pub event_named : ports.new_uuid after_job ≡ gave (event_id, before_audit)
  pub audited :
      ports.audit.append_event
        (publish_event event_id client_ip calls.publish_now r published)
        (new_authorities_audit_scope (signer.1.authority_id ∷ []))
        before_audit
      ≡ gave (tt, t)
  pub reported : p ≡ record {
    ca_key_generation_id = r.ca_key_generation_id;
    document_id = document_id;
    number = r.number;
    covered_generation = r.covered_generation;
    published = published;
    followup_required = needs_followup after;
  }

-- What `finalizePublish` does when it commits.
pub record Finalized {S : Type 0} (ports : LedgerPorts S) (calls : PublishCalls) (client_ip : Text)
    (job_id : Text) (r : CrlReservation) (signed : SignedCrl) (p : PublicationResult) (s t : S)
    : Type 0 where
  pub state : CrlState
  pub signer : Authority × CaKeyGeneration
  pub job : Job
  pub document_id : Text
  pub after_read : S
  pub after_signer : S
  pub after_job_read : S
  pub before_insert : S
  pub state_read :
      ports.crls.get_state_for_update r.ca_key_generation_id s ≡ gave (state, after_read)
  pub signer_read :
      load_crl_signing_authority ports r.ca_key_generation_id after_read
      ≡ gave (signer, after_signer)
  pub may_sign : can_sign_crl signer.0 calls.publish_now ≡ ok tt
  pub job_read : ports.jobs.get_job_for_update job_id after_signer ≡ gave (job, after_job_read)
  pub job_of_key : text_eq job.dedup_key (crl_dedup_key r.ca_key_generation_id) ≡ true
  pub document_named : ports.new_uuid after_job_read ≡ gave (document_id, before_insert)
  pub recorded :
      Recorded ports calls client_ip r signed state signer job document_id p before_insert t
