-- ===== src/Service/Crl.antt =====
-- internal/app/service/crl.go: `RequestPublication` and `Publish`, whose two transactions reserve a
-- number with a snapshot of the ledger and store what was signed of it. `DecodeSettingsV1` and
-- `SignCRL` are ports: what they gave is an argument.
pub mod Publish
pub mod Published
pub mod Finalizing
use cert_me.Prelude.{Bool, List, [], false, if◌then◌else◌, not, true, ◌∷◌}
use cert_me.App.{
  forbidden_kind, new_app_error, unavailable_kind, validation_kind, with_public_field,
}
use cert_me.App.Throttle.{format_int, instant_from_time}
use cert_me.Authority.{Authority, AuthorityKind, authority_kind_eq, bootstrap}
use cert_me.Calendar.{floor_mod}
use cert_me.Certificate.Issuance.{Certificate, CertificateKind, ca_certificate}
use cert_me.Errors.{Failure, conflict, unwrap}
use cert_me.Prelude.Int.{ltb_ℤ, pos, sub64, ℤ}
use cert_me.Prelude.Text.{Text, bytes, is_empty}
use cert_me.Revocation.{Revocation}
use cert_me.Revocation.Crl.{CrlState}
use cert_me.Service.{Authorizer, RequestMeta, authorize}
use cert_me.Service.Auth.{require_current_auth}
use cert_me.Service.Callers.{is_admin, principal_account}
use cert_me.Service.Revoking.{LedgerPorts, crl_dedup_key}
use cert_me.Service.Revoking.Batch.{record_crl_demand}
use cert_me.Store.{
  Reply, Tx, give, or_absent, or_store_error, refuse_if, refused, write, ◌>>=◌, ◌>>◌,
}
use cert_me.Store.Accounts.{
  AccountRepository, AuditEvent, Settings, by_account, by_system, new_authorities_audit_scope,
  success,
}
use cert_me.Store.Pki.{CrlDocument, Job, JobState, job_pending, job_running, job_succeeded}
use cert_me.Values.Hex.{CrlNumber, Fingerprint}
use cert_me.Values.Instant.{Duration, Instant}
use cert_me.Values.Keys.{EncryptedSecret, SecretPurpose, bootstrap_ca, ca_signing}

-- What `DecodeSettingsV1` gave, its seconds as durations.
pub record CrlSchedule : Type 0 where
  pub validity : Duration
  pub interval : Duration

-- `CRLSnapshot`, with the signing key and the time of the next publication of `crlReservation`.
pub record CrlReservation : Type 0 where
  pub ca_key_generation_id : Text
  pub key_material_id : Text
  pub issuer_certificate : Certificate
  pub number : CrlNumber
  pub this_update : Instant
  pub next_update : Instant
  pub covered_generation : ℤ
  pub revoked : List Revocation
  pub ca_key : EncryptedSecret
  pub next_publish_at : Instant

-- `SignedCRL`
pub record SignedCrl : Type 0 where
  pub der : Text
  pub der_sha256 : Fingerprint

pub record PublicationResult : Type 0 where
  pub ca_key_generation_id : Text
  pub document_id : Text
  pub number : CrlNumber
  pub covered_generation : ℤ
  pub published : Bool
  pub followup_required : Bool

-- What the ports gave to a run of `Publish`.
pub record PublishCalls : Type 0 where
  pub canceled : Bool
  pub decode : Settings → Reply CrlSchedule
  pub sign : CrlReservation → Reply SignedCrl
  pub reserve_now : Instant
  pub publish_now : Instant

-- `now.Time().Truncate(time.Second)`
unfoldable pub truncate_to_second : Instant → Instant
truncate_to_second now = instant_from_time (sub64 now.micros (pos (floor_mod now.micros 1_000_000)))

-- The purpose of `readCRLSigningSecret`.
unfoldable pub signing_purpose : AuthorityKind → SecretPurpose
signing_purpose kind = if authority_kind_eq kind bootstrap then bootstrap_ca else ca_signing

abbrev pub is_ca_certificate : CertificateKind → Bool
is_ca_certificate ca_certificate = true
is_ca_certificate _ = false

abbrev pub is_running : JobState → Bool
is_running job_running = true
is_running _ = false

-- The job of a publication that is through.
unfoldable pub finished_job : Job → Bool → Instant → Job
finished_job job true now = record job { state = job_pending; available_at = now }
finished_job job false now = record job { state = job_succeeded; last_error_code = [] }

-- `state.RevocationGeneration() > state.PublishedGeneration()`
unfoldable pub needs_followup : CrlState → Bool
needs_followup state = ltb_ℤ state.published_generation state.revocation_generation

abbrev pub is_conflict : Failure → Bool
is_conflict e = elim (unwrap e) [ conflict ↦ true | _ ↦ false ]

unfoldable pub document_of : Text → CrlReservation → SignedCrl → CrlDocument
document_of id r signed = record {
  id = id;
  ca_key_generation_id = r.ca_key_generation_id;
  number = r.number;
  der_sha256 = signed.der_sha256;
  der = signed.der;
  this_update = r.this_update;
  next_update = r.next_update;
  covered_generation = r.covered_generation;
  origin = "generated";
  source_import_id = [];
}

unfoldable pub publish_event : Text → Text → Instant → CrlReservation → Bool → AuditEvent
publish_event id client_ip now r published = record {
  id = id;
  occurred_at = now;
  actor_kind = by_system;
  actor_id = [];
  token_id = [];
  action = "crl.publish";
  target_type = "ca_key_generation";
  target_id = r.ca_key_generation_id;
  client_ip = client_ip;
  result = success;
  details =
      ("number", r.number.hex)
      ∷ ("covered_generation", format_int r.covered_generation)
      ∷ ("published", if published then bytes "true" else bytes "false")
      ∷ [];
}

unfoldable pub request_event : Text → RequestMeta → Instant → Text → AuditEvent
request_event id meta now key_generation = record {
  id = id;
  occurred_at = now;
  actor_kind = by_account;
  actor_id = principal_account meta.principal;
  token_id = [];
  action = "crl.request_publication";
  target_type = "ca_key_generation";
  target_id = key_generation;
  client_ip = meta.client_ip;
  result = success;
  details = [];
}

module _ {S : Type 0} (ports : LedgerPorts S) where
  -- `authorityScopeFromRow`
  unfoldable pub authority_scope : Authority → Tx S Text
  authority_scope authority = do
    refuse_if (is_empty authority.id) (new_app_error unavailable_kind "authority_scope_empty")
    give authority.id

  -- `RequestPublication`: the transaction.
  unfoldable pub request_publication_tx :
      AccountRepository S → Authorizer → RequestMeta → Text → Instant → Instant → Tx S Text
  request_publication_tx accounts authorizer meta authority_id auth_now now = do
    require_current_auth accounts meta.principal auth_now
    authority ←
        or_absent (ports.pki.get_issuer_for_update authority_id)
          (with_public_field "authority_id" authority_id
            (new_app_error validation_kind "crl_authority_not_found"))
          "crl_authority_read_failed"
    scope ← authority_scope authority
    authorize authorizer meta.principal "CRL.RequestPublication" (scope ∷ [])
    state ←
        or_absent (ports.crls.get_state_for_update authority.key_generation_id)
          (with_public_field "authority_id" authority_id
            (new_app_error unavailable_kind "crl_state_missing"))
          "crl_state_read_failed"
    record_crl_demand ports authority.key_generation_id state.revocation_generation
    job ←
        or_store_error (ports.jobs.get_by_dedup_key (crl_dedup_key authority.key_generation_id))
          "crl_demand_read_failed"
    id ← ports.new_uuid
    or_store_error
        (ports.audit.append_event (request_event id meta now authority.key_generation_id)
          (new_authorities_audit_scope (scope ∷ [])))
        "crl_audit_failed"
    give job.id

  -- `RequestPublication` of a command that `Validate` accepts.
  unfoldable pub request_publication :
      AccountRepository S → Authorizer → RequestMeta → Text → Instant → Instant → S → Reply Text × S
  request_publication accounts authorizer meta authority_id auth_now now s =
      if not (is_admin meta.principal)
      then (refused (new_app_error forbidden_kind "crl_requires_admin"), s)
      else write (request_publication_tx accounts authorizer meta authority_id auth_now now) s
