-- ===== src/Store/Pki.antt =====
-- internal/app/port/pki.go, crl.go, revocations.go, jobs.go, delivery.go and services.go: the
-- repositories of the PKI, the revocation ledger, the jobs and the deliveries, as far as the modelled
-- services call them, and the generator of ids.
use cert_me.Prelude.{List, String, ℕ}
use cert_me.Authority.{Authority}
use cert_me.Certificate.Issuance.{Certificate}
use cert_me.Delivery.{Delivery}
use cert_me.Delivery.Grant.{DownloadGrant}
use cert_me.Prelude.Int.{ℤ}
use cert_me.Prelude.Text.{Text}
use cert_me.Revocation.{Revocation}
use cert_me.Revocation.Crl.{CrlState}
use cert_me.Series.{LeafSeries}
use cert_me.Store.{Tx}
use cert_me.Values.Hex.{CrlNumber, Fingerprint, SerialNumber, TokenHash}
use cert_me.Values.Ids.{Version}
use cert_me.Values.Instant.{Instant}
use cert_me.Values.Keys.{EncryptedSecret, SecretPurpose}

pub record CaKeyGeneration : Type 0 where
  pub id : Text
  pub authority_id : Text
  pub key_material_id : Text
  pub generation_no : ℤ
  pub key_destroyed_at : Instant

-- `LeafCertificateRecord` without the snapshot of its policy.
pub record LeafCertificateRecord : Type 0 where
  pub certificate_id : Text
  pub series_id : Text
  pub leaf_key_generation_id : Text
  pub issuer_ca_certificate_id : Text

pub record CaCertificateRecord : Type 0 where
  pub certificate_id : Text
  pub ca_key_generation_id : Text
  pub issuer_ca_certificate_id : Text

pub record PkiRepository (S : Type 0) : Type 0 where
  pub get_issuer_for_update : Text → Tx S Authority
  pub get_ca_key_generation : Text → Tx S CaKeyGeneration
  pub get_certificate : Text → Tx S Certificate
  pub get_leaf_certificate_record : Text → Tx S LeafCertificateRecord
  pub get_ca_certificate_record : Text → Tx S CaCertificateRecord
  pub get_series_for_update : Text → Tx S LeafSeries
  pub get_encrypted : Text → SecretPurpose → Tx S EncryptedSecret

-- `CRLDocument`; its origin is `generated` here.
pub record CrlDocument : Type 0 where
  pub id : Text
  pub ca_key_generation_id : Text
  pub number : CrlNumber
  pub der_sha256 : Fingerprint
  pub der : Text
  pub this_update : Instant
  pub next_update : Instant
  pub covered_generation : ℤ
  pub origin : String
  pub source_import_id : Text

pub record CrlRepository (S : Type 0) : Type 0 where
  pub get_state_for_update : Text → Tx S CrlState
  pub save_state : CrlState → Version → Tx S (Unit {0})
  pub insert_document : CrlDocument → Tx S (Unit {0})

pub record RevocationRepository (S : Type 0) : Type 0 where
  pub find_for_update : Text → SerialNumber → Tx S Revocation
  pub insert_revocation : Revocation → Tx S (Unit {0})
  pub save_revocation : Revocation → Version → Tx S (Unit {0})
  pub list_by_issuer : Text → Tx S (List Revocation)

-- The `JobState…` constants.
pub data JobState : Type 0 where
  job_pending job_running job_succeeded job_failed : JobState

pub record Job : Type 0 where
  pub id : Text
  pub kind : Text
  pub dedup_key : Text
  pub payload_version : ℤ
  pub payload : Text
  pub state : JobState
  pub available_at : Instant
  pub lease_until : Instant
  pub attempt_count : ℤ
  pub last_error_code : Text
  pub version : Version

pub record JobRepository (S : Type 0) : Type 0 where
  pub upsert_demand : Text → Text → ℤ → Text → Tx S (Unit {0})
  pub get_by_dedup_key : Text → Tx S Job
  pub get_job_for_update : Text → Tx S Job
  pub save_job : Job → Version → Tx S (Unit {0})

pub record DeliveryRepository (S : Type 0) : Type 0 where
  pub get_delivery_for_update : Text → Tx S Delivery
  pub get_grant_for_update : TokenHash → Tx S DownloadGrant
  pub save_grant : DownloadGrant → Version → Tx S (Unit {0})
  pub save_delivery : Delivery → Version → Tx S (Unit {0})
  pub invalidate_private_grants : Text → Instant → Tx S (Unit {0})
  pub list_transferring : ℕ → Tx S (List Delivery)

-- `IDGenerator.NewUUID`; what the generator has given so far counts as a part of the state.
abbrev pub NewUuid : Type 0 → Type 0
NewUuid S = Tx S Text

-- `SecretRepository.Delete`
abbrev pub DeleteSecret : Type 0 → Type 0
DeleteSecret S = Text → SecretPurpose → Tx S (Unit {0})
