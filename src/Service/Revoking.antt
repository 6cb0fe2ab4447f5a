-- ===== src/Service/Revoking.antt =====
-- internal/app/service/revocations.go: `applyRevocations`, which merges asserted revocations into the
-- ledger inside of the caller's transaction.
pub mod Batch
pub mod Stamped
pub mod Frame
use text.Mathlib.Text.{◌==◌ as str_eq}
use cert_me.Prelude.{
  Bool, List, Option, String, [], false, if◌then◌else◌, ltb, none, some, true, ℕ, ◌&&◌, ◌++◌, ◌==◌,
  ◌||◌, ◌∷◌,
}
use cert_me.App.{Fault, domain_fault, from_domain_error, new_app_error, validation_kind}
use cert_me.App.Throttle.{format_int}
use cert_me.Errors.{err, ok}
use cert_me.Prelude.Int.{pos, ℤ}
use cert_me.Prelude.Text.{Text, bytes, text_eq}
use cert_me.Revocation.{
  Revocation, RevocationFacts, RevocationReason, RevocationSource, aa_compromise,
  affiliation_changed, ca_compromise, cascade, cessation_of_operation, imported, key_compromise,
  manual, privilege_withdrawn, superseded, unspecified,
}
use cert_me.Store.Accounts.{AuditActorKind, AuditEvent, AuditRepository, success}
use cert_me.Store.Pki.{CrlRepository, JobRepository, NewUuid, PkiRepository, RevocationRepository}
use cert_me.Values.Hex.{SerialNumber, serial_is_zero}
use cert_me.Values.Ids.{Version, check_id}
use cert_me.Values.Instant.{Instant, is_zero}

pub record RevocationChange : Type 0 where
  pub issuer_id : Text
  pub serial : SerialNumber
  pub certificate_id : Text
  pub revoked_at : Instant
  pub reason : RevocationReason
  pub source : RevocationSource
  pub authority_id : Text
  pub needs_review : Bool

-- `RevocationMeta`
pub record RevocationMeta : Type 0 where
  pub client_ip : Text
  pub actor_kind : AuditActorKind
  pub actor_id : Text
  pub token_id : Text
  pub action : String
  pub now : Instant

unfoldable pub validate_meta : RevocationMeta → Option Fault
validate_meta meta =
    if str_eq meta.action ""
    then some (new_app_error validation_kind "revocation_audit_action_missing")
    else if is_zero meta.now
    then some (new_app_error validation_kind "revocation_now_missing")
    else none

pub record RevocationOutcome : Type 0 where
  pub changed : ℕ
  pub generations : List (Text × ℤ)

-- `a < b` on strings.
unfoldable pub text_lt : Text → Text → Bool
text_lt [] [] = false
text_lt [] (y ∷ ys) = true
text_lt (x ∷ xs) [] = false
text_lt (x ∷ xs) (y ∷ ys) = ltb x y || x == y && text_lt xs ys

-- A key that the map may hold already, put into the order of the keys.
unfoldable pub insert_issuer : Text → List Text → List Text
insert_issuer a [] = a ∷ []
insert_issuer a (b ∷ bs) =
    let rest = b ∷ insert_issuer a bs in
    if text_eq a b then b ∷ bs else if text_lt a b then a ∷ b ∷ bs else rest

-- The order of `groupByIssuer`.
unfoldable pub issuer_order : List RevocationChange → List Text
issuer_order [] = []
issuer_order (change ∷ changes) = insert_issuer change.issuer_id (issuer_order changes)

-- The changes of an issuer, in the order in which they were asserted.
unfoldable pub changes_of : Text → List RevocationChange → List RevocationChange
changes_of issuer [] = []
changes_of issuer (change ∷ changes) =
    let rest = changes_of issuer changes in
    if text_eq change.issuer_id issuer then change ∷ rest else rest

-- The checks of `groupByIssuer`.
unfoldable pub check_change : RevocationChange → Option Fault
check_change change = elim (check_id change.issuer_id) [
  | err e ↦ some (from_domain_error (domain_fault e))
  | ok _ ↦
      if serial_is_zero change.serial
      then some (new_app_error validation_kind "revocation_serial_missing")
      else none
]

unfoldable pub check_changes : List RevocationChange → Option Fault
check_changes [] = none
check_changes (change ∷ changes) =
    let rest = check_changes changes in elim (check_change change) [ some e ↦ some e | none ↦ rest ]

-- `pendingRevocation`
pub record PendingRevocation : Type 0 where
  pub change : RevocationChange
  pub revocation : Revocation
  pub expected_version : Version
  pub is_new : Bool

unfoldable pub facts_of_change : RevocationChange → RevocationFacts
facts_of_change change = record {
  id = [];
  issuer_id = change.issuer_id;
  serial = change.serial;
  certificate_id = change.certificate_id;
  revoked_at = change.revoked_at;
  reason = change.reason;
  source = change.source;
  change_generation = pos 0;
  needs_review = change.needs_review;
  version = pos 0;
}

-- The strings of the constants of domain/revocation.go.
unfoldable pub reason_text : RevocationReason → Text
reason_text unspecified = bytes "unspecified"
reason_text key_compromise = bytes "key_compromise"
reason_text ca_compromise = bytes "ca_compromise"
reason_text affiliation_changed = bytes "affiliation_changed"
reason_text superseded = bytes "superseded"
reason_text cessation_of_operation = bytes "cessation_of_operation"
reason_text privilege_withdrawn = bytes "privilege_withdrawn"
reason_text aa_compromise = bytes "aa_compromise"
reason_text (RevocationReason.unlisted s) = s

unfoldable pub source_text : RevocationSource → Text
source_text manual = bytes "manual"
source_text imported = bytes "imported"
source_text cascade = bytes "cascade"
source_text (RevocationSource.unlisted s) = s

-- `CRLDedupKey`
unfoldable pub crl_dedup_key : Text → Text
crl_dedup_key issuer = bytes "crl_publish:" ++ issuer

-- The JSON of `crlPublishPayload`.
unfoldable pub crl_payload : ℤ → Text
crl_payload generation =
    bytes "{"
    ++ ((b'"' ∷ bytes "required_generation")
        ++ ((b'"' ∷ bytes ":") ++ (format_int generation ++ bytes "}")))

-- The event of `appendRevocationAudit`.
unfoldable pub revocation_event : Text → Revocation → RevocationMeta → AuditEvent
revocation_event id r meta = record {
  id = id;
  occurred_at = meta.now;
  actor_kind = meta.actor_kind;
  actor_id = meta.actor_id;
  token_id = meta.token_id;
  action = meta.action;
  target_type = "revocation";
  target_id = r.id;
  client_ip = meta.client_ip;
  result = success;
  details =
      ("issuer", r.issuer_id)
      ∷ ("serial", r.serial.hex)
      ∷ ("reason", reason_text r.reason)
      ∷ ("source", source_text r.source)
      ∷ ("change_generation", format_int r.change_generation)
      ∷ [];
}

-- The stores and the generator of ids that a batch goes through.
pub record LedgerPorts (S : Type 0) : Type 0 where
  pub crls : CrlRepository S
  pub revocations : RevocationRepository S
  pub jobs : JobRepository S
  pub pki : PkiRepository S
  pub audit : AuditRepository S
  pub new_uuid : NewUuid S
