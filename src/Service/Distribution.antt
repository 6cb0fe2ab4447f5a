-- ===== src/Service/Distribution.antt =====
-- internal/app/service/distribution.go: what a download link gives out, and its consumption. The encoder of
-- bundles is a port: what it made is an argument of `deliver`.
pub mod Outcome
pub mod Consuming
pub mod OnceOnly
-- The `DeliveryFormat…` constants, and `DownloadFormat` with the same values.
use cert_me.Prelude.{
  Bool, List, Option, String, [], false, if◌then◌else◌, none, not, some, true, ℕ, ◌&&◌, ◌++◌, ◌||◌,
  ◌∷◌,
}
use cert_me.App.{Fault, conflict_kind, new_app_error, validation_kind}
use cert_me.Certificate.Issuance.{Certificate}
use cert_me.Delivery.{Delivery, can_receive, receive}
use cert_me.Delivery.Grant.{
  DownloadGrant, GrantPurpose, consume_grant, grant_purpose_eq, is_private, validate_grant,
}
use cert_me.Prelude.Text.{Text, bytes, text_eq}
use cert_me.Service.Chain.{build_chain_der}
use cert_me.Service.Recovery.{leaf_management_authority}
use cert_me.Service.Revoking.{LedgerPorts}
use cert_me.Store.{
  Reply, Tx, from_domain, gave, give, or_absent, or_store_error, refuse, refuse_if, refused, ◌>>=◌,
  ◌>>◌,
}
use cert_me.Store.Accounts.{
  AuditEvent, AuditResult, by_download_token, new_authorities_audit_scope, success,
}
use cert_me.Store.Pki.{DeleteSecret, DeliveryRepository}
use cert_me.Values.Hex.{TokenHash}
use cert_me.Values.Instant.{Instant}
use cert_me.Values.Keys.{EncryptedSecret, leaf_delivery}

pub data DeliveryFormat : Type 0 where
  pem_format zip_format pkcs12_format : DeliveryFormat
  unlisted : Text → DeliveryFormat

-- The `DownloadPart…` constants.
pub data DownloadPart : Type 0 where
  unspecified_part certificate_part chain_part private_key_part : DownloadPart

-- `toDeliveryFormat`
unfoldable pub to_delivery_format : DeliveryFormat → Reply DeliveryFormat
to_delivery_format (DeliveryFormat.unlisted _) =
    refused (new_app_error validation_kind "download_format_invalid")
to_delivery_format f = gave f

-- `fixedFilename`
unfoldable pub base_name : GrantPurpose → Text
base_name purpose = if is_private purpose then bytes "private-key" else bytes "certificate"

unfoldable pub fixed_filename : GrantPurpose → DeliveryFormat → Text
fixed_filename purpose zip_format = base_name purpose ++ bytes ".zip"
fixed_filename purpose pkcs12_format = base_name purpose ++ bytes ".p12"
fixed_filename purpose _ = base_name purpose ++ bytes ".pem"

abbrev pub is_pkcs12 : DeliveryFormat → Bool
is_pkcs12 pkcs12_format = true
is_pkcs12 _ = false

abbrev pub is_pem : DeliveryFormat → Bool
is_pem pem_format = true
is_pem _ = false

abbrev pub is_private_key_part : DownloadPart → Bool
is_private_key_part private_key_part = true
is_private_key_part _ = false

abbrev pub is_public_part : DownloadPart → Bool
is_public_part certificate_part = true
is_public_part chain_part = true
is_public_part _ = false

-- `validatePublicFormat`
unfoldable pub validate_public_format : DeliveryFormat → DownloadPart → Option Fault
validate_public_format format part =
    if is_pkcs12 format
    then some (new_app_error validation_kind "public_pkcs12_undefined")
    else if is_private_key_part part
    then some (new_app_error validation_kind "public_download_no_private_key")
    else none

-- What `prepare` has read for the encoder; a public link has no secret.
pub record ReadDelivery : Type 0 where
  pub grant : DownloadGrant
  pub certificate : Certificate
  pub chain_der : List (List ℕ)
  pub leaf_secret : Option EncryptedSecret

-- `preparedDelivery` without its bundle.
pub record PreparedDelivery : Type 0 where
  pub token_hash : TokenHash
  pub purpose : GrantPurpose
  pub certificate : Certificate

-- `consumedTransfer`; a public transfer has no delivery.
pub record ConsumedTransfer : Type 0 where
  pub grant : DownloadGrant
  pub delivery : Option Delivery

-- The event of `appendDistributionAudit`.
unfoldable pub distribution_event : Text → Instant → Text → String → Text → AuditResult → AuditEvent
distribution_event id now client_ip action grant_id how = record {
  id = id;
  occurred_at = now;
  actor_kind = by_download_token;
  actor_id = grant_id;
  token_id = grant_id;
  action = action;
  target_type = "download_grant";
  target_id = grant_id;
  client_ip = client_ip;
  result = how;
  details = [];
}

module _ {S : Type 0} (ports : LedgerPorts S) (deliveries : DeliveryRepository S)
    (delete_secret : DeleteSecret S) where
  -- The read of a link, in `prepare` and in `commitConsumption`.
  unfoldable pub read_grant : TokenHash → Tx S DownloadGrant
  read_grant hash =
      or_absent (deliveries.get_grant_for_update hash)
        (new_app_error validation_kind "download_token_invalid") "download_grant_read_failed"

  unfoldable pub read_delivery : Text → Tx S Delivery
  read_delivery id =
      or_absent (deliveries.get_delivery_for_update id)
        (new_app_error validation_kind "delivery_not_found") "delivery_read_failed"

  -- `prepare` from the purpose of the link on.
  unfoldable pub read_private :
      DeliveryFormat → DownloadPart → Instant → DownloadGrant → Certificate → Tx S EncryptedSecret
  read_private format part now grant certificate = do
    refuse_if (is_pem format && is_public_part part)
        (new_app_error validation_kind "download_purpose_mismatch")
    delivery ← read_delivery grant.delivery_id
    from_domain (can_receive delivery now)
    or_absent (ports.pki.get_encrypted certificate.key_material_id leaf_delivery)
        (new_app_error conflict_kind "delivery_secret_missing") "delivery_secret_read_failed"

  unfoldable pub read_for_purpose :
      DeliveryFormat
      → DownloadPart
      → Instant
      → DownloadGrant
      → Certificate
      → Tx S (Option EncryptedSecret)
  read_for_purpose format part now grant certificate =
      if is_private grant.purpose
      then (do secret ← read_private format part now grant certificate; give (some secret))
      else elim (validate_public_format format part) [ some e ↦ refuse e | none ↦ give none ]

  -- `prepare`: its read of the store.
  unfoldable pub prepare_tx :
      TokenHash → DeliveryFormat → DownloadPart → Instant → Tx S ReadDelivery
  prepare_tx hash format part now = do
    grant ← read_grant hash
    from_domain (validate_grant grant grant.purpose grant.certificate_id grant.delivery_id now)
    certificate ←
        or_absent (ports.pki.get_certificate grant.certificate_id)
          (new_app_error validation_kind "certificate_not_found") "certificate_read_failed"
    chain ← build_chain_der ports.pki certificate.id
    secret ← read_for_purpose format part now grant certificate
    give (record {
      grant = grant;
      certificate = certificate;
      chain_der = chain;
      leaf_secret = secret;
    })

  -- `appendDistributionAudit`
  unfoldable pub append_distribution_audit :
      Instant → Text → String → Text → AuditResult → Text → Tx S (Unit {0})
  append_distribution_audit now client_ip action grant_id how scope = do
    id ← ports.new_uuid
    or_store_error
        (ports.audit.append_event (distribution_event id now client_ip action grant_id how)
          (new_authorities_audit_scope (scope ∷ [])))
        "distribution_audit_failed"

  unfoldable pub consume_public : Instant → Text → DownloadGrant → Text → Tx S ConsumedTransfer
  consume_public now client_ip grant scope = do
    consumed ← from_domain (consume_grant grant now)
    or_store_error (deliveries.save_grant consumed grant.version) "download_grant_save_failed"
    append_distribution_audit now client_ip "distribution.deliver.public.start" consumed.id success
        scope
    give (record { grant = consumed; delivery = none })

  unfoldable pub consume_private :
      Instant → Text → PreparedDelivery → DownloadGrant → Text → Tx S ConsumedTransfer
  consume_private now client_ip prep grant scope = do
    delivery ← read_delivery grant.delivery_id
    from_domain (can_receive delivery now)
    consumed ← from_domain (consume_grant grant now)
    moved_delivery ← from_domain (receive delivery now)
    or_store_error (deliveries.save_grant consumed grant.version) "download_grant_save_failed"
    or_store_error (deliveries.save_delivery moved_delivery delivery.version) "delivery_save_failed"
    or_store_error (delete_secret prep.certificate.key_material_id leaf_delivery)
        "delivery_secret_delete_failed"
    or_store_error (deliveries.invalidate_private_grants moved_delivery.id now)
        "delivery_grant_invalidate_failed"
    append_distribution_audit now client_ip "distribution.deliver.private.start" consumed.id success
        scope
    give (record { grant = consumed; delivery = some moved_delivery })

  unfoldable pub consume_for_purpose :
      Instant → Text → PreparedDelivery → DownloadGrant → Text → Tx S ConsumedTransfer
  consume_for_purpose now client_ip prep grant scope =
      if is_private grant.purpose
      then consume_private now client_ip prep grant scope
      else consume_public now client_ip grant scope

  -- `commitConsumption`: the transaction.
  unfoldable pub commit_consumption_tx : Instant → Text → PreparedDelivery → Tx S ConsumedTransfer
  commit_consumption_tx now client_ip prep = do
    grant ← read_grant prep.token_hash
    from_domain (validate_grant grant grant.purpose grant.certificate_id grant.delivery_id now)
    refuse_if
        (not (grant_purpose_eq grant.purpose prep.purpose)
          || not (text_eq grant.certificate_id prep.certificate.id))
        (new_app_error conflict_kind "download_grant_changed")
    scope ← leaf_management_authority ports deliveries prep.certificate.id
    consume_for_purpose now client_ip prep grant scope
