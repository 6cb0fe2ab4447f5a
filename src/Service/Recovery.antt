-- ===== src/Service/Recovery.antt =====
-- internal/app/service/recovery.go: the restart, which fails every delivery that a process left in the
-- middle of its transfer, and `leafManagementAuthority` of internal/app/service/scope.go.
pub mod Draining
pub mod Ending
use cert_me.Prelude.{
  Bool, List, Option, [], false, if◌then◌else◌, none, some, suc, true, zero, ℕ, ◌+◌, ◌||◌, ◌∷◌,
}
use cert_me.App.{Fault, new_app_error, store_error, unavailable_kind, with_public_field}
use cert_me.Certificate.Issuance.{Certificate}
use cert_me.Delivery.{Delivery, fail_delivery, is_transferring}
use cert_me.Prelude.Text.{Text, bytes, is_empty}
use cert_me.Revocation.{cascade, unspecified}
use cert_me.Service.Revoking.{LedgerPorts, RevocationChange, RevocationMeta}
use cert_me.Service.Revoking.Batch.{apply_revocations}
use cert_me.Store.{
  Reply, Tx, from_domain, gave, give, if_present, or_absent, or_store_error, read, refuse_if,
  refused, write, ◌>>=◌, ◌>>◌,
}
use cert_me.Store.Accounts.{by_system}
use cert_me.Store.Pki.{DeliveryRepository}
use cert_me.Values.Instant.{Instant}

abbrev pub recovery_batch_size : ℕ
recovery_batch_size = 100

pub record RecoveryOutcome : Type 0 where
  pub failed_count : ℕ
  pub skipped_count : ℕ

unfoldable pub transfer_change : Certificate → Text → Instant → RevocationChange
transfer_change certificate scope now = record {
  issuer_id = certificate.issuer_ca_key_generation_id;
  serial = certificate.serial;
  certificate_id = certificate.id;
  revoked_at = now;
  reason = unspecified;
  source = cascade;
  authority_id = scope;
  needs_review = false;
}

unfoldable pub recovery_meta : Instant → RevocationMeta
recovery_meta now = record {
  client_ip = [];
  actor_kind = by_system;
  actor_id = [];
  token_id = [];
  action = "distribution.recovery.transfer_failed";
  now = now;
}

module _ {S : Type 0} (ports : LedgerPorts S) (deliveries : DeliveryRepository S) where
  -- `leafManagementAuthority`
  unfoldable pub leaf_management_authority : Text → Tx S Text
  leaf_management_authority certificate_id = do
    record_row ←
        or_absent (ports.pki.get_leaf_certificate_record certificate_id)
          (with_public_field "certificate_id" certificate_id
            (new_app_error unavailable_kind "distribution_scope_leaf_record_missing"))
          "distribution_scope_leaf_record_read_failed"
    series ←
        or_absent (ports.pki.get_series_for_update record_row.series_id)
          (with_public_field "certificate_id" certificate_id
            (new_app_error unavailable_kind "distribution_scope_series_missing"))
          "distribution_scope_series_read_failed"
    refuse_if (is_empty series.management_authority_id) (
        with_public_field "certificate_id" certificate_id
          (new_app_error unavailable_kind "distribution_scope_empty"))
    give series.management_authority_id

  -- The rest of `failInterruptedTransfer` for a delivery that is in transfer.
  unfoldable pub fail_transferring : Delivery → Instant → Tx S Bool
  fail_transferring delivery now = do
    certificate ←
        or_store_error (ports.pki.get_certificate delivery.certificate_id)
          "recovery_certificate_read_failed"
    scope ← leaf_management_authority certificate.id
    failed_delivery ← from_domain (fail_delivery delivery (bytes "interrupted_transfer") now)
    or_store_error (deliveries.save_delivery failed_delivery delivery.version)
        "recovery_delivery_save_failed"
    or_store_error (deliveries.invalidate_private_grants delivery.id now)
        "recovery_grant_invalidate_failed"
    outcome ←
        apply_revocations ports (transfer_change certificate scope now ∷ []) (recovery_meta now)
    give true

  unfoldable pub fail_if_transferring : Instant → Option Delivery → Tx S Bool
  fail_if_transferring now none = give false
  fail_if_transferring now (some delivery) =
      if is_transferring delivery.state then fail_transferring delivery now else give false

  -- `failInterruptedTransfer`: whether the delivery was failed.
  unfoldable pub fail_interrupted_transfer : Text → Instant → S → Reply Bool × S
  fail_interrupted_transfer delivery_id now = write (do
    found ←
        if_present (deliveries.get_delivery_for_update delivery_id) "recovery_delivery_read_failed"
    fail_if_transferring now found)

  -- `outcome.Failed++` or `outcome.Skipped++`
  unfoldable pub count_recovered : Bool → RecoveryOutcome → RecoveryOutcome
  count_recovered true outcome = record outcome { failed_count = outcome.failed_count + 1 }
  count_recovered false outcome = record outcome { skipped_count = outcome.skipped_count + 1 }

  -- The loop over a batch: what it reports, whether it progressed, and the first error.
  unfoldable pub recover_batch :
      Instant
      → List Delivery
      → RecoveryOutcome
      → Bool
      → S
      → (RecoveryOutcome × Bool × Option Fault) × S
  recover_batch now [] outcome progressed s = ((outcome, progressed, none), s)
  recover_batch now (delivery ∷ batch) outcome progressed s =
      let (reply, t) = fail_interrupted_transfer delivery.id now s in
      elim reply [
        | refused e ↦ ((outcome, progressed, some e), t)
        | gave changed ↦
            recover_batch now batch (count_recovered changed outcome) (progressed || changed) t
      ]

  -- `RecoverInterruptedTransfers`; `fuel` bounds the batches, and `none` means that it ran out.
  unfoldable pub recover_transfers :
      ℕ → Instant → RecoveryOutcome → S → Option ((RecoveryOutcome × Option Fault) × S)
  recover_transfers zero now outcome s = none
  recover_transfers (suc fuel) now outcome s =
      elim (read (deliveries.list_transferring recovery_batch_size) s) [
        | refused e ↦ some ((outcome, some (store_error e "recovery_list_failed")), s)
        | gave [] ↦ some ((outcome, none), s)
        | gave (d ∷ batch) ↦
            let ((counted, progressed, problem), t) =
              recover_batch now (d ∷ batch) outcome false s in
            elim problem [
              | some e ↦ some ((counted, some e), t)
              | none ↦ elim progressed [
                | true ↦ recover_transfers fuel now counted t
                | false ↦ some ((counted, none), t)
              ]
            ]
      ]
