-- ===== src/Service/Distribution/Outcome.antt =====
-- internal/app/service/deliver_postprocess.go: sending a bundle and recording how that went, and `Deliver`.
-- The sink is a port.
-- `sendResult`, with what the sink reported.
use cert_me.Prelude.{
  Bool, Option, String, [], false, if◌then◌else◌, is_some, none, not, some, ◌||◌, ◌∷◌,
}
use cert_me.App.{
  Fault, commit_unknown, commit_unknown_kind, is_store_fault, other_fault, unavailable_kind,
  validation_kind, wrap_app_error,
}
use cert_me.Certificate.Issuance.{Certificate}
use cert_me.Delivery.{Delivery, complete_delivery, fail_delivery}
use cert_me.Delivery.Grant.{is_private}
use cert_me.Prelude.Int.{ℤ}
use cert_me.Prelude.Text.{Text, bytes}
use cert_me.Revocation.{cascade, unspecified}
use cert_me.Service.Distribution.{
  ConsumedTransfer, DeliveryFormat, DownloadPart, PreparedDelivery, ReadDelivery,
  append_distribution_audit, commit_consumption_tx, prepare_tx, to_delivery_format,
}
use cert_me.Service.Recovery.{leaf_management_authority}
use cert_me.Service.Revoking.{LedgerPorts, RevocationChange, RevocationMeta}
use cert_me.Service.Revoking.Batch.{apply_revocations}
use cert_me.Store.{Reply, Tx, from_domain, gave, or_store_error, read, refused, write, ◌>>=◌, ◌>>◌}
use cert_me.Store.Accounts.{AuditResult, by_download_token, failure, success}
use cert_me.Store.Pki.{DeleteSecret, DeliveryRepository}
use cert_me.Values.Hex.{TokenHash}
use cert_me.Values.Instant.{Instant, before}

pub record SendResult : Type 0 where
  pub outcome_completed : Bool
  pub bytes_written : ℤ
  pub send_error : Option Fault
  pub panicked : Bool

-- `sendResult.failed`
unfoldable pub send_failed : SendResult → Bool
send_failed r = r.panicked || is_some r.send_error || not r.outcome_completed

-- `finishObservedAt`
unfoldable pub finish_observed_at : Instant → Instant → Instant
finish_observed_at seen_at consumed_at = if before seen_at consumed_at then consumed_at else seen_at

-- `code` of `recordPrivateOutcome`
unfoldable pub failure_code_of : SendResult → Text
failure_code_of r = if r.panicked then bytes "transfer_panic" else bytes "transfer_failed"

unfoldable pub undelivered_change : Certificate → Text → Instant → RevocationChange
undelivered_change certificate scope at_finish = record {
  issuer_id = certificate.issuer_ca_key_generation_id;
  serial = certificate.serial;
  certificate_id = certificate.id;
  revoked_at = at_finish;
  reason = unspecified;
  source = cascade;
  authority_id = scope;
  needs_review = false;
}

unfoldable pub undelivered_meta : Text → Text → Instant → RevocationMeta
undelivered_meta client_ip grant_id at_finish = record {
  client_ip = client_ip;
  actor_kind = by_download_token;
  actor_id = grant_id;
  token_id = grant_id;
  action = "distribution.deliver.private.failed";
  now = at_finish;
}

pub record TransferSummary : Type 0 where
  pub token_id : Text
  pub delivery_id : Text
  pub transfer_completed : Bool
  pub bytes_written : ℤ
  pub finished_at : Instant

-- What the ports gave to a run of `Deliver`; `encode` stands for the two encoders of bundles.
pub record DeliverCalls : Type 0 where
  pub hashed : Reply TokenHash
  pub prepare_now : Instant
  pub encode : ReadDelivery → Reply Text
  pub commit_now : Instant
  pub sent : SendResult
  pub finish_seen_at : Instant

-- What a run leaves: its reply, the store, and the code under which it closed the runtime gate, if any.
pub record DeliverEnd (S : Type 0) : Type 0 where
  pub reply : Reply TransferSummary
  pub store : S
  pub gate_closed : Option String

abbrev pub delivery_id_of : ConsumedTransfer → Text
delivery_id_of consumed = elim consumed.delivery [ none ↦ [] | some d ↦ d.id ]

-- What the sink's report returns to the caller.
unfoldable pub summary_of :
    PreparedDelivery → ConsumedTransfer → SendResult → Instant → Reply TransferSummary
summary_of prep consumed sent at_finish =
    if sent.panicked
    then refused (wrap_app_error unavailable_kind "distribution_send_panicked" other_fault)
    else elim sent.send_error [
      | some e ↦ refused (wrap_app_error unavailable_kind "distribution_send_failed" e)
      | none ↦ gave (record {
        token_id = consumed.grant.id;
        delivery_id = if is_private prep.purpose then delivery_id_of consumed else [];
        transfer_completed = sent.outcome_completed;
        bytes_written = sent.bytes_written;
        finished_at = at_finish;
      })
    ]

unfoldable pub postprocess_code : Fault → String
postprocess_code e =
    if is_store_fault commit_unknown e
    then "distribution_private_postprocess_commit_unknown"
    else "distribution_private_postprocess_failed"

module _ {S : Type 0} (ports : LedgerPorts S) (deliveries : DeliveryRepository S)
    (delete_secret : DeleteSecret S) where
  unfoldable pub record_completed : Text → Text → Delivery → Text → Instant → Tx S (Unit {0})
  record_completed client_ip grant_id delivery scope at_finish = do
    completed_delivery ← from_domain (complete_delivery delivery at_finish)
    or_store_error (deliveries.save_delivery completed_delivery delivery.version)
        "delivery_save_failed"
    append_distribution_audit ports deliveries delete_secret at_finish client_ip
        "distribution.deliver.private.completed" grant_id success scope

  unfoldable pub record_failed :
      Text → Text → Certificate → SendResult → Delivery → Text → Instant → Tx S (Unit {0})
  record_failed client_ip grant_id certificate sent delivery scope at_finish = do
    failed_delivery ← from_domain (fail_delivery delivery (failure_code_of sent) at_finish)
    or_store_error (deliveries.save_delivery failed_delivery delivery.version)
        "delivery_save_failed"
    outcome ←
        apply_revocations ports (undelivered_change certificate scope at_finish ∷ [])
          (undelivered_meta client_ip grant_id at_finish)
    append_distribution_audit ports deliveries delete_secret at_finish client_ip
        "distribution.deliver.private.failed" grant_id failure scope

  unfoldable pub record_sent :
      Text → Text → Certificate → SendResult → Delivery → Text → Instant → Tx S (Unit {0})
  record_sent client_ip grant_id certificate sent delivery scope at_finish =
      if send_failed sent
      then record_failed client_ip grant_id certificate sent delivery scope at_finish
      else record_completed client_ip grant_id delivery scope at_finish

  -- `recordPrivateOutcome`: the transaction.
  unfoldable pub record_private_outcome_tx :
      Text → PreparedDelivery → Text → Text → SendResult → Instant → Tx S (Unit {0})
  record_private_outcome_tx client_ip prep grant_id delivery_id sent at_finish = do
    delivery ←
        or_store_error (deliveries.get_delivery_for_update delivery_id) "delivery_read_failed"
    scope ← leaf_management_authority ports deliveries prep.certificate.id
    record_sent client_ip grant_id prep.certificate sent delivery scope at_finish

  -- `recordPublicFailureAudit` and `recordPublicSuccessAudit`
  unfoldable pub record_public_audit_tx :
      Text → PreparedDelivery → Text → String → AuditResult → Instant → Tx S (Unit {0})
  record_public_audit_tx client_ip prep grant_id action how at_finish = do
    scope ← leaf_management_authority ports deliveries prep.certificate.id
    append_distribution_audit ports deliveries delete_secret at_finish client_ip action grant_id how
        scope

  -- `sendAndRecord` from the sink's report on, for a private link.
  unfoldable pub finish_private :
      Text → PreparedDelivery → ConsumedTransfer → SendResult → Instant → S → DeliverEnd S
  finish_private client_ip prep consumed sent at_finish s =
      let (recorded, t) =
        write
          (record_private_outcome_tx client_ip prep consumed.grant.id (delivery_id_of consumed) sent
            at_finish)
          s in
      elim recorded [
        | gave _ ↦ record {
          reply = summary_of prep consumed sent at_finish;
          store = t;
          gate_closed = none;
        }
        | refused e ↦ record {
          reply = refused (wrap_app_error commit_unknown_kind (postprocess_code e) e);
          store = t;
          gate_closed = some (postprocess_code e);
        }
      ]

  -- The same for a public link: a failed audit is only logged.
  unfoldable pub finish_public :
      Text → PreparedDelivery → ConsumedTransfer → SendResult → Instant → S → DeliverEnd S
  finish_public client_ip prep consumed sent at_finish s =
      let how = if send_failed sent then failure else success in
      let action =
        if send_failed sent
        then "distribution.deliver.public.failed"
        else "distribution.deliver.public.completed" in
      let (logged, t) =
        write (record_public_audit_tx client_ip prep consumed.grant.id action how at_finish) s in
      record { reply = summary_of prep consumed sent at_finish; store = t; gate_closed = none }

  unfoldable pub send_and_record :
      Text → PreparedDelivery → ConsumedTransfer → DeliverCalls → S → DeliverEnd S
  send_and_record client_ip prep consumed calls s =
      let at_finish = finish_observed_at calls.finish_seen_at calls.commit_now in
      if is_private prep.purpose
      then finish_private client_ip prep consumed calls.sent at_finish s
      else finish_public client_ip prep consumed calls.sent at_finish s

  -- `Deliver` behind `prepare`; `others` is what other requests commit during the transfer.
  unfoldable pub deliver_prepared :
      Text → PreparedDelivery → DeliverCalls → (S → S) → S → DeliverEnd S
  deliver_prepared client_ip prep calls others s =
      let (commit_reply, t) =
        write (commit_consumption_tx ports deliveries delete_secret calls.commit_now client_ip prep)
          s in
      elim commit_reply [
        | gave consumed ↦ send_and_record client_ip prep consumed calls (others t)
        | refused e ↦
            if is_store_fault commit_unknown e
            then record {
              reply = refused (wrap_app_error commit_unknown_kind "download_commit_unknown" e);
              store = t;
              gate_closed =
                  if is_private prep.purpose
                  then some "distribution_consume_commit_unknown"
                  else none;
            }
            else record { reply = refused e; store = t; gate_closed = none }
      ]

  -- `prepare`, with the state that it reads.
  unfoldable pub prepare : DeliveryFormat → DownloadPart → DeliverCalls → S → Reply PreparedDelivery
  prepare format part calls early = elim calls.hashed [
    | refused e ↦ refused (wrap_app_error validation_kind "raw_token_hash_failed" e)
    | gave hash ↦
        elim (read (prepare_tx ports deliveries delete_secret hash format part calls.prepare_now)
          early) [
            | refused e ↦ refused e
            | gave found ↦ elim (calls.encode found) [
              | refused e ↦ refused e
              | gave bundle ↦ gave (record {
                token_hash = hash;
                purpose = found.grant.purpose;
                certificate = found.certificate;
              })
            ]
          ]
  ]

  -- `Deliver` of a command that `Validate` accepts, with a sink.
  unfoldable pub deliver :
      DeliveryFormat → DownloadPart → Text → DeliverCalls → (S → S) → S → S → DeliverEnd S
  deliver format part client_ip calls others early s = elim (to_delivery_format format) [
    | refused e ↦ record { reply = refused e; store = s; gate_closed = none }
    | gave f ↦ elim (prepare f part calls early) [
      | refused e ↦ record { reply = refused e; store = s; gate_closed = none }
      | gave prep ↦ deliver_prepared client_ip prep calls others s
    ]
  ]
