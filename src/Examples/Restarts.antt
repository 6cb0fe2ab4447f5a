-- ===== src/Examples/Restarts.antt =====
-- internal/app/service/recovery.go over a store that keeps one delivery, at a concrete input.
use cert_me.Prelude.{Option, [], arith, false, if◌then◌else◌, some, true, ℕ, ◌<◌, ◌∷◌, ◌≡◌}
use cert_me.App.{Fault, not_found, store_fault, version_conflict}
use cert_me.Delivery.{Delivery, is_transferring}
use cert_me.Examples.Batches.{no_crl_yet, signer_certificate}
use cert_me.Examples.Deliveries.{handed_out}
use cert_me.Examples.Renewals.{web_series}
use cert_me.Examples.Samples.{at, id_a, id_b, id_c}
use cert_me.Prelude.Int.{eq_ℤ}
use cert_me.Prelude.Text.{Text}
use cert_me.Service.Recovery.{RecoveryOutcome, recover_transfers}
use cert_me.Service.Recovery.Draining.{Draining}
use cert_me.Service.Recovery.Ending.{recover_transfers_ends}
use cert_me.Service.Revoking.{LedgerPorts}
use cert_me.Store.{gave, refused}
use cert_me.Store.Frame.{give-Keeps, refuse-Keeps}
use cert_me.Store.Pki.{DeliveryRepository, LeafCertificateRecord}

abbrev pub leaf_record : LeafCertificateRecord
leaf_record = record {
  certificate_id = id_c;
  series_id = id_a;
  leaf_key_generation_id = id_b;
  issuer_ca_certificate_id = id_c;
}

-- The other rows are there to be read, and every write to them is taken.
abbrev pub other_rows : LedgerPorts Delivery
other_rows = record {
  crls = record {
    get_state_for_update = λ issuer s. gave (no_crl_yet, s);
    save_state = λ c expected s. gave (tt, s);
    insert_document = λ document s. gave (tt, s);
  };
  revocations = record {
    find_for_update = λ issuer serial s. refused (store_fault not_found);
    insert_revocation = λ r s. gave (tt, s);
    save_revocation = λ r expected s. gave (tt, s);
    list_by_issuer = λ issuer s. gave ([], s);
  };
  jobs = record {
    upsert_demand = λ dedup kind version payload s. gave (tt, s);
    get_by_dedup_key = λ dedup s. refused (store_fault not_found);
    get_job_for_update = λ id s. refused (store_fault not_found);
    save_job = λ job expected s. gave (tt, s);
  };
  pki = record {
    get_issuer_for_update = λ id s. refused (store_fault not_found);
    get_ca_key_generation = λ id s. refused (store_fault not_found);
    get_certificate = λ id s. gave (signer_certificate, s);
    get_leaf_certificate_record = λ id s. gave (leaf_record, s);
    get_ca_certificate_record = λ id s. refused (store_fault not_found);
    get_series_for_update = λ id s. gave (web_series, s);
    get_encrypted = λ id purpose s. refused (store_fault not_found);
  };
  audit = record { append_event = λ event scope s. gave (tt, s) };
  new_uuid = λ s. gave (id_a, s);
}

abbrev one_delivery : DeliveryRepository Delivery
one_delivery = record {
  get_delivery_for_update = λ id s. gave (s, s);
  save_delivery = λ next_row expected s.
      if eq_ℤ s.version expected
      then gave (tt, next_row)
      else refused (store_fault version_conflict);
  get_grant_for_update = λ hash s. refused (store_fault not_found);
  save_grant = λ grant expected s. gave (tt, s);
  invalidate_private_grants = λ id now s. gave (tt, s);
  list_transferring = λ limit s. gave (if is_transferring s.state then s ∷ [] else [], s);
}

abbrev in_transfer : Delivery → ℕ
in_transfer d = if is_transferring d.state then 1 else 0

saving_ends :
    (id : Text) (d next_row s t : Delivery)
    → one_delivery.get_delivery_for_update id s ≡ gave (d, s)
    → is_transferring d.state ≡ true
    → is_transferring next_row.state ≡ false
    → one_delivery.save_delivery next_row d.version s ≡ gave (tt, t)
    → in_transfer t < in_transfer s
saving_ends id d next_row s t held moving over saved =
    let row_held : s ≡ d = ground arith in
    let row_saved : next_row ≡ t = ground arith in ground arith

drains : Draining other_rows one_delivery in_transfer
drains = record {
  ledger = record {
    state_read = λ issuer. give-Keeps in_transfer no_crl_yet;
    state_saved = λ c v. give-Keeps in_transfer tt;
    row_read = λ issuer serial. refuse-Keeps in_transfer (store_fault not_found);
    row_inserted = λ r. give-Keeps in_transfer tt;
    row_saved = λ r v. give-Keeps in_transfer tt;
    demanded = λ dedup kind version payload. give-Keeps in_transfer tt;
    generation_read = λ id. refuse-Keeps in_transfer (store_fault not_found);
    audited = λ event scope. give-Keeps in_transfer tt;
    id_made = give-Keeps in_transfer id_a;
  };
  delivery_read = λ id d s t h. ground arith;
  certificate_read = λ id c s t h. ground arith;
  leaf_record_read = λ id l s t h. ground arith;
  series_read = λ id l s t h. ground arith;
  transfer_ended = saving_ends;
  grants_ended = λ id now. give-Keeps in_transfer tt;
}

abbrev nothing_failed : RecoveryOutcome
nothing_failed = record { failed_count = 0; skipped_count = 0 }

recover_transfers_ends_example :
    (r : (RecoveryOutcome × Option Fault) × Delivery) × (recover_transfers other_rows one_delivery 2
        (at 500)
        nothing_failed
        handed_out
      ≡ some r)
recover_transfers_ends_example =
    recover_transfers_ends other_rows one_delivery in_transfer drains 2 (at 500) nothing_failed
      handed_out (ground arith)
