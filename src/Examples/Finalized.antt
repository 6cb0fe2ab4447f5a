-- ===== src/Examples/Finalized.antt =====
-- internal/app/service/crl.go over a store that keeps one CRL state, at concrete inputs: a publication.
use cert_me.Prelude.{[], false, true}
use cert_me.App.{not_found, store_fault}
use cert_me.Examples.Batches.{of_state, one_crl, signer_certificate}
use cert_me.Examples.Samples.{at, id_a, id_b, id_c, issuing_ca}
use cert_me.Prelude.Int.{pos}
use cert_me.Prelude.Text.{bytes}
use cert_me.Revocation.Crl.{CrlState}
use cert_me.Service.Crl.{CrlReservation, PublicationResult, PublishCalls, SignedCrl}
use cert_me.Service.Revoking.{LedgerPorts, crl_dedup_key}
use cert_me.Store.{gave, refused}
use cert_me.Store.Pki.{job_running}
use cert_me.Values.Instant.{hours, unset}
use cert_me.Values.Keys.{ca_signing}

abbrev reservation : CrlReservation
reservation = record {
  ca_key_generation_id = id_a;
  key_material_id = id_b;
  issuer_certificate = signer_certificate;
  number = record { hex = bytes "1" };
  this_update = at 200;
  next_update = at 800;
  covered_generation = pos 3;
  revoked = [];
  ca_key = record {
    owner_key_id = id_b;
    purpose = ca_signing;
    format_version = pos 1;
    encryption_generation_id = id_c;
    nonce = bytes "n";
    ciphertext = bytes "c";
  };
  next_publish_at = at 900;
}

-- The store with the issuer, its key and a running job.
abbrev with_job : LedgerPorts CrlState
with_job = record of_state {
  jobs = record {
    upsert_demand = λ dedup kind version payload s. gave (tt, s);
    get_by_dedup_key = λ dedup s. refused (store_fault not_found);
    get_job_for_update = λ id s. gave (
      record {
        id = id;
        kind = bytes "crl_publish";
        dedup_key = crl_dedup_key id_a;
        payload_version = pos 1;
        payload = [];
        state = job_running;
        available_at = at 100;
        lease_until = at 900;
        attempt_count = pos 1;
        last_error_code = [];
        version = pos 1;
      },
      s,
    );
    save_job = λ job expected s. gave (tt, s);
  };
  pki = record {
    get_issuer_for_update = λ id s. gave (issuing_ca, s);
    get_ca_key_generation = λ id s. gave (
      record {
        id = id;
        authority_id = id_b;
        key_material_id = id_b;
        generation_no = pos 1;
        key_destroyed_at = unset;
      },
      s,
    );
    get_certificate = λ id s. refused (store_fault not_found);
    get_leaf_certificate_record = λ id s. refused (store_fault not_found);
    get_ca_certificate_record = λ id s. refused (store_fault not_found);
    get_series_for_update = λ id s. refused (store_fault not_found);
    get_encrypted = λ id purpose s. refused (store_fault not_found);
  };
}

abbrev publish_calls : PublishCalls
publish_calls = record {
  canceled = false;
  decode = λ settings. gave (record { validity = hours 1; interval = hours 1 });
  sign = λ r. gave (record { der = bytes "crl"; der_sha256 = record { hex = bytes "00" } });
  reserve_now = at 200;
  publish_now = at 300;
}

abbrev signed_crl : SignedCrl
signed_crl = record { der = bytes "crl"; der_sha256 = record { hex = bytes "00" } }

abbrev published_crl : CrlState
published_crl = record one_crl { published_document_id = id_a }

abbrev publication : PublicationResult
publication = record {
  ca_key_generation_id = id_a;
  document_id = id_a;
  number = record { hex = bytes "1" };
  covered_generation = pos 3;
  published = true;
  followup_required = false;
}
