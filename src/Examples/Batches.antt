-- ===== src/Examples/Batches.antt =====
-- internal/app/service/crl.go and revocations.go over a store that keeps one CRL state, at concrete
-- inputs.
-- A store of one CRL state, with no row in the ledger; it takes every write.
use cert_me.Prelude.{[], false, if◌then◌else◌}
use cert_me.App.{not_found, store_fault, version_conflict}
use cert_me.Certificate.Issuance.{Certificate, ca_certificate, generated, server_tls}
use cert_me.Examples.Samples.{at, between, id_a, id_b, id_c, named_subject}
use cert_me.Prelude.Int.{eq_ℤ, pos}
use cert_me.Prelude.Text.{bytes}
use cert_me.Revocation.{Revocation, key_compromise, manual}
use cert_me.Revocation.Crl.{CrlState, active, inactive}
use cert_me.Service.Revoking.{LedgerPorts, RevocationChange, RevocationMeta}
use cert_me.Store.{gave, refused}
use cert_me.Store.Accounts.{by_system}
use cert_me.Values.Hex.{no_number}
use cert_me.Values.Instant.{unset}
use cert_me.Values.Keys.{ecdsa_p256}

abbrev pub of_state : LedgerPorts CrlState
of_state = record {
  crls = record {
    get_state_for_update = λ issuer s. gave (s, s);
    save_state = λ next_state expected s.
        if eq_ℤ s.version expected
        then gave (tt, next_state)
        else refused (store_fault version_conflict);
    insert_document = λ document s. gave (tt, s);
  };
  revocations = record {
    find_for_update = λ issuer serial s. refused (store_fault not_found);
    insert_revocation = λ r s. gave (tt, s);
    save_revocation = λ r expected s. gave (tt, s);
    list_by_issuer = λ issuer s. gave ([], s);
  };
  jobs = record {
    upsert_demand = λ dedup kind version payload s. gave (tt, s);
    get_by_dedup_key = λ dedup s. refused (store_fault not_found);
    get_job_for_update = λ id s. refused (store_fault not_found);
    save_job = λ job expected s. gave (tt, s);
  };
  pki = record {
    get_issuer_for_update = λ id s. refused (store_fault not_found);
    get_ca_key_generation = λ id s. refused (store_fault not_found);
    get_certificate = λ id s. refused (store_fault not_found);
    get_leaf_certificate_record = λ id s. refused (store_fault not_found);
    get_ca_certificate_record = λ id s. refused (store_fault not_found);
    get_series_for_update = λ id s. refused (store_fault not_found);
    get_encrypted = λ id purpose s. refused (store_fault not_found);
  };
  audit = record { append_event = λ event scope s. gave (tt, s) };
  new_uuid = λ s. gave (id_a, s);
}

abbrev pub no_crl_yet : CrlState
no_crl_yet = record {
  ca_key_generation_id = id_a;
  max_reserved_number = record { hex = bytes "1" };
  revocation_generation = pos 3;
  published_document_id = [];
  published_number = no_number;
  published_generation = pos 0;
  next_publish_at = unset;
  publication_state = inactive;
  signing_ca_certificate_id = id_c;
  version = pos 1;
}

abbrev pub one_crl : CrlState
one_crl = record no_crl_yet {
  published_document_id = id_b;
  published_number = record { hex = bytes "1" };
  published_generation = pos 3;
  next_publish_at = at 900;
  publication_state = active;
  version = pos 2;
}

abbrev pub signer_certificate : Certificate
signer_certificate = record {
  id = id_c;
  der = [];
  key_material_id = id_b;
  issuer_ca_key_generation_id = id_a;
  serial = record { hex = bytes "1f" };
  validity = between 100 1000;
  subject = named_subject;
  sans = [];
  kind = ca_certificate;
  profile = server_tls;
  key_algorithm = ecdsa_p256;
  origin = generated;
  created_by_account_id = [];
  version = pos 1;
}

abbrev change : RevocationChange
change = record {
  issuer_id = id_a;
  serial = record { hex = bytes "1f" };
  certificate_id = id_c;
  revoked_at = at 500;
  reason = key_compromise;
  source = manual;
  authority_id = id_b;
  needs_review = false;
}

abbrev meta : RevocationMeta
meta = record {
  client_ip = [];
  actor_kind = by_system;
  actor_id = [];
  token_id = [];
  action = "revocation.revoke";
  now = at 600;
}

abbrev new_row : Revocation
new_row = record {
  id = id_a;
  issuer_id = id_a;
  serial = record { hex = bytes "1f" };
  certificate_id = id_c;
  revoked_at = at 500;
  reason = key_compromise;
  source = manual;
  change_generation = pos 4;
  needs_review = false;
  version = pos 1;
}

abbrev generation_four : CrlState
generation_four = record one_crl { revocation_generation = pos 4; version = pos 3 }
