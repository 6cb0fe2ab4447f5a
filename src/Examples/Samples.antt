-- ===== src/Examples/Samples.antt =====
-- Test data that the examples share.
use cert_me.Prelude.{[], false, true, ℕ, ◌∷◌}
use cert_me.Authority.{Authority, ClosureFacts, enabled, intermediate, stopped}
use cert_me.Certificate.{San, Subject, dns}
use cert_me.Certificate.Issuance.{IssuanceRequest, server_tls}
use cert_me.Prelude.Int.{pos}
use cert_me.Prelude.Text.{Text, bytes}
use cert_me.Values.Instant.{Instant, ValidityWindow, unset}
use cert_me.Values.Keys.{ecdsa_p256}

abbrev pub id_a : Text
id_a = bytes "00000000-0000-4000-8000-00000000000a"

abbrev pub id_b : Text
id_b = bytes "00000000-0000-4000-8000-00000000000b"

abbrev pub id_c : Text
id_c = bytes "00000000-0000-4000-8000-00000000000c"

abbrev pub at : ℕ → Instant
at n = record { micros = pos n }

abbrev pub between : ℕ → ℕ → ValidityWindow
between a b = record { not_before = at a; not_after = at b }

-- An intermediate that issues from 100 to 1000.
abbrev pub issuing_ca : Authority
issuing_ca = record {
  id = id_a;
  kind = intermediate;
  name = bytes "issuing";
  management_parent_id = id_b;
  issuance_state = enabled;
  issuance_certificate_id = id_c;
  key_generation_id = id_c;
  key_available = true;
  affected = false;
  pending_takeover = false;
  certificate_window = between 100 1000;
  archived_at = unset;
  version = pos 1;
}

-- The same with issuance stopped.
abbrev pub stopped_ca : Authority
stopped_ca = record issuing_ca { issuance_state = stopped; version = pos 2 }

abbrev pub closure : ClosureFacts
closure = record { all_dependent_certificates_expired = true; required_crls_published = true }

abbrev pub host : San
host = record { kind = dns; value = bytes "www.example.org" }

abbrev pub named_subject : Subject
named_subject = record {
  common_name = bytes "www.example.org";
  organization = [];
  organizational_unit = [];
  country = [];
}

-- A server certificate from 200 to 900.
abbrev pub server_request : IssuanceRequest
server_request = record {
  profile = server_tls;
  subject = named_subject;
  sans = host ∷ [];
  key_algorithm = ecdsa_p256;
  window = between 200 900;
}
