-- ===== src/Examples/Issuing.antt =====
-- internal/domain/authority.go and certificate.go at concrete inputs.
use cert_me.Prelude.{arith, false, refl, ◌↔◌, ◌≡◌}
use cert_me.Authority.{
  Authority, archive, can_destroy_key, can_issue, can_sign_crl, destroy_key,
  has_valid_certificate_window_at, intermediate, is_archived, leaf, required_issuer_kind,
}
use cert_me.Authority.Issuing.{MayIssue, can_issue_iff}
use cert_me.Authority.Lifecycle.{archived_for_good, destroy}
use cert_me.Certificate.Issuance.{
  check_request_profile, context_of, has_server_san, plan_issuance, plan_issuance_in, plan_of,
  requires_server_san, validate_for, validate_profile, validate_sans_for_profile,
}
use cert_me.Certificate.Planning.{Planned-Within, Within, asking, for_leaf}
use cert_me.Errors.{err, not_permitted, ok, wrapped}
use cert_me.Examples.Samples.{at, closure, issuing_ca, server_request, stopped_ca}
use cert_me.Prelude.Int.{add64, pos, wrap64, ◌+ℤ◌}
use cert_me.Prelude.Star.{done, more}
use cert_me.Values.Ids.{next}
use cert_me.Values.Instant.{contains_at, covers, is_zero, is_zero_window}
use cert_me.Values.Keys.{validate_key_algorithm}

can_issue_iff_example :
    (can_issue issuing_ca (asking (context_of leaf) server_request) (at 500) ≡ ok tt)
    ↔ MayIssue issuing_ca (asking (context_of leaf) server_request) (at 500)
can_issue_iff_example = can_issue_iff issuing_ca (asking (context_of leaf) server_request) (at 500)

server_planned :
    plan_issuance issuing_ca server_request (at 500) ≡ ok (plan_of issuing_ca server_request)
unfolding plan_issuance plan_issuance_in validate_for can_issue required_issuer_kind is_archived
    is_zero has_valid_certificate_window_at is_zero_window contains_at covers
    validate_sans_for_profile check_request_profile validate_profile requires_server_san
    has_server_san validate_key_algorithm
server_planned = refl

Planned-Within_example :
    (issuing_ca.kind ≡ intermediate) × Within (plan_of issuing_ca server_request) issuing_ca
Planned-Within_example =
    Planned-Within issuing_ca server_request (at 500) (plan_of issuing_ca server_request) leaf
      (ground arith) (for_leaf server_planned)

abbrev archived_ca : Authority
archived_ca = record stopped_ca { archived_at = at 600; version = pos 3 }

abbrev keyless_ca : Authority
keyless_ca = record archived_ca { key_available = false; version = pos 4 }

ca_archived : archive stopped_ca closure (at 600) ≡ ok archived_ca
unfolding archive is_archived is_zero next add64 wrap64 ◌+ℤ◌
ca_archived = refl

ca_destroyed : destroy_key archived_ca closure (at 700) ≡ ok keyless_ca
unfolding destroy_key can_destroy_key next add64 wrap64 ◌+ℤ◌
ca_destroyed = refl

six_hundred_set : is_zero (at 600) ≡ false
unfolding is_zero
six_hundred_set = refl

archived_for_good_example :
    (keyless_ca.archived_at ≡ at 600)
    × (can_issue keyless_ca (context_of leaf) (at 800) ≡ err (wrapped not_permitted))
    × (can_sign_crl keyless_ca (at 800) ≡ err (wrapped not_permitted))
archived_for_good_example =
    archived_for_good stopped_ca archived_ca keyless_ca closure (at 600) (at 800) (context_of leaf)
      six_hundred_set ca_archived (more (destroy closure (at 700) ca_destroyed) done)
