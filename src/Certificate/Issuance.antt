-- ===== src/Certificate/Issuance.antt =====
-- internal/domain/certificate.go: profiles, the signed original and the plan of an issuance.
use cert_me.Prelude.{
  Bool, List, [], false, if◌then◌else◌, length, ltb, not, true, ℕ, ◌&&◌, ◌||◌, ◌∷◌,
}
use cert_me.Authority.{
  Authority, IssuanceIntent, IssuerContext, bootstrap_tls, can_issue, leaf, required_issuer_kind,
  subordinate_ca,
}
use cert_me.Certificate.{San, Subject, is_dns_or_ip}
use cert_me.Errors.{
  Check, Result, discard, err, invalid_value, ok, policy_violation, reject_if, wrapped, ◌>>◌,
}
use cert_me.Prelude.Text.{Text, is_empty}
use cert_me.Series.{SeriesPolicy, plan_window, validate_series_policy}
use cert_me.Values.Hex.{SerialNumber, serial_is_zero}
use cert_me.Values.Ids.{Version, check_id}
use cert_me.Values.Instant.{
  Instant, ValidityWindow, contains_at, is_expired_at, is_zero_window, no_window,
}
use cert_me.Values.Keys.{KeyAlgorithm, validate_key_algorithm}

pub data CertificateProfile : Type 0 where
  server_tls client_mtls dual none_given : CertificateProfile
  unlisted : Text → CertificateProfile

unfoldable pub validate_profile : CertificateProfile → Check
validate_profile (CertificateProfile.unlisted _) = err (wrapped invalid_value)
validate_profile none_given = err (wrapped invalid_value)
validate_profile server_tls = ok tt
validate_profile _ = ok tt

-- `p != ""`
abbrev pub has_profile : CertificateProfile → Bool
has_profile none_given = false
has_profile _ = true

-- `RequiresServerSAN`
unfoldable pub requires_server_san : CertificateProfile → Bool
requires_server_san server_tls = true
requires_server_san dual = true
requires_server_san _ = false

-- The loop of `ValidateSANsForProfile`.
unfoldable pub has_server_san : List San → Bool
has_server_san [] = false
has_server_san (s ∷ sans) = is_dns_or_ip s.kind || has_server_san sans

unfoldable pub validate_sans_for_profile : CertificateProfile → List San → Check
validate_sans_for_profile profile sans = do
  validate_profile profile
  reject_if (requires_server_san profile && not (has_server_san sans)) (wrapped policy_violation)

pub data CertificateOrigin : Type 0 where
  generated imported : CertificateOrigin
  unlisted : Text → CertificateOrigin

unfoldable pub validate_origin : CertificateOrigin → Check
validate_origin (CertificateOrigin.unlisted _) = err (wrapped invalid_value)
validate_origin generated = ok tt
validate_origin _ = ok tt

pub data CertificateKind : Type 0 where
  ca_certificate leaf_certificate : CertificateKind
  unlisted : Text → CertificateKind

unfoldable pub validate_certificate_kind : CertificateKind → Check
validate_certificate_kind (CertificateKind.unlisted _) = err (wrapped invalid_value)
validate_certificate_kind ca_certificate = ok tt
validate_certificate_kind _ = ok tt

-- `Certificate`, and `CertificateFacts` with the same fields.
pub record Certificate : Type 0 where
  pub id : Text
  pub der : List ℕ
  pub key_material_id : Text
  pub issuer_ca_key_generation_id : Text
  pub serial : SerialNumber
  pub validity : ValidityWindow
  pub subject : Subject
  pub sans : List San
  pub kind : CertificateKind
  pub profile : CertificateProfile
  pub key_algorithm : KeyAlgorithm
  pub origin : CertificateOrigin
  pub created_by_account_id : Text
  pub version : Version

-- The `switch facts.Kind` of `NewCertificate`.
unfoldable pub check_profile_of_kind : CertificateKind → CertificateProfile → List San → Check
check_profile_of_kind leaf_certificate profile sans = validate_sans_for_profile profile sans
check_profile_of_kind ca_certificate profile sans =
    reject_if (has_profile profile) (wrapped invalid_value)
check_profile_of_kind (CertificateKind.unlisted _) profile sans = ok tt

unfoldable pub new_certificate : Certificate → Result Certificate
new_certificate facts = do
  check_id facts.id
  reject_if (is_empty facts.der) (wrapped invalid_value)
  check_id facts.key_material_id
  check_id facts.issuer_ca_key_generation_id
  reject_if (serial_is_zero facts.serial) (wrapped invalid_value)
  reject_if (is_zero_window facts.validity) (wrapped invalid_value)
  reject_if (is_empty facts.subject.common_name) (wrapped invalid_value)
  validate_certificate_kind facts.kind
  check_profile_of_kind facts.kind facts.profile facts.sans
  validate_key_algorithm facts.key_algorithm
  validate_origin facts.origin
  ok facts

-- `IsValidAt`
unfoldable pub certificate_is_valid_at : Certificate → Instant → Bool
certificate_is_valid_at c now = contains_at c.validity now

-- `IsExpiredAt`
unfoldable pub certificate_is_expired_at : Certificate → Instant → Bool
certificate_is_expired_at c now = is_expired_at c.validity.not_after now

pub record IssuanceRequest : Type 0 where
  pub profile : CertificateProfile
  pub subject : Subject
  pub sans : List San
  pub key_algorithm : KeyAlgorithm
  pub window : ValidityWindow

abbrev pub is_subordinate_ca : IssuanceIntent → Bool
is_subordinate_ca subordinate_ca = true
is_subordinate_ca _ = false

-- The `if intent == …` of `ValidateFor`.
unfoldable pub check_request_profile : IssuanceRequest → IssuanceIntent → Check
check_request_profile r intent =
    if is_subordinate_ca intent
    then (do
      reject_if (has_profile r.profile) (wrapped invalid_value)
      reject_if (ltb 0 (length r.sans)) (wrapped invalid_value))
    else (do validate_profile r.profile; validate_sans_for_profile r.profile r.sans)

unfoldable pub validate_for : IssuanceRequest → IssuanceIntent → Check
validate_for r intent = do
  discard (required_issuer_kind intent)
  reject_if (is_empty r.subject.common_name) (wrapped invalid_value)
  check_request_profile r intent
  validate_key_algorithm r.key_algorithm
  reject_if (is_zero_window r.window) (wrapped invalid_value)

-- `IssuanceRequest.Validate`
unfoldable pub validate_request : IssuanceRequest → Check
validate_request r = validate_for r leaf

pub record IssuancePlan : Type 0 where
  pub profile : CertificateProfile
  pub subject : Subject
  pub sans : List San
  pub key_algorithm : KeyAlgorithm
  pub window : ValidityWindow
  pub issuer_authority_id : Text
  pub issuer_key_generation_id : Text

-- The plan that `planIssuance` returns.
abbrev pub plan_of : Authority → IssuanceRequest → IssuancePlan
plan_of issuer r = record {
  profile = r.profile;
  subject = r.subject;
  sans = r.sans;
  key_algorithm = r.key_algorithm;
  window = r.window;
  issuer_authority_id = issuer.id;
  issuer_key_generation_id = issuer.key_generation_id;
}

-- `planIssuance`
unfoldable pub plan_issuance_in :
    Authority → IssuanceRequest → Instant → IssuerContext → Result IssuancePlan
plan_issuance_in issuer r now ctx = do
  validate_for r ctx.intent
  can_issue issuer (record ctx { requested_window = r.window }) now
  ok (plan_of issuer r)

-- `IssuerContext{Intent: intent}`
abbrev pub context_of : IssuanceIntent → IssuerContext
context_of intent = record {
  requested_window = no_window;
  takeover_confirmed = false;
  intent = intent;
}

unfoldable pub plan_issuance : Authority → IssuanceRequest → Instant → Result IssuancePlan
plan_issuance issuer r now = plan_issuance_in issuer r now (context_of leaf)

unfoldable pub plan_bootstrap_issuance : Authority → IssuanceRequest → Instant → Result IssuancePlan
plan_bootstrap_issuance issuer r now = plan_issuance_in issuer r now (context_of bootstrap_tls)

unfoldable pub plan_subordinate_ca_issuance :
    Authority → IssuanceRequest → Instant → Result IssuancePlan
plan_subordinate_ca_issuance issuer r now =
    plan_issuance_in issuer r now (context_of subordinate_ca)

unfoldable pub plan_leaf_window : SeriesPolicy → Instant → Result ValidityWindow
plan_leaf_window p not_before = do validate_series_policy p; plan_window p not_before
