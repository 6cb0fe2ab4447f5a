-- ===== src/Tls.antt =====
-- internal/domain/tls.go: the dashboard's own HTTPS certificate: a version (`TLSVersion`).
pub mod Change
pub mod Changes
use cert_me.Prelude.{Bool, false, not, true, ◌&&◌}
use cert_me.Errors.{Check, Result, err, invalid_value, ok, reject_if, wrapped, ◌>>=◌, ◌>>◌}
use cert_me.Prelude.Text.{Text, is_empty}
use cert_me.Values.Ids.{check_id, check_optional_id}
use cert_me.Values.Instant.{Instant, is_zero}

pub data TlsSource : Type 0 where
  bootstrap_source managed external : TlsSource
  unlisted : Text → TlsSource

unfoldable pub validate_tls_source : TlsSource → Check
validate_tls_source (TlsSource.unlisted _) = err (wrapped invalid_value)
validate_tls_source managed = ok tt
validate_tls_source _ = ok tt

abbrev pub is_bootstrap : TlsSource → Bool
is_bootstrap bootstrap_source = true
is_bootstrap _ = false

abbrev pub is_managed : TlsSource → Bool
is_managed managed = true
is_managed _ = false

-- `TLSVersion`, and `TLSVersionFacts` with the same fields.
pub record TlsVersion : Type 0 where
  pub id : Text
  pub source : TlsSource
  pub key_material_id : Text
  pub managed_certificate_id : Text
  pub leaf_der : Text
  pub chain_bundle : Text
  pub validated_service_url : Text
  pub not_after : Instant

unfoldable pub new_tls_version : TlsVersion → Result TlsVersion
new_tls_version facts = do
  check_id facts.id
  validate_tls_source facts.source
  check_id facts.key_material_id
  reject_if (is_managed facts.source && is_empty facts.managed_certificate_id)
      (wrapped invalid_value)
  check_optional_id facts.managed_certificate_id
  reject_if (is_empty facts.leaf_der) (wrapped invalid_value)
  reject_if (not (is_bootstrap facts.source) && is_empty facts.validated_service_url)
      (wrapped invalid_value)
  reject_if (is_zero facts.not_after) (wrapped invalid_value)
  ok facts
