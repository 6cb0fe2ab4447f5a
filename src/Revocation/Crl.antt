-- ===== src/Revocation/Crl.antt =====
-- internal/domain/revocation.go: `CRLState`, the publication state of one CA key: reserved numbers,
-- the revocation generation and the published document.
use cert_me.Prelude.{Bool, false, if◌then◌else◌, not, true, ◌&&◌, ◌||◌}
use cert_me.Errors.{
  Check, Result, conflict, err, invalid_value, not_permitted, ok, policy_error, reject_if, wrapped,
  ◌>>◌,
}
use cert_me.Prelude.Int.{add64, eq_ℤ, ltb_ℤ, pos, ℤ}
use cert_me.Prelude.Text.{Text, is_empty}
use cert_me.Values.Hex.{CrlNumber, increment, number_is_zero, number_le}
use cert_me.Values.Ids.{Version, check_id, next}
use cert_me.Values.Instant.{Duration, Instant, hours, is_zero}

pub data PublicationState : Type 0 where
  inactive active closed : PublicationState
  unlisted : Text → PublicationState

unfoldable pub validate_publication_state : PublicationState → Check
validate_publication_state (PublicationState.unlisted _) = err (wrapped invalid_value)
validate_publication_state inactive = ok tt
validate_publication_state _ = ok tt

abbrev pub is_closed : PublicationState → Bool
is_closed closed = true
is_closed _ = false

-- `if state == inactive { state = active }`
abbrev pub activate : PublicationState → PublicationState
activate inactive = active
activate active = active
activate closed = closed
activate (PublicationState.unlisted s) = PublicationState.unlisted s

-- `CRLState`, and `CRLStateFacts` with the same fields.
pub record CrlState : Type 0 where
  pub ca_key_generation_id : Text
  pub max_reserved_number : CrlNumber
  pub revocation_generation : ℤ
  pub published_document_id : Text
  pub published_number : CrlNumber
  pub published_generation : ℤ
  pub next_publish_at : Instant
  pub publication_state : PublicationState
  pub signing_ca_certificate_id : Text
  pub version : Version

unfoldable pub new_crl_state : CrlState → Result CrlState
new_crl_state facts = do
  check_id facts.ca_key_generation_id
  validate_publication_state facts.publication_state
  reject_if (ltb_ℤ facts.revocation_generation (pos 0)) (wrapped invalid_value)
  reject_if (ltb_ℤ facts.published_generation (pos 0)) (wrapped invalid_value)
  ok facts

abbrev pub default_crl_reissue_period : Duration
default_crl_reissue_period = hours 12

abbrev pub default_crl_validity : Duration
default_crl_validity = hours 48

unfoldable pub bump_revocation_generation : CrlState → CrlState
bump_revocation_generation c = record c {
  revocation_generation = add64 c.revocation_generation (pos 1);
  version = next c.version;
}

unfoldable pub reserve_next : CrlState → CrlNumber × CrlState
reserve_next c =
    let number = increment c.max_reserved_number in
    (number, record c { max_reserved_number = number; version = next c.version })

unfoldable pub observe_imported_number : CrlState → CrlNumber → CrlState × Bool
observe_imported_number c number =
    if number_is_zero number || number_le number c.max_reserved_number
    then (c, false)
    else (record c { max_reserved_number = number; version = next c.version }, true)

-- Whether a document counts as published: the condition before the number is compared.
unfoldable pub has_published : CrlState → Bool
has_published c =
    not (number_is_zero c.published_number)
    || not (eq_ℤ c.published_generation (pos 0))
    || not (is_empty c.published_document_id)

unfoldable pub can_publish : CrlState → CrlNumber → ℤ → Check
can_publish c number covered_generation = do
  reject_if (is_closed c.publication_state) (policy_error not_permitted "crl_publication_closed")
  reject_if (has_published c && number_le number c.published_number)
      (policy_error conflict "crl_number_regression")
  reject_if (ltb_ℤ covered_generation c.published_generation)
      (policy_error conflict "crl_generation_regression")

unfoldable pub mark_published : CrlState → Text → CrlNumber → ℤ → Instant → Result CrlState
mark_published c document_id number covered_generation next_publish_at = do
  check_id document_id
  can_publish c number covered_generation
  reject_if (is_zero next_publish_at) (wrapped invalid_value)
  ok (record c {
    published_document_id = document_id;
    published_number = number;
    published_generation = covered_generation;
    next_publish_at = next_publish_at;
    publication_state = activate c.publication_state;
    version = next c.version;
  })

unfoldable pub set_signing_certificate : CrlState → Text → Result CrlState
set_signing_certificate c certificate_id = do
  check_id certificate_id
  reject_if (is_closed c.publication_state) (policy_error not_permitted "crl_publication_closed")
  ok (record c { signing_ca_certificate_id = certificate_id; version = next c.version })

pub record CrlClosureFacts : Type 0 where
  pub all_covered_certificates_expired : Bool
  pub final_crl_covers_last_expiry : Bool

-- `Close`; a state that is closed already comes back as it is.
unfoldable pub close_crl : CrlState → CrlClosureFacts → Result CrlState
close_crl c facts = elim (is_closed c.publication_state) [
  | true ↦ ok c
  | false ↦ do
    reject_if (not facts.all_covered_certificates_expired)
        (policy_error not_permitted "crl_close_pending_certificates")
    reject_if (not facts.final_crl_covers_last_expiry)
        (policy_error not_permitted "crl_close_missing_final_crl")
    ok (record c { publication_state = closed; version = next c.version })
]
