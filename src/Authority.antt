-- ===== src/Authority.antt =====
-- internal/domain/authority.go: the management unit of a CA key. A method that returns a changed
-- copy is a function into `Result Authority`.
pub mod Issuing
pub mod Lifecycle
use cert_me.Prelude.{Bool, false, if◌then◌else◌, length, ltb, not, true, ℕ, ◌&&◌, ◌||◌}
use cert_me.Errors.{
  Check, Result, already_consumed, conflict, err, invalid_transition, invalid_value, not_permitted,
  ok, policy_violation, reject_if, wrapped, ◌>>=◌, ◌>>◌,
}
use cert_me.Prelude.Text.{Text, is_empty, text_eq}
use cert_me.Values.Ids.{Version, check_id, next}
use cert_me.Values.Instant.{
  Instant, ValidityWindow, contains_at, covers, is_expired_at, is_zero, is_zero_window,
}

pub data AuthorityKind : Type 0 where
  root intermediate bootstrap : AuthorityKind
  unlisted : Text → AuthorityKind

unfoldable pub validate_authority_kind : AuthorityKind → Check
validate_authority_kind (AuthorityKind.unlisted _) = err (wrapped invalid_value)
validate_authority_kind root = ok tt
validate_authority_kind _ = ok tt

abbrev pub authority_kind_eq : AuthorityKind → AuthorityKind → Bool
authority_kind_eq root root = true
authority_kind_eq intermediate intermediate = true
authority_kind_eq bootstrap bootstrap = true
authority_kind_eq (AuthorityKind.unlisted a) (AuthorityKind.unlisted b) = text_eq a b
authority_kind_eq _ _ = false

pub data IssuanceState : Type 0 where
  inventory enabled stopped : IssuanceState
  unlisted : Text → IssuanceState

unfoldable pub validate_issuance_state : IssuanceState → Check
validate_issuance_state (IssuanceState.unlisted _) = err (wrapped invalid_value)
validate_issuance_state inventory = ok tt
validate_issuance_state _ = ok tt

abbrev pub is_enabled : IssuanceState → Bool
is_enabled enabled = true
is_enabled _ = false

-- `Authority`, and `AuthorityFacts` with the same fields.
pub record Authority : Type 0 where
  pub id : Text
  pub kind : AuthorityKind
  pub name : Text
  pub management_parent_id : Text
  pub issuance_state : IssuanceState
  pub issuance_certificate_id : Text
  pub key_generation_id : Text
  pub key_available : Bool
  pub affected : Bool
  pub pending_takeover : Bool
  pub certificate_window : ValidityWindow
  pub archived_at : Instant
  pub version : Version

abbrev pub max_authority_name_length : ℕ
max_authority_name_length = 255

unfoldable pub new_authority : Authority → Result Authority
new_authority facts = do
  check_id facts.id
  validate_authority_kind facts.kind
  reject_if (is_empty facts.name || ltb max_authority_name_length (length facts.name))
      (wrapped invalid_value)
  reject_if (authority_kind_eq facts.kind intermediate && is_empty facts.management_parent_id)
      (wrapped invalid_value)
  reject_if (authority_kind_eq facts.kind root && not (is_empty facts.management_parent_id))
      (wrapped invalid_value)
  validate_issuance_state facts.issuance_state
  check_id facts.key_generation_id
  ok facts

unfoldable pub is_archived : Authority → Bool
is_archived a = not (is_zero a.archived_at)

-- `IsExpired`
unfoldable pub is_expired : Authority → Instant → Bool
is_expired a now =
    if is_zero_window a.certificate_window
    then false
    else is_expired_at a.certificate_window.not_after now

unfoldable pub has_valid_certificate_window_at : Authority → Instant → Bool
has_valid_certificate_window_at a now =
    not (is_zero_window a.certificate_window) && contains_at a.certificate_window now

-- `leaf` is the empty string.
pub data IssuanceIntent : Type 0 where
  leaf bootstrap_tls subordinate_ca : IssuanceIntent
  unlisted : Text → IssuanceIntent

unfoldable pub required_issuer_kind : IssuanceIntent → Result AuthorityKind
required_issuer_kind leaf = ok intermediate
required_issuer_kind bootstrap_tls = ok bootstrap
required_issuer_kind subordinate_ca = ok root
required_issuer_kind (IssuanceIntent.unlisted _) = err (wrapped invalid_value)

pub record IssuerContext : Type 0 where
  pub requested_window : ValidityWindow
  pub takeover_confirmed : Bool
  pub intent : IssuanceIntent

unfoldable pub can_issue : Authority → IssuerContext → Instant → Check
can_issue a ctx now = do
  reject_if (is_archived a) (wrapped not_permitted)
  required_kind ← required_issuer_kind ctx.intent
  reject_if (not (authority_kind_eq a.kind required_kind)) (wrapped not_permitted)
  reject_if (not (is_enabled a.issuance_state)) (wrapped not_permitted)
  reject_if (not a.key_available) (wrapped not_permitted)
  reject_if a.affected (wrapped not_permitted)
  reject_if (a.pending_takeover && not ctx.takeover_confirmed) (wrapped not_permitted)
  reject_if (not (has_valid_certificate_window_at a now)) (wrapped not_permitted)
  reject_if
      (not (is_zero_window ctx.requested_window)
        && not (is_zero_window a.certificate_window)
        && not (covers a.certificate_window ctx.requested_window))
      (wrapped policy_violation)

unfoldable pub can_sign_crl : Authority → Instant → Check
can_sign_crl a now = do
  reject_if (is_archived a) (wrapped not_permitted)
  reject_if (not a.key_available) (wrapped not_permitted)
  reject_if (not (has_valid_certificate_window_at a now)) (wrapped not_permitted)

unfoldable pub stop_issuance : Authority → Result Authority
stop_issuance a = do
  reject_if (is_archived a) (wrapped invalid_transition)
  reject_if (not (is_enabled a.issuance_state)) (wrapped invalid_transition)
  ok (record a { issuance_state = stopped; version = next a.version })

unfoldable pub enable : Authority → Result Authority
enable a = do
  reject_if (is_archived a) (wrapped invalid_transition)
  reject_if (is_enabled a.issuance_state) (wrapped invalid_transition)
  ok (record a { issuance_state = enabled; version = next a.version })

pub record ClosureFacts : Type 0 where
  pub all_dependent_certificates_expired : Bool
  pub required_crls_published : Bool

unfoldable pub can_destroy_key : Authority → ClosureFacts → Instant → Check
can_destroy_key a facts now = do
  reject_if (not a.key_available) (wrapped already_consumed)
  reject_if (is_enabled a.issuance_state) (wrapped not_permitted)
  reject_if (not facts.all_dependent_certificates_expired) (wrapped not_permitted)
  reject_if (not facts.required_crls_published) (wrapped not_permitted)

unfoldable pub destroy_key : Authority → ClosureFacts → Instant → Result Authority
destroy_key a facts now = do
  can_destroy_key a facts now
  ok (record a { key_available = false; version = next a.version })

unfoldable pub archive : Authority → ClosureFacts → Instant → Result Authority
archive a facts now = do
  reject_if (is_archived a) (wrapped invalid_transition)
  reject_if (is_enabled a.issuance_state) (wrapped not_permitted)
  reject_if (not facts.all_dependent_certificates_expired) (wrapped not_permitted)
  reject_if (not facts.required_crls_published) (wrapped not_permitted)
  ok (record a { archived_at = now; version = next a.version })

unfoldable pub attach_signing_key : Authority → Result Authority
attach_signing_key a = do
  reject_if (is_archived a) (wrapped invalid_transition)
  reject_if a.key_available (wrapped conflict)
  ok (record a { key_available = true; version = next a.version })

unfoldable pub confirm_takeover : Authority → Result Authority
confirm_takeover a = do
  reject_if (not a.pending_takeover) (wrapped invalid_transition)
  ok (record a { pending_takeover = false; version = next a.version })

-- `Rename`; `AuthorityPolicy` has the name alone.
unfoldable pub rename : Authority → Text → Result Authority
rename a name = do
  reject_if (is_archived a) (wrapped invalid_transition)
  reject_if (is_empty name || ltb max_authority_name_length (length name)) (wrapped invalid_value)
  ok (record a { name = name; version = next a.version })
