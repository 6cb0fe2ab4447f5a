-- ===== src/Revocation.antt =====
-- internal/domain/revocation.go: the revocation ledger (`Revocation`). The publication state of a
-- CA key (`CRLState`) is in the child `Crl`.
pub mod Crl
pub mod Ledger
pub mod Publishing
use cert_me.Prelude.{Bool, false, if◌then◌else◌, not, true, ◌&&◌, ◌||◌}
use cert_me.Errors.{
  Check, Result, err, invalid_value, ok, policy_error, policy_violation, reject_if, wrapped, ◌>>=◌,
  ◌>>◌,
}
use cert_me.Prelude.Int.{leb_ℤ, pos, ℤ}
use cert_me.Prelude.Text.{Text, is_empty, text_eq}
use cert_me.Values.Hex.{SerialNumber, serial_eq, serial_is_zero}
use cert_me.Values.Ids.{Version, check_id, next}
use cert_me.Values.Instant.{Duration, Instant, add, after, equal, is_zero, minutes}

pub data RevocationReason : Type 0 where
  unspecified key_compromise ca_compromise affiliation_changed : RevocationReason
  superseded cessation_of_operation privilege_withdrawn aa_compromise : RevocationReason
  unlisted : Text → RevocationReason

unfoldable pub validate_reason : RevocationReason → Check
validate_reason (RevocationReason.unlisted _) = err (wrapped invalid_value)
validate_reason unspecified = ok tt
validate_reason _ = ok tt

-- `a == b` on the strings.
unfoldable pub reason_eq : RevocationReason → RevocationReason → Bool
reason_eq unspecified unspecified = true
reason_eq key_compromise key_compromise = true
reason_eq ca_compromise ca_compromise = true
reason_eq affiliation_changed affiliation_changed = true
reason_eq superseded superseded = true
reason_eq cessation_of_operation cessation_of_operation = true
reason_eq privilege_withdrawn privilege_withdrawn = true
reason_eq aa_compromise aa_compromise = true
reason_eq (RevocationReason.unlisted a) (RevocationReason.unlisted b) = text_eq a b
reason_eq _ _ = false

pub data RevocationSource : Type 0 where
  manual imported cascade : RevocationSource
  unlisted : Text → RevocationSource

unfoldable pub validate_source : RevocationSource → Check
validate_source (RevocationSource.unlisted _) = err (wrapped invalid_value)
validate_source manual = ok tt
validate_source _ = ok tt

-- `Revocation`, and `RevocationFacts` with the same fields.
pub record Revocation : Type 0 where
  pub id : Text
  pub issuer_id : Text
  pub serial : SerialNumber
  pub certificate_id : Text
  pub revoked_at : Instant
  pub reason : RevocationReason
  pub source : RevocationSource
  pub change_generation : ℤ
  pub needs_review : Bool
  pub version : Version

abbrev pub RevocationFacts : Type 0
RevocationFacts = Revocation

unfoldable pub new_revocation : RevocationFacts → Result Revocation
new_revocation facts = do
  check_id facts.id
  check_id facts.issuer_id
  reject_if (serial_is_zero facts.serial) (wrapped invalid_value)
  reject_if (is_zero facts.revoked_at) (wrapped invalid_value)
  validate_reason facts.reason
  validate_source facts.source
  ok facts

unfoldable pub same_key : Revocation → Text → SerialNumber → Bool
same_key r issuer_id serial = text_eq r.issuer_id issuer_id && serial_eq r.serial serial

unfoldable pub same_facts : Revocation → RevocationFacts → Bool
same_facts r incoming = reason_eq r.reason incoming.reason && equal r.revoked_at incoming.revoked_at

-- The part of `Merge` behind its checks: the record, and whether it changed.
unfoldable pub merge_checked : Revocation → RevocationFacts → Revocation × Bool
merge_checked r incoming =
    if same_facts r incoming
    then (if is_empty r.certificate_id && not (is_empty incoming.certificate_id)
        then (record r { certificate_id = incoming.certificate_id; version = next r.version }, true)
        else (r, false))
    else if r.needs_review
    then (r, false)
    else (record r { needs_review = true; version = next r.version }, true)

unfoldable pub merge : Revocation → RevocationFacts → Result (Revocation × Bool)
merge r incoming = do
  validate_reason incoming.reason
  validate_source incoming.source
  reject_if (serial_is_zero incoming.serial || is_zero incoming.revoked_at) (wrapped invalid_value)
  reject_if (not (same_key r incoming.issuer_id incoming.serial)) (wrapped invalid_value)
  ok (merge_checked r incoming)

-- `NewDuration(MaxCorrectClockSkew)`: five minutes.
abbrev pub max_correct_clock_skew : Duration
max_correct_clock_skew = minutes 5

unfoldable pub correct :
    Revocation → RevocationReason → Instant → Text → Instant → Result Revocation
correct r reason revoked_at justification now = do
  validate_reason reason
  reject_if (is_zero revoked_at) (wrapped invalid_value)
  reject_if (is_empty justification) (wrapped invalid_value)
  reject_if (is_zero now) (wrapped invalid_value)
  reject_if (after revoked_at (add now max_correct_clock_skew))
      (policy_error policy_violation "revocation_correct_future_revoked_at")
  ok (record r {
    reason = reason;
    revoked_at = revoked_at;
    needs_review = false;
    version = next r.version;
  })

unfoldable pub stamp_change_generation : Revocation → ℤ → Result Revocation
stamp_change_generation r generation = do
  reject_if (leb_ℤ generation (pos 0)) (wrapped invalid_value)
  reject_if (leb_ℤ generation r.change_generation) (wrapped invalid_value)
  ok (record r { change_generation = generation; version = next r.version })
