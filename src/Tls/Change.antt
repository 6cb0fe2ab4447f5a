-- ===== src/Tls/Change.antt =====
-- internal/domain/tls.go: the change from one version of the dashboard's certificate to the next
-- (`TLSChange`).
use cert_me.Prelude.{
  Bool, Option, [], false, if◌then◌else◌, inl, inr, none, not, some, true, ◌&&◌, ◌||◌, ◌⊎◌,
}
use cert_me.Errors.{
  Check, Failure, Result, err, invalid_transition, invalid_value, not_permitted, ok, policy_error,
  policy_violation, reject_if, wrapped, ◌>>◌,
}
use cert_me.Prelude.Int.{pos}
use cert_me.Prelude.Text.{Text, bytes, is_empty, text_eq}
use cert_me.Tls.{TlsSource, is_bootstrap}
use cert_me.Values.Ids.{Version, check_id, check_optional_id, next}
use cert_me.Values.Instant.{Instant}

pub data TlsChangePhase : Type 0 where
  prepared committed applied rolled_back recovery_required : TlsChangePhase
  unlisted : Text → TlsChangePhase

unfoldable pub validate_phase : TlsChangePhase → Check
validate_phase (TlsChangePhase.unlisted _) = err (wrapped invalid_value)
validate_phase prepared = ok tt
validate_phase _ = ok tt

-- `IsTerminal`
unfoldable pub phase_is_terminal : TlsChangePhase → Bool
phase_is_terminal applied = true
phase_is_terminal rolled_back = true
phase_is_terminal _ = false

abbrev pub is_prepared : TlsChangePhase → Bool
is_prepared prepared = true
is_prepared _ = false

-- `CanActivate`
abbrev pub is_committed : TlsChangePhase → Bool
is_committed committed = true
is_committed _ = false

-- `IsActive`
abbrev pub is_applied : TlsChangePhase → Bool
is_applied applied = true
is_applied _ = false

abbrev pub is_recovery_required : TlsChangePhase → Bool
is_recovery_required recovery_required = true
is_recovery_required _ = false

-- `TLSChange`, and `TLSChangeFacts` with the same fields.
pub record TlsChange : Type 0 where
  pub previous_version_id : Text
  pub candidate_version_id : Text
  pub phase : TlsChangePhase
  pub validated : Bool
  pub error_code : Text
  pub version : Version

unfoldable pub new_tls_change : TlsChange → Result TlsChange
new_tls_change facts = do
  check_id facts.candidate_version_id
  check_optional_id facts.previous_version_id
  validate_phase facts.phase
  ok facts

unfoldable pub new_candidate_tls_change : Text → Text → Result TlsChange
new_candidate_tls_change previous_version_id candidate_version_id = new_tls_change (record {
  previous_version_id = previous_version_id;
  candidate_version_id = candidate_version_id;
  phase = prepared;
  validated = false;
  error_code = [];
  version = pos 0;
})

pub record TlsValidationFacts : Type 0 where
  pub candidate_source : TlsSource
  pub key_matches_certificate : Bool
  pub within_validity_period : Bool
  pub purpose_matches_server_auth : Bool
  pub service_address_matches : Bool
  pub chain_verified : Bool

abbrev pub requires_service_address : TlsValidationFacts → Bool
requires_service_address f = not (is_bootstrap f.candidate_source)

unfoldable pub all_pass : TlsValidationFacts → Bool
all_pass f =
    f.key_matches_certificate
    && f.within_validity_period
    && f.purpose_matches_server_auth
    && (f.service_address_matches || not (requires_service_address f))
    && f.chain_verified

unfoldable pub first_failure : TlsValidationFacts → Text
first_failure f =
    if not f.key_matches_certificate
    then bytes "tls_candidate_key_mismatch"
    else if not f.within_validity_period
    then bytes "tls_candidate_out_of_validity"
    else if not f.purpose_matches_server_auth
    then bytes "tls_candidate_wrong_purpose"
    else if not f.service_address_matches && requires_service_address f
    then bytes "tls_candidate_address_mismatch"
    else bytes "tls_candidate_chain_invalid"

unfoldable pub validate_candidate : TlsChange → TlsValidationFacts → Result TlsChange
validate_candidate c facts = do
  reject_if (not (is_prepared c.phase)) (policy_error invalid_transition "tls_change_not_prepared")
  ok (
      if not (all_pass facts)
      then record c {
        validated = false;
        error_code = first_failure facts;
        version = next c.version;
      }
      else record c { validated = true; error_code = []; version = next c.version })

-- `Commit`
unfoldable pub commit : TlsChange → Instant → Result TlsChange
commit c now = do
  reject_if (not (is_prepared c.phase)) (policy_error invalid_transition "tls_change_not_prepared")
  reject_if (not c.validated) (policy_error not_permitted "tls_candidate_not_validated")
  ok (record c { phase = committed; version = next c.version })

-- `Apply`
unfoldable pub apply_change : TlsChange → Instant → Result TlsChange
apply_change c now = do
  reject_if (not (is_committed c.phase))
      (policy_error invalid_transition "tls_change_not_committed")
  ok (record c { phase = applied; version = next c.version })

unfoldable pub rollback_apply : TlsChange → Text → Instant → Result TlsChange
rollback_apply c error_code now = do
  reject_if (not (is_committed c.phase))
      (policy_error invalid_transition "tls_change_not_committed")
  reject_if (is_empty error_code) (wrapped invalid_value)
  ok (record c { phase = rolled_back; error_code = error_code; version = next c.version })

unfoldable pub mark_recovery_required : TlsChange → Text → Instant → Result TlsChange
mark_recovery_required c error_code now = do
  reject_if (not (is_committed c.phase))
      (policy_error invalid_transition "tls_change_not_committed")
  reject_if (is_empty error_code) (wrapped invalid_value)
  ok (record c { phase = recovery_required; error_code = error_code; version = next c.version })

pub record TlsReconcileFacts : Type 0 where
  pub candidate_version_id : Text
  pub candidate_facts : TlsValidationFacts
  pub previous_version_id : Text
  pub previous_facts : TlsValidationFacts

-- `id != "" && id != own`
abbrev pub names_another : Text → Text → Bool
names_another id own = not (is_empty id) && not (text_eq id own)

-- `id != "" && id == own`
abbrev pub names_own : Text → Text → Bool
names_own id own = not (is_empty id) && text_eq id own

-- `Reconcile` gives back a change beside the error where nothing could be re-validated: the pair of
-- Go is `inl` of a change that stands, or `inr` of a failure with the change that comes with it
-- (`none` for the zero value).
unfoldable pub reconcile :
    TlsChange → TlsReconcileFacts → Instant → TlsChange ⊎ (Failure × Option TlsChange)
reconcile c facts now =
    if not (is_recovery_required c.phase)
    then inr (policy_error invalid_transition "tls_change_not_recovery_required", none)
    else if names_another facts.candidate_version_id c.candidate_version_id
    then inr (policy_error invalid_value "tls_recovery_target_mismatch", none)
    else if names_another facts.previous_version_id c.previous_version_id
    then inr (policy_error invalid_value "tls_recovery_target_mismatch", none)
    else if names_own facts.candidate_version_id c.candidate_version_id
        && all_pass facts.candidate_facts
    then inl
        (record c { validated = true; error_code = []; phase = applied; version = next c.version })
    else if names_own facts.previous_version_id c.previous_version_id
        && all_pass facts.previous_facts
    then inl (record c {
      phase = rolled_back;
      error_code = bytes "tls_recovery_rolled_back_to_previous";
      version = next c.version;
    })
    else inr (policy_error policy_violation "tls_recovery_unresolved", some c)
