-- ===== src/Transition.antt =====
-- internal/domain/transition.go: the replacement of a CA (`Transition`), the impact ledger and the
-- manual deployment confirmations.
pub mod Progress
use cert_me.Prelude.{Bool, false, not, true}
use cert_me.Errors.{
  Check, Result, err, invalid_transition, invalid_value, not_permitted, ok, policy_error, reject_if,
  wrapped, ◌>>=◌, ◌>>◌,
}
use cert_me.Prelude.Text.{Text, is_empty}
use cert_me.Values.Ids.{Version, check_id, check_optional_id, next}
use cert_me.Values.Instant.{Instant, is_zero}

pub data TransitionMode : Type 0 where
  normal emergency : TransitionMode
  unlisted : Text → TransitionMode

unfoldable pub validate_transition_mode : TransitionMode → Check
validate_transition_mode (TransitionMode.unlisted _) = err (wrapped invalid_value)
validate_transition_mode normal = ok tt
validate_transition_mode _ = ok tt

pub data TransitionState : Type 0 where
  in_progress externally_completed ended : TransitionState
  unlisted : Text → TransitionState

unfoldable pub validate_transition_state : TransitionState → Check
validate_transition_state (TransitionState.unlisted _) = err (wrapped invalid_value)
validate_transition_state in_progress = ok tt
validate_transition_state _ = ok tt

-- `Transition`, and `TransitionFacts` with the same fields.
pub record Transition : Type 0 where
  pub id : Text
  pub source_authority_id : Text
  pub target_authority_id : Text
  pub mode : TransitionMode
  pub state : TransitionState
  pub reported_by : Text
  pub reported_at : Instant
  pub reason : Text
  pub version : Version

unfoldable pub new_transition : Transition → Result Transition
new_transition facts = do
  check_id facts.id
  check_id facts.source_authority_id
  check_optional_id facts.target_authority_id
  validate_transition_mode facts.mode
  validate_transition_state facts.state
  check_id facts.reported_by
  reject_if (is_zero facts.reported_at) (wrapped invalid_value)
  ok facts

abbrev pub is_in_progress : TransitionState → Bool
is_in_progress in_progress = true
is_in_progress _ = false

abbrev pub is_externally_completed : TransitionState → Bool
is_externally_completed externally_completed = true
is_externally_completed _ = false

-- `IsClosed`
abbrev pub is_ended : TransitionState → Bool
is_ended ended = true
is_ended _ = false

unfoldable pub set_target : Transition → Text → Instant → Result Transition
set_target t target_authority_id now = do
  reject_if (not (is_in_progress t.state))
      (policy_error invalid_transition "transition_not_in_progress")
  check_id target_authority_id
  ok (record t { target_authority_id = target_authority_id; version = next t.version })

unfoldable pub confirm_deployment : Transition → Instant → Check
confirm_deployment t now =
    reject_if (not (is_in_progress t.state))
      (policy_error invalid_transition "transition_not_in_progress")

pub record TransitionClosureFacts : Type 0 where
  pub all_impacts_addressed : Bool
  pub manual_deployment_confirmed : Bool

-- `Complete`
unfoldable pub complete_transition :
    Transition → TransitionClosureFacts → Instant → Result Transition
complete_transition t facts now = do
  reject_if (not (is_in_progress t.state))
      (policy_error invalid_transition "transition_not_in_progress")
  reject_if (is_empty t.target_authority_id) (policy_error not_permitted "transition_no_target")
  reject_if (not facts.all_impacts_addressed)
      (policy_error not_permitted "transition_impacts_pending")
  reject_if (not facts.manual_deployment_confirmed)
      (policy_error not_permitted "transition_deployment_unconfirmed")
  ok (record t { state = externally_completed; version = next t.version })

-- `Close`; the argument is `TransitionTerminationFacts.SourceCAPublicationEnded`.
unfoldable pub close_transition : Transition → Bool → Instant → Result Transition
close_transition t source_ca_publication_ended now = do
  reject_if (is_in_progress t.state)
      (policy_error invalid_transition "transition_not_externally_completed")
  reject_if (is_ended t.state) (policy_error invalid_transition "transition_closed")
  reject_if (not source_ca_publication_ended)
      (policy_error not_permitted "transition_publication_not_ended")
  ok (record t { state = ended; version = next t.version })

-- `TransitionImpact`, and `TransitionImpactFacts` with the same fields.
pub record TransitionImpact : Type 0 where
  pub transition_id : Text
  pub certificate_id : Text
  pub replacement_certificate_id : Text
  pub reissued_at : Instant

abbrev pub is_resolved : TransitionImpact → Bool
is_resolved i = not (is_empty i.replacement_certificate_id)

-- `if facts.ReplacementCertificateID != "" { … }`
unfoldable pub check_replacement : TransitionImpact → Check
check_replacement facts = elim (is_resolved facts) [
  | false ↦ ok tt
  | true ↦ do
    check_id facts.replacement_certificate_id
    reject_if (is_zero facts.reissued_at) (wrapped invalid_value)
]

unfoldable pub new_transition_impact : TransitionImpact → Result TransitionImpact
new_transition_impact facts = do
  check_id facts.transition_id
  check_id facts.certificate_id
  check_replacement facts
  ok facts

unfoldable pub record_replacement : TransitionImpact → Text → Instant → Result TransitionImpact
record_replacement i replacement_certificate_id now = do
  reject_if (is_resolved i) (policy_error invalid_transition "impact_already_resolved")
  check_id replacement_certificate_id
  reject_if (is_zero now) (wrapped invalid_value)
  ok (record i { replacement_certificate_id = replacement_certificate_id; reissued_at = now })

pub data DeploymentAction : Type 0 where
  trust_added certificate_installed trust_removed : DeploymentAction
  unlisted : Text → DeploymentAction

unfoldable pub validate_deployment_action : DeploymentAction → Check
validate_deployment_action (DeploymentAction.unlisted _) = err (wrapped invalid_value)
validate_deployment_action trust_added = ok tt
validate_deployment_action _ = ok tt

-- `DeploymentConfirmation`, and `DeploymentConfirmationFacts` with the same fields.
pub record DeploymentConfirmation : Type 0 where
  pub transition_id : Text
  pub certificate_id : Text
  pub target_label : Text
  pub action : DeploymentAction
  pub confirmed_by : Text
  pub confirmed_at : Instant

unfoldable pub new_deployment_confirmation : DeploymentConfirmation → Result DeploymentConfirmation
new_deployment_confirmation facts = do
  check_id facts.transition_id
  check_optional_id facts.certificate_id
  reject_if (is_empty facts.target_label) (wrapped invalid_value)
  validate_deployment_action facts.action
  check_id facts.confirmed_by
  reject_if (is_zero facts.confirmed_at) (wrapped invalid_value)
  ok facts
