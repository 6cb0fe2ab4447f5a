-- ===== src/Examples/Changes.antt =====
-- internal/domain/tls.go and transition.go at concrete inputs.
use cert_me.Tls.Changes
use cert_me.Transition.Progress
use cert_me.Prelude.{if◌then◌else◌, [], false, inr, refl, some, true, ◌||◌, ◌≡◌, ◌⊎◌}
use cert_me.Errors.{ok, policy_error, policy_violation}
use cert_me.Examples.Samples.{at, id_a, id_b, id_c}
use cert_me.Prelude.Int.{add64, pos, wrap64, ◌+ℤ◌}
use cert_me.Prelude.Star.{Occurs, Star, done, more}
use cert_me.Prelude.Text.{bytes}
use cert_me.Tls.{managed}
use cert_me.Tls.Change.{
  rolled_back, applied, TlsChange, TlsValidationFacts, all_pass, commit, committed, prepared,
  reconcile, recovery_required, validate_candidate,
}
use cert_me.Tls.Changes.{
  IsPassedCheck, IsSettled, leaves_prepared_checked, own_versions, reconcile_total,
}
use cert_me.Transition.{
  Transition, TransitionClosureFacts, close_transition, complete_transition, ended,
  externally_completed, in_progress, normal,
}
use cert_me.Transition.Progress.{IsCompletion, IsEnd, ended_by_evidence}
use cert_me.Values.Ids.{next}

abbrev staged : TlsChange
staged = record {
  previous_version_id = id_a;
  candidate_version_id = id_b;
  phase = prepared;
  validated = false;
  error_code = [];
  version = pos 0;
}

abbrev good : TlsValidationFacts
good = record {
  candidate_source = managed;
  key_matches_certificate = true;
  within_validity_period = true;
  purpose_matches_server_auth = true;
  service_address_matches = true;
  chain_verified = true;
}

abbrev bad : TlsValidationFacts
bad = record good { chain_verified = false }

abbrev vetted : TlsChange
vetted = record staged { validated = true; version = pos 1 }

abbrev going_live : TlsChange
going_live = record vetted { phase = committed; version = pos 2 }

abbrev unknown : TlsChange
unknown = record going_live {
  phase = recovery_required;
  error_code = bytes "lost";
  version = pos 3;
}

staged_vetted : validate_candidate staged good ≡ ok vetted
unfolding validate_candidate all_pass next add64 wrap64 ◌+ℤ◌
staged_vetted = refl

vetted_committed : commit vetted (at 100) ≡ ok going_live
unfolding commit next add64 wrap64 ◌+ℤ◌
vetted_committed = refl

leaves_prepared_checked_example : Occurs IsPassedCheck (
    more
      (Changes.checked good staged_vetted)
      (more (Changes.chosen (at 100) vetted_committed) done))
leaves_prepared_checked_example =
    leaves_prepared_checked staged going_live
      (more (Changes.checked good staged_vetted)
        (more (Changes.chosen (at 100) vetted_committed) done))
      refl refl refl

reconcile_total_example :
    (((all_pass bad || all_pass good) ≡ true)
      × IsSettled
          (if all_pass bad then applied else rolled_back)
          (reconcile unknown (own_versions unknown bad good) (at 200)))
    ⊎ (((all_pass bad || all_pass good) ≡ false)
        × (reconcile unknown (own_versions unknown bad good) (at 200)
            ≡ inr (policy_error policy_violation "tls_recovery_unresolved", some unknown)))
reconcile_total_example = reconcile_total unknown bad good (at 200) refl refl refl

abbrev replacement : Transition
replacement = record {
  id = id_a;
  source_authority_id = id_b;
  target_authority_id = id_c;
  mode = normal;
  state = in_progress;
  reported_by = id_a;
  reported_at = at 100;
  reason = [];
  version = pos 0;
}

abbrev replaced : Transition
replaced = record replacement { state = externally_completed; version = pos 1 }

abbrev over : Transition
over = record replaced { state = ended; version = pos 2 }

abbrev evidence : TransitionClosureFacts
evidence = record { all_impacts_addressed = true; manual_deployment_confirmed = true }

was_replaced : complete_transition replacement evidence (at 200) ≡ ok replaced
unfolding complete_transition next add64 wrap64 ◌+ℤ◌
was_replaced = refl

is_over : close_transition replaced true (at 300) ≡ ok over
unfolding close_transition next add64 wrap64 ◌+ℤ◌
is_over = refl

abbrev whole_run : Star Progress.Step replacement over
whole_run =
    more (Progress.completed evidence (at 200) was_replaced)
      (more (Progress.finished true (at 300) is_over) done)

ended_by_evidence_example : Occurs IsCompletion whole_run × Occurs IsEnd whole_run
ended_by_evidence_example = ended_by_evidence replacement over whole_run refl refl
