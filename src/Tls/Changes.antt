-- ===== src/Tls/Changes.antt =====
-- internal/domain/tls.go: the calls on a `TLSChange` as a step relation, and `Reconcile`.
use cert_me.Prelude.{
  Bool-cases, Option, [], arith, false, if◌then◌else◌, inl, inr, some, true, ◌||◌, ◌≡◌, ◌⊎◌,
}
use cert_me.Errors.{Failure, ok, policy_error, policy_violation}
use cert_me.Prelude.Star.{Occurs, Star, done, more}
use cert_me.Prelude.Text.{Text, is_empty, is_empty_iff, text_eq_iff, text_eq_refl}
use cert_me.Tls.Change.{
  TlsChange, TlsChangePhase, TlsReconcileFacts, TlsValidationFacts, all_pass, applied, apply_change,
  commit, is_prepared, mark_recovery_required, phase_is_terminal, prepared, reconcile,
  recovery_required, rollback_apply, rolled_back, validate_candidate,
}
use cert_me.Values.Ids.{next}
use cert_me.Values.Instant.{Instant}

-- One call that leaves a change to store.
pub data Step (c : TlsChange) (d : TlsChange) : Type 0 where
  checked : (facts : TlsValidationFacts) → validate_candidate c facts ≡ ok d → Step c d
  chosen : (now : Instant) → commit c now ≡ ok d → Step c d
  installed : (now : Instant) → apply_change c now ≡ ok d → Step c d
  reverted : (code : Text) (now : Instant) → rollback_apply c code now ≡ ok d → Step c d
  unclear : (code : Text) (now : Instant) → mark_recovery_required c code now ≡ ok d → Step c d
  settled : (facts : TlsReconcileFacts) (now : Instant) → reconcile c facts now ≡ inl d → Step c d

-- A change that is past `prepared` has a validated candidate.
abbrev IsSound : TlsChange → Type 0
IsSound c = is_prepared c.phase ≡ false → c.validated ≡ true

step-IsSound : (c d : TlsChange) → Step c d → IsSound c → IsSound d
unfolding validate_candidate commit apply_change rollback_apply mark_recovery_required reconcile
step-IsSound c d (checked facts h) s p = ground arith
step-IsSound c d (chosen now h) s p = ground arith
step-IsSound c d (installed now h) s p = ground (arith, s)
step-IsSound c d (reverted code now h) s p = ground (arith, s)
step-IsSound c d (unclear code now h) s p = ground (arith, s)
step-IsSound c d (settled facts now h) s p = ground (arith, s)

-- Some check of the candidate passed: `ValidateCandidate` on all facts.
abbrev pub IsPassedCheck : (c d : TlsChange) → Step c d → Type 0
IsPassedCheck c d (checked facts _) = all_pass facts ≡ true
IsPassedCheck c d (chosen _ _) = ⊥
IsPassedCheck c d (installed _ _) = ⊥
IsPassedCheck c d (reverted _ _ _) = ⊥
IsPassedCheck c d (unclear _ _ _) = ⊥
IsPassedCheck c d (settled _ _ _) = ⊥

-- A change that started prepared and unvalidated, and has left `prepared`, went through a check of
-- its candidate that passed in every point.
pub leaves_prepared_checked :
    (c d : TlsChange) (steps : Star Step c d)
    → c.phase ≡ prepared
    → c.validated ≡ false
    → is_prepared d.phase ≡ false
    → Occurs IsPassedCheck steps
unfolding validate_candidate commit apply_change rollback_apply mark_recovery_required reconcile
leaves_prepared_checked c d done p v e = ground arith
leaves_prepared_checked c d (more {b = x} (checked facts h) rest) p v e =
    elim (Bool-cases (all_pass facts)) [
      | inl passed ↦ inl passed
      | inr not_passed ↦ inr (leaves_prepared_checked x d rest (ground arith) (ground arith) e)
    ]
leaves_prepared_checked c d (more (chosen now h) rest) p v e = ground arith
leaves_prepared_checked c d (more (installed now h) rest) p v e = ground arith
leaves_prepared_checked c d (more (reverted code now h) rest) p v e = ground arith
leaves_prepared_checked c d (more (unclear code now h) rest) p v e = ground arith
leaves_prepared_checked c d (more (settled facts now h) rest) p v e = ground arith

-- A terminal change takes no further step.
pub terminal_takes_no_step : (c d : TlsChange) → phase_is_terminal c.phase ≡ true → Step c d → ⊥
unfolding validate_candidate commit apply_change rollback_apply mark_recovery_required reconcile
    phase_is_terminal
terminal_takes_no_step c d t (checked facts h) = ground arith
terminal_takes_no_step c d t (chosen now h) = ground arith
terminal_takes_no_step c d t (installed now h) = ground arith
terminal_takes_no_step c d t (reverted code now h) = ground arith
terminal_takes_no_step c d t (unclear code now h) = ground arith
terminal_takes_no_step c d t (settled facts now h) = ground arith

-- What a reconciliation that settles a change rested on: the change's own candidate, re-validated in
-- every point, or else its own previous version, the candidate not being usable.
pub record Settled (c d : TlsChange) (facts : TlsReconcileFacts) : Type 0 where
  pub was : c.phase ≡ recovery_required
  pub moved : d.version ≡ next c.version
  pub outcome :
      ((d.phase ≡ applied)
        × (facts.candidate_version_id ≡ c.candidate_version_id)
        × (all_pass facts.candidate_facts ≡ true))
      ⊎ ((d.phase ≡ rolled_back)
          × (facts.previous_version_id ≡ c.previous_version_id)
          × (all_pass facts.previous_facts ≡ true)
          × ((facts.candidate_version_id ≡ []) ⊎ (all_pass facts.candidate_facts ≡ false)))

-- `Reconcile` settles only a change that needs recovery, and only by a version that the change
-- itself recorded and that was re-validated; the candidate comes first.
pub reconcile-Settled :
    (c d : TlsChange) (facts : TlsReconcileFacts) (now : Instant)
    → reconcile c facts now ≡ inl d
    → Settled c d facts
unfolding reconcile
reconcile-Settled c d facts now h = record {
  was = ground arith;
  moved = ground arith;
  outcome = ground (
    arith,
    text_eq_iff facts.candidate_version_id c.candidate_version_id,
    text_eq_iff facts.previous_version_id c.previous_version_id,
    is_empty_iff facts.candidate_version_id,
  );
}

-- The facts of a reconciliation that looked at the change's own two versions.
abbrev pub own_versions : TlsChange → TlsValidationFacts → TlsValidationFacts → TlsReconcileFacts
own_versions c candidate previous = record {
  candidate_version_id = c.candidate_version_id;
  candidate_facts = candidate;
  previous_version_id = c.previous_version_id;
  previous_facts = previous;
}

-- A reconciliation that ends in a phase, which is terminal.
abbrev pub IsSettled : TlsChangePhase → TlsChange ⊎ (Failure × Option TlsChange) → Type 0
IsSettled phase (inl d) = (d.phase ≡ phase) × (phase_is_terminal d.phase ≡ true)
IsSettled phase (inr _) = ⊥

-- `Reconcile` of a change that needs recovery, against its own two versions, settles it if one of them
-- was re-validated: as applied if the candidate was, and as rolled back if only the previous version
-- was, both of them terminal. Otherwise it gives the unchanged change back beside the error.
pub reconcile_total :
    (c : TlsChange) (candidate previous : TlsValidationFacts) (now : Instant)
    → c.phase ≡ recovery_required
    → is_empty c.candidate_version_id ≡ false
    → is_empty c.previous_version_id ≡ false
    → (((all_pass candidate || all_pass previous) ≡ true)
        × IsSettled
            (if all_pass candidate then applied else rolled_back)
            (reconcile c (own_versions c candidate previous) now))
      ⊎ (((all_pass candidate || all_pass previous) ≡ false)
          × (reconcile c (own_versions c candidate previous) now
              ≡ inr (policy_error policy_violation "tls_recovery_unresolved", some c)))
unfolding reconcile phase_is_terminal
reconcile_total c candidate previous now p ce pe =
    let own = text_eq_refl c.candidate_version_id in
    let own_previous = text_eq_refl c.previous_version_id in
    elim (Bool-cases (all_pass candidate || all_pass previous)) [
      | inl passed ↦ elim (Bool-cases (all_pass candidate)) [
        | inl newer ↦ inl (passed, ground arith)
        | inr older ↦ inl (passed, ground arith)
      ]
      | inr unresolved ↦ inr (unresolved, ground arith)
    ]
