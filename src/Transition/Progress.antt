-- ===== src/Transition/Progress.antt =====
-- internal/domain/transition.go: the calls on a `Transition` as a step relation, and the impact ledger.
use cert_me.Prelude.{Bool, arith, false, inl, inr, true, ◌≡◌}
use cert_me.Errors.{err, invalid_transition, ok, policy_error}
use cert_me.Prelude.Star.{Occurs, Star, Star-keeps, done, more}
use cert_me.Prelude.Text.{Text, is_empty}
use cert_me.Transition.{
  Transition, TransitionClosureFacts, TransitionImpact, close_transition, complete_transition,
  ended, externally_completed, in_progress, is_in_progress, record_replacement, set_target,
  validate_transition_state,
}
use cert_me.Values.Ids.{filled-check_id}
use cert_me.Values.Instant.{Instant}

-- One successful call.
pub data Step (t : Transition) (u : Transition) : Type 0 where
  aimed : (target : Text) (now : Instant) → set_target t target now ≡ ok u → Step t u
  completed :
      (facts : TransitionClosureFacts) (now : Instant)
      → complete_transition t facts now ≡ ok u
      → Step t u
  finished :
      (publication_ended : Bool) (now : Instant)
      → close_transition t publication_ended now ≡ ok u
      → Step t u

-- Past the first state there is a target.
abbrev HasTarget : Transition → Type 0
HasTarget t =
    validate_transition_state t.state ≡ ok tt
    × (is_in_progress t.state ≡ false → is_empty t.target_authority_id ≡ false)

step-HasTarget : (t u : Transition) → Step t u → HasTarget t → HasTarget u
unfolding set_target complete_transition close_transition validate_transition_state
step-HasTarget t u (aimed target now h) (v, p) = (ground arith, λ q. ground arith)
step-HasTarget t u (completed facts now h) (v, p) = (ground arith, λ q. ground arith)
step-HasTarget t u (finished e now h) (v, p) = (ground arith, λ q. ground (arith, p))

-- A transition that starts in progress has a target authority when it ends, whatever the calls.
pub ended-HasTarget :
    (t u : Transition)
    → t.state ≡ in_progress
    → Star Step t u
    → u.state ≡ ended
    → is_empty u.target_authority_id ≡ false
unfolding validate_transition_state
ended-HasTarget t u s steps e = ground (arith, (Star-keeps HasTarget step-HasTarget steps start).1)
  where
    start : HasTarget t
    start = (ground arith, λ q. ground arith)

-- A completion for which both facts were given, and an end for which the publication had ended.
abbrev pub IsCompletion : (t u : Transition) → Step t u → Type 0
IsCompletion t u (aimed _ _ _) = ⊥
IsCompletion t u (completed facts _ _) =
    (facts.all_impacts_addressed ≡ true) × (facts.manual_deployment_confirmed ≡ true)
IsCompletion t u (finished _ _ _) = ⊥

abbrev pub IsEnd : (t u : Transition) → Step t u → Type 0
IsEnd t u (aimed _ _ _) = ⊥
IsEnd t u (completed _ _ _) = ⊥
IsEnd t u (finished publication_ended _ _) = publication_ended ≡ true

IsEnd-after_completion :
    (t u : Transition) (steps : Star Step t u)
    → t.state ≡ externally_completed
    → u.state ≡ ended
    → Occurs IsEnd steps
unfolding set_target complete_transition close_transition
IsEnd-after_completion t u done s e = ground arith
IsEnd-after_completion t u (more (aimed target now h) rest) s e = ground arith
IsEnd-after_completion t u (more (completed facts now h) rest) s e = ground arith
IsEnd-after_completion t u (more (finished publication now h) rest) s e = inl (ground arith)

-- A transition in progress ends only through a completion with all impacts addressed and the
-- deployment confirmed, and an end with the source's publication ended: neither is ever inferred.
pub ended_by_evidence :
    (t u : Transition) (steps : Star Step t u)
    → t.state ≡ in_progress
    → u.state ≡ ended
    → Occurs IsCompletion steps × Occurs IsEnd steps
unfolding set_target complete_transition close_transition
ended_by_evidence t u done s e = ground arith
ended_by_evidence t u (more {b = x} (aimed target now h) rest) s e =
    let (c, f) = ended_by_evidence x u rest (ground arith) e in (inr c, inr f)
ended_by_evidence t u (more {b = x} (completed facts now h) rest) s e =
    (inl (ground arith, ground arith), inr (IsEnd-after_completion x u rest (ground arith) e))
ended_by_evidence t u (more (finished publication now h) rest) s e = ground arith

-- An impact takes one replacement: a second one is refused and the first stays.
pub record_replacement_once :
    (i j : TransitionImpact) (first second : Text) (now later : Instant)
    → record_replacement i first now ≡ ok j
    → (j.replacement_certificate_id ≡ first)
      × (j.reissued_at ≡ now)
      × (record_replacement j second later
          ≡ err (policy_error invalid_transition "impact_already_resolved"))
unfolding record_replacement
record_replacement_once i j first second now later h =
    (ground arith, ground arith, ground (arith, filled-check_id first))
