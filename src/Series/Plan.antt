-- ===== src/Series/Plan.antt =====
-- internal/domain/series.go: the plan of a renewal (`PlanRenewal`).
use cert_me.Prelude.{Bool, [], if◌then◌else◌, not, ◌&&◌}
use cert_me.Errors.{
  Result, invalid_transition, invalid_value, not_permitted, ok, policy_violation, reject_if,
  wrapped, ◌>>=◌, ◌>>◌,
}
use cert_me.Prelude.Int.{add64, leb_ℤ, pos, ℤ}
use cert_me.Prelude.Text.{Text, text_eq}
use cert_me.Series.{LeafKeyGeneration, LeafSeries, plan_window, series_is_archived}
use cert_me.Values.Ids.{check_id}
use cert_me.Values.Instant.{Instant, ValidityWindow, covers, equal, is_zero_window}

pub data RenewalAction : Type 0 where
  no_action reuse_key rotate_key : RenewalAction

pub record RenewalFacts : Type 0 where
  pub current_generation : LeafKeyGeneration
  pub target_issuer_id : Text
  pub target_issuer_window : ValidityWindow
  pub requested_window : ValidityWindow
  pub key_ready_for_renewal : Bool
  pub is_emergency_reissue : Bool
  pub next_key_generation_no : ℤ

-- The fields that a branch of `PlanRenewal` leaves out are zero values.
pub record RenewalPlan : Type 0 where
  pub action : RenewalAction
  pub next_renewal_count : ℤ
  pub key_generation_id : Text
  pub next_key_generation_no : ℤ
  pub target_issuer_id : Text
  pub window : ValidityWindow

abbrev pub rotation_plan : RenewalFacts → ValidityWindow → RenewalPlan
rotation_plan facts policy_window = record {
  action = rotate_key;
  next_renewal_count = pos 0;
  key_generation_id = [];
  next_key_generation_no = facts.next_key_generation_no;
  target_issuer_id = facts.target_issuer_id;
  window = policy_window;
}

abbrev pub reuse_plan : RenewalFacts → ℤ → ValidityWindow → RenewalPlan
reuse_plan facts next_ordinal policy_window = record {
  action = reuse_key;
  next_renewal_count = next_ordinal;
  key_generation_id = facts.current_generation.id;
  next_key_generation_no = pos 0;
  target_issuer_id = facts.target_issuer_id;
  window = policy_window;
}

-- A rotation wants a generation number above the current one.
abbrev pub plan_rotation : RenewalFacts → ValidityWindow → Result RenewalPlan
plan_rotation facts policy_window = do
  reject_if (leb_ℤ facts.next_key_generation_no facts.current_generation.generation_no)
      (wrapped invalid_value)
  ok (rotation_plan facts policy_window)

-- `nextOrdinal`
unfoldable pub next_ordinal : RenewalFacts → ℤ
next_ordinal facts = add64 facts.current_generation.renewal_count (pos 1)

-- The part of `PlanRenewal` behind the emergency branch.
unfoldable pub plan_normal : LeafSeries → RenewalFacts → ValidityWindow → Result RenewalPlan
plan_normal s facts policy_window = do
  reject_if (not facts.key_ready_for_renewal) (wrapped not_permitted)
  if leb_ℤ s.series_policy.rotate_every (next_ordinal facts)
      then plan_rotation facts policy_window
      else ok (reuse_plan facts (next_ordinal facts) policy_window)

unfoldable pub plan_renewal : LeafSeries → RenewalFacts → Instant → Result RenewalPlan
plan_renewal s facts now = do
  reject_if (series_is_archived s) (wrapped invalid_transition)
  reject_if (not (text_eq facts.current_generation.series_id s.id)) (wrapped invalid_value)
  reject_if (not (text_eq facts.current_generation.id s.current_key_generation_id))
      (wrapped policy_violation)
  check_id facts.target_issuer_id
  reject_if (is_zero_window facts.requested_window) (wrapped invalid_value)
  policy_window ← plan_window s.series_policy facts.requested_window.not_before
  reject_if (not (equal facts.requested_window.not_after policy_window.not_after))
      (wrapped policy_violation)
  reject_if
      (not (is_zero_window facts.target_issuer_window)
        && not (covers facts.target_issuer_window policy_window))
      (wrapped policy_violation)
  if facts.is_emergency_reissue
      then plan_rotation facts policy_window
      else plan_normal s facts policy_window
