-- ===== src/Series/Renewal.antt =====
-- internal/domain/series.go: `PlanRenewal` against the conditions on the series, the key and the period.
use cert_me.Prelude.{
  Bool-cases, arith, false, if◌then◌else◌, inl, inr, subst, sym, true, ◌-◌, ◌^◌, ◌↔◌, ◌≡◌, ◌⊎◌,
}
use cert_me.Errors.{Result-cases, ok}
use cert_me.Prelude.Int.{+ℤ_parts, add64, add64_lem, eq_ℤ_iff, negsuc, pos, ℤ, ◌<ℤ◌, ◌≤ℤ◌}
use cert_me.Prelude.Text.{text_eq_iff}
use cert_me.Series.{LeafSeries, plan_window, series_is_archived, validate_series_policy}
use cert_me.Series.Plan.{
  RenewalFacts, RenewalPlan, next_ordinal, plan_normal, plan_renewal, plan_rotation, reuse_plan,
  rotation_plan,
}
use cert_me.Values.Ids.{check_id}
use cert_me.Values.Instant.{Instant, ValidityWindow, covers, equal, is_zero, is_zero_window}

-- The checks that every renewal passes, with the window `w` that the policy plans.
pub record Admitted (s : LeafSeries) (facts : RenewalFacts) (w : ValidityWindow) : Type 0 where
  pub kept : s.archived_at.micros ≡ pos 0
  pub own_generation : facts.current_generation.series_id ≡ s.id
  pub current_key : facts.current_generation.id ≡ s.current_key_generation_id
  pub issuer : check_id facts.target_issuer_id ≡ ok tt
  pub dated : is_zero_window facts.requested_window ≡ false
  pub by_policy : plan_window s.series_policy facts.requested_window.not_before ≡ ok w
  pub ends : facts.requested_window.not_after.micros ≡ w.not_after.micros
  pub covered :
      (is_zero_window facts.target_issuer_window ≡ true)
      ⊎ (covers facts.target_issuer_window w ≡ true)

-- A rotation takes a generation number above the current one.
abbrev pub Rotates : RenewalFacts → ValidityWindow → RenewalPlan → Type 0
Rotates facts w p =
    (facts.current_generation.generation_no <ℤ facts.next_key_generation_no)
    × (p ≡ rotation_plan facts w)

-- The key is kept while the count stays below the policy's bound.
abbrev pub Decided : LeafSeries → RenewalFacts → ValidityWindow → RenewalPlan → Type 0
Decided s facts w p =
    ((facts.is_emergency_reissue ≡ true) × Rotates facts w p)
    ⊎ ((facts.is_emergency_reissue ≡ false)
        × (facts.key_ready_for_renewal ≡ true)
        × (((s.series_policy.rotate_every ≤ℤ next_ordinal facts) × Rotates facts w p)
            ⊎ ((next_ordinal facts <ℤ s.series_policy.rotate_every)
                × (p ≡ reuse_plan facts (next_ordinal facts) w))))

equal_iff : (a b : Instant) → (equal a b ≡ true) ↔ (a.micros ≡ b.micros)
unfolding equal
equal_iff a b = eq_ℤ_iff a.micros b.micros

open_series_iff : (s : LeafSeries) → (series_is_archived s ≡ false) ↔ (s.archived_at.micros ≡ pos 0)
unfolding series_is_archived is_zero
open_series_iff s = ground arith

module _ (s : LeafSeries) (facts : RenewalFacts) (w : ValidityWindow) (p : RenewalPlan) where
  rotation_iff : (plan_rotation facts w ≡ ok p) ↔ Rotates facts w p
  rotation_iff = (λ h. (ground arith, ground arith), λ (above, same). ground arith)

  normal_iff : (plan_normal s facts w ≡ ok p) ↔ (
      (facts.key_ready_for_renewal ≡ true)
      × (((s.series_policy.rotate_every ≤ℤ next_ordinal facts) × Rotates facts w p)
          ⊎ ((next_ordinal facts <ℤ s.series_policy.rotate_every)
              × (p ≡ reuse_plan facts (next_ordinal facts) w))))
  unfolding plan_normal
  normal_iff = (λ h. ground arith, λ h. ground arith)

  Decided-iff :
      ((if facts.is_emergency_reissue then plan_rotation facts w else plan_normal s facts w) ≡ ok p)
      ↔ Decided s facts w p
  Decided-iff =
      let (normal_of, normal_ok) = normal_iff in
      (
        λ h. elim (Bool-cases facts.is_emergency_reissue) [
          | inl urgent ↦ inl (urgent, rotation_iff.0 (ground arith))
          | inr planned ↦
              let (ready, action_of) = normal_of (ground arith) in inr (planned, ready, action_of)
        ],
        elim [
          | inl (urgent, rotates) ↦ ground (arith, rotation_iff.1 rotates)
          | inr (planned, ready, action_of) ↦ ground (arith, normal_ok (ready, action_of))
        ],
      )

plan_renewal-Admitted :
    (s : LeafSeries) (facts : RenewalFacts) (now : Instant) {p : RenewalPlan}
    → plan_renewal s facts now ≡ ok p
    → (w : ValidityWindow) × Admitted s facts w × Decided s facts w p
unfolding plan_renewal
plan_renewal-Admitted s facts now {p} h =
    elim (Result-cases (plan_window s.series_policy facts.requested_window.not_before)) [
      | inr (e, refused) ↦ ground (arith, refused)
      | inl (w, planned) ↦ (
        w,
        record {
          kept = (open_series_iff s).0 (ground arith);
          own_generation = (text_eq_iff _ _).0 (ground arith);
          current_key = (text_eq_iff _ _).0 (ground arith);
          issuer = ground arith;
          dated = ground arith;
          by_policy = planned;
          ends = (equal_iff facts.requested_window.not_after w.not_after).0 (ground arith);
          covered = ground arith;
        },
        (Decided-iff s facts w p).0 (ground arith),
      )
    ]

Admitted-plan_renewal :
    (s : LeafSeries) (facts : RenewalFacts) (now : Instant) (w : ValidityWindow) {p : RenewalPlan}
    → Admitted s facts w
    → Decided s facts w p
    → plan_renewal s facts now ≡ ok p
unfolding plan_renewal
Admitted-plan_renewal s facts now w {p} m d = ground (
  arith,
  (open_series_iff s).1 m.kept,
  (text_eq_iff facts.current_generation.series_id s.id).1 m.own_generation,
  (text_eq_iff facts.current_generation.id s.current_key_generation_id).1 m.current_key,
  m.issuer,
  m.dated,
  m.by_policy,
  (equal_iff facts.requested_window.not_after w.not_after).1 m.ends,
  m.covered,
  (Decided-iff s facts w p).1 d,
)

pub plan_renewal_iff :
    (s : LeafSeries) (facts : RenewalFacts) (now : Instant) (p : RenewalPlan)
    → (plan_renewal s facts now ≡ ok p)
      ↔ ((w : ValidityWindow) × Admitted s facts w × Decided s facts w p)
plan_renewal_iff s facts now p =
    (plan_renewal-Admitted s facts now, λ (w, m, d). Admitted-plan_renewal s facts now w m d)

counted_one : (c : ℤ) → pos 0 ≤ℤ c → c <ℤ pos (2 ^ 63 - 1) → pos 0 ≤ℤ add64 c (pos 1)
counted_one (negsuc n) counted below = ground arith
counted_one (pos n) counted below =
    subst (λ m. pos 0 ≤ℤ m)
      (sym (add64_lem (pos n) (pos 1) (ground (arith, +ℤ_parts (pos n) (pos 1)))))
      (ground (arith, +ℤ_parts (pos n) (pos 1)))

-- The count that a plan stores is never negative and stays below the policy's bound, when the
-- policy is valid and the stored count is neither negative nor 2^63 - 1: a key signs at most as many
-- certificates in turn as the policy allows.
pub renewal_count_bounded :
    (s : LeafSeries) (facts : RenewalFacts) (now : Instant) (p : RenewalPlan)
    → validate_series_policy s.series_policy ≡ ok tt
    → pos 0 ≤ℤ facts.current_generation.renewal_count
    → facts.current_generation.renewal_count <ℤ pos (2 ^ 63 - 1)
    → plan_renewal s facts now ≡ ok p
    → (pos 0 ≤ℤ p.next_renewal_count) × (p.next_renewal_count <ℤ s.series_policy.rotate_every)
unfolding validate_series_policy next_ordinal
renewal_count_bounded s facts now p valid counted below h =
    let (w, m, d) = (plan_renewal_iff s facts now p).0 h in
    let one_more = counted_one facts.current_generation.renewal_count counted below in
    elim d [
      | inl (urgent, (above, same)) ↦ ground (arith, same, valid)
      | inr (planned, ready, inl (due, (above, same))) ↦ ground (arith, same, valid)
      | inr (planned, ready, inr (early, same)) ↦ ground (arith, same, early, one_more)
    ]
