-- ===== src/Examples/Renewals.antt =====
-- internal/domain/series.go at concrete inputs.
use cert_me.Prelude.{arith, false, refl, true, ◌≡◌}
use cert_me.Calendar.{
  add_days, date_of, day_of, days_before_month, floor_div, floor_mod, go_date, instant_on,
  month_start, quot, rem, scale, time_of,
}
use cert_me.Errors.{ok}
use cert_me.Examples.Samples.{at, between, id_a, id_b, id_c}
use cert_me.Prelude.Int.{add64, pos, wrap64, ◌+ℤ◌, ◌<ℤ◌, ◌≤ℤ◌}
use cert_me.Prelude.Text.{bytes, text_eq}
use cert_me.Series.{
  LeafSeries, SeriesPolicy, days, distributed, end_day, internal_custody, plan_window,
  series_is_archived, validate_series_policy, validity_is_positive, window,
}
use cert_me.Series.Plan.{
  RenewalFacts, RenewalPlan, next_ordinal, plan_normal, plan_renewal, reuse_plan,
}
use cert_me.Series.Renewal.{renewal_count_bounded}
use cert_me.Values.Ids.{parse_uuid}
use cert_me.Values.Instant.{
  after, before, covers, equal, is_zero, is_zero_window, new_validity_window, no_window, unset,
}

abbrev ten_days : SeriesPolicy
ten_days = record {
  rotate_every = pos 3;
  certificate_validity = record { value = pos 10; unit = days };
}

abbrev pub web_series : LeafSeries
web_series = record {
  id = id_a;
  name = bytes "web";
  purpose = distributed;
  management_authority_id = id_b;
  current_certificate_id = id_b;
  current_key_generation_id = id_c;
  series_policy = ten_days;
  version = pos 1;
  archived_at = unset;
}

abbrev renewal : RenewalFacts
renewal = record {
  current_generation = record {
    id = id_c;
    series_id = id_a;
    key_material_id = id_b;
    generation_no = pos 1;
    renewal_count = pos 0;
    prior_history_unknown = false;
    custody = internal_custody;
  };
  target_issuer_id = id_b;
  target_issuer_window = no_window;
  requested_window = between 1 864_000_000_001;
  key_ready_for_renewal = true;
  is_emergency_reissue = false;
  next_key_generation_no = pos 2;
}

abbrev renewed : RenewalPlan
renewed = reuse_plan renewal (pos 1) (between 1 864_000_000_001)

renewal_planned : plan_renewal web_series renewal (at 500) ≡ ok renewed
unfolding plan_renewal series_is_archived is_zero text_eq parse_uuid is_zero_window plan_window
    window end_day new_validity_window instant_on add_days day_of time_of equal plan_normal
    next_ordinal floor_div floor_mod quot rem scale add64 wrap64 ◌+ℤ◌ after before covers
    month_start days_before_month go_date date_of
renewal_planned = refl

ten_days_valid : validate_series_policy ten_days ≡ ok tt
unfolding validate_series_policy validity_is_positive
ten_days_valid = refl

renewal_count_bounded_example :
    (pos 0 ≤ℤ renewed.next_renewal_count) × (renewed.next_renewal_count <ℤ ten_days.rotate_every)
renewal_count_bounded_example =
    renewal_count_bounded web_series renewal (at 500) renewed ten_days_valid (ground arith)
      (ground arith) renewal_planned
