-- ===== src/Series.antt =====
-- internal/domain/series.go: leaf series, key generations and the plan of a renewal.
pub mod Plan
pub mod Renewal
use cert_me.Prelude.{Bool, length, ltb, not, ℕ, ◌||◌}
use cert_me.Calendar.{add_calendar_months, add_days, day_of, instant_on, scale, time_of}
use cert_me.Errors.{
  Check, Result, err, invalid_transition, invalid_value, ok, reject_if, wrapped, ◌>>=◌, ◌>>◌,
}
use cert_me.Prelude.Int.{leb_ℤ, ltb_ℤ, pos, wrap64, ℤ}
use cert_me.Prelude.Text.{Text, is_empty}
use cert_me.Values.Ids.{Version, check_id, next}
use cert_me.Values.Instant.{Instant, ValidityWindow, is_zero, new_validity_window}

pub data SeriesPurpose : Type 0 where
  distributed internal_tls bootstrap_tls_series : SeriesPurpose
  unlisted : Text → SeriesPurpose

unfoldable pub validate_series_purpose : SeriesPurpose → Check
validate_series_purpose (SeriesPurpose.unlisted _) = err (wrapped invalid_value)
validate_series_purpose distributed = ok tt
validate_series_purpose _ = ok tt

abbrev pub min_rotate_every : ℤ
min_rotate_every = pos 1

abbrev pub max_rotate_every : ℤ
max_rotate_every = pos 100

pub data ValidityUnit : Type 0 where
  years months days : ValidityUnit
  unlisted : Text → ValidityUnit

unfoldable pub validate_validity_unit : ValidityUnit → Check
validate_validity_unit (ValidityUnit.unlisted _) = err (wrapped invalid_value)
validate_validity_unit years = ok tt
validate_validity_unit _ = ok tt

pub record CalendarValidity : Type 0 where
  pub value : ℤ
  pub unit : ValidityUnit

unfoldable pub new_calendar_validity : ℤ → ValidityUnit → Result CalendarValidity
new_calendar_validity value unit = do
  validate_validity_unit unit
  reject_if (leb_ℤ value (pos 0)) (wrapped invalid_value)
  ok (record { value = value; unit = unit })

-- `IsPositive`
unfoldable pub validity_is_positive : CalendarValidity → Bool
validity_is_positive v = ltb_ℤ (pos 0) v.value

-- The `switch v.unit` of `Window`: the day on which the window ends.
unfoldable pub end_day : ValidityUnit → ℤ → ℤ → Result ℤ
end_day years value day = ok (add_calendar_months day (wrap64 (scale value 12)))
end_day months value day = ok (add_calendar_months day value)
end_day days value day = ok (add_days day value)
end_day (ValidityUnit.unlisted _) value day = err (wrapped invalid_value)

-- `CalendarValidity.Window`
unfoldable pub window : CalendarValidity → Instant → Result ValidityWindow
window v not_before = do
  day ← end_day v.unit v.value (day_of not_before)
  new_validity_window not_before (instant_on day (time_of not_before))

pub record SeriesPolicy : Type 0 where
  pub rotate_every : ℤ
  pub certificate_validity : CalendarValidity

unfoldable pub validate_series_policy : SeriesPolicy → Check
validate_series_policy p = do
  reject_if (ltb_ℤ p.rotate_every min_rotate_every || ltb_ℤ max_rotate_every p.rotate_every)
      (wrapped invalid_value)
  reject_if (not (validity_is_positive p.certificate_validity)) (wrapped invalid_value)

-- `SeriesPolicy.PlanWindow`
unfoldable pub plan_window : SeriesPolicy → Instant → Result ValidityWindow
plan_window p not_before = window p.certificate_validity not_before

-- `LeafSeries`, and `LeafSeriesFacts` with the same fields.
pub record LeafSeries : Type 0 where
  pub id : Text
  pub name : Text
  pub purpose : SeriesPurpose
  pub management_authority_id : Text
  pub current_certificate_id : Text
  pub current_key_generation_id : Text
  pub series_policy : SeriesPolicy
  pub version : Version
  pub archived_at : Instant

abbrev pub max_series_name_length : ℕ
max_series_name_length = 255

unfoldable pub new_leaf_series : LeafSeries → Result LeafSeries
new_leaf_series facts = do
  check_id facts.id
  reject_if (is_empty facts.name || ltb max_series_name_length (length facts.name))
      (wrapped invalid_value)
  validate_series_purpose facts.purpose
  check_id facts.management_authority_id
  validate_series_policy facts.series_policy
  ok facts

unfoldable pub series_is_archived : LeafSeries → Bool
series_is_archived s = not (is_zero s.archived_at)

unfoldable pub change_policy : LeafSeries → SeriesPolicy → Result LeafSeries
change_policy s new_policy = do
  reject_if (series_is_archived s) (wrapped invalid_transition)
  validate_series_policy new_policy
  ok (record s { series_policy = new_policy; version = next s.version })

pub data KeyCustody : Type 0 where
  pending_delivery client_held internal_custody : KeyCustody
  unlisted : Text → KeyCustody

unfoldable pub validate_key_custody : KeyCustody → Check
validate_key_custody (KeyCustody.unlisted _) = err (wrapped invalid_value)
validate_key_custody pending_delivery = ok tt
validate_key_custody _ = ok tt

-- `LeafKeyGeneration`, and `LeafKeyGenerationFacts` with the same fields.
pub record LeafKeyGeneration : Type 0 where
  pub id : Text
  pub series_id : Text
  pub key_material_id : Text
  pub generation_no : ℤ
  pub renewal_count : ℤ
  pub prior_history_unknown : Bool
  pub custody : KeyCustody

unfoldable pub new_leaf_key_generation : LeafKeyGeneration → Result LeafKeyGeneration
new_leaf_key_generation facts = do
  check_id facts.id
  check_id facts.series_id
  check_id facts.key_material_id
  reject_if (ltb_ℤ facts.generation_no (pos 1)) (wrapped invalid_value)
  reject_if (ltb_ℤ facts.renewal_count (pos 0)) (wrapped invalid_value)
  validate_key_custody facts.custody
  ok facts
