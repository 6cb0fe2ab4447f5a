-- ===== src/Calendar/Adding.antt =====
-- internal/domain/series.go: `lastDayOfMonth` and `addCalendarMonths` against the calendar, where the
-- counters of `time` do not wrap.
use cert_me.Prelude.{
  Bool-cases, ap, arith, false, inl, inr, ltb, min, ℕ, ◌%◌, ◌*◌, ◌+◌, ◌-◌, ◌/◌, ◌<◌, ◌^◌, ◌∙◌, ◌≡◌,
  ◌≤◌,
}
use cert_me.Calendar.{
  absolute_days, absolute_years, add_calendar_months, date_of, date_to_abs_days, days_before_month,
  floor_div, floor_mod, go_date, last_day_of_month, month_start, read_date, read_day, scale,
}
use cert_me.Calendar.Civil.{
  IsDay, civil_date, civil_start, date_of-civil_date, days_in_month, march_year,
}
use cert_me.Calendar.Months.{day_zero, target_lem}
use cert_me.Prelude.Int.{neg_part, negsuc, pos, pos_part, ℤ, ◌+ℤ◌, ◌-ℤ◌}

-- A year that is at most twenty thousand million years from year 0.
abbrev pub IsNear : ℤ → Type 0
IsNear y = (pos_part y ≤ 20_000_000_000) × (neg_part y ≤ 20_000_000_000)

by_centuries :
    (a m : ℕ)
    → a < 2 ^ 50
    → 146_097 * (a / 100) % 2 ^ 64 / 4 + 1461 * (a % 100) / 4 + m
      ≡ 146_097 * (a / 400) + (a % 400 * 365 + a % 400 / 4 - a % 400 / 100 + m)
by_centuries a m small = omega arith

-- The absolute year of a near year, by its era.
near_year :
    (y : ℤ)
    → IsNear y
    → (floor_mod (y +ℤ pos absolute_years) (2 ^ 64) < 2 ^ 50)
      × (pos (floor_mod (y +ℤ pos absolute_years) (2 ^ 64) / 400)
          ≡ floor_div y 400 +ℤ pos 730_692_556)
      × (floor_mod (y +ℤ pos absolute_years) (2 ^ 64) % 400 ≡ floor_mod y 400)
unfolding floor_mod floor_div ◌+ℤ◌
near_year (pos n) near = (ground arith, ground arith, ground arith)
near_year (negsuc n) near = (ground arith, ground arith, ground arith)

rebased :
    (e : ℤ) (a r : ℕ)
    → pos a ≡ e +ℤ pos 730_692_556
    → pos (146_097 * a + r) -ℤ pos absolute_days ≡ scale e 146_097 +ℤ pos r -ℤ pos 719_468
unfolding scale ◌+ℤ◌ ◌-ℤ◌
rebased (pos n) a r h = ground arith
rebased (negsuc n) a r h = ground arith

month_start-civil :
    (year : ℤ) (month : ℕ)
    → IsNear (march_year year month)
    → month_start year month ≡ civil_start year month
unfolding month_start civil_start date_to_abs_days
month_start-civil year month near =
    let y = march_year year month in
    let a = floor_mod (y +ℤ pos absolute_years) (2 ^ 64) in
    let m = days_before_month month in
    let era = scale (floor_div y 400) 146_097 in
    let (small, same_era, same_year) = near_year y near in
    ap (λ q. pos q -ℤ pos absolute_days) (by_centuries a m small)
    ∙ rebased (floor_div y 400) (a / 400) (a % 400 * 365 + a % 400 / 4 - a % 400 / 100 + m) same_era
    ∙ ap (λ r. era +ℤ pos (r * 365 + r / 4 - r / 100 + m) -ℤ pos 719_468) same_year

-- A year that is at most ten thousand million years from year 0.
abbrev pub IsClose : ℤ → Type 0
IsClose y = (pos_part y ≤ 10_000_000_000) × (neg_part y ≤ 10_000_000_000)

close_years :
    (year : ℤ) (month : ℕ) → IsClose year → IsNear (march_year year month) × IsNear (year +ℤ pos 1)
unfolding ◌+ℤ◌ ◌-ℤ◌
close_years (pos n) month close = ground arith
close_years (negsuc n) month close = ground arith

close_next : (year : ℤ) → IsClose year → IsNear (march_year (year +ℤ pos 1) 1)
unfolding ◌+ℤ◌ ◌-ℤ◌
close_next (pos n) close = ground arith
close_next (negsuc n) close = ground arith

go_date-civil :
    (year : ℤ) (month day : ℕ)
    → IsClose year
    → month ≤ 13
    → go_date year month day ≡ civil_date year month day
unfolding go_date civil_date
go_date-civil year month day close high = elim (Bool-cases (ltb 12 month)) [
  | inl over ↦
      let last : month ≡ 13 = ground arith in
      rw last (
        ap (λ z. z +ℤ pos day -ℤ pos 1)
          (month_start-civil (year +ℤ pos 1) 1 (close_next year close)))
  | inr within ↦ rw within (
      ap (λ z. z +ℤ pos day -ℤ pos 1)
        (month_start-civil year month (close_years year month close).0))
]

read_near : (d : ℤ) → pos_part d ≤ 10 ^ 13 → neg_part d ≤ 10 ^ 13 → read_day d ≡ d
unfolding read_day floor_mod scale ◌+ℤ◌ ◌-ℤ◌
read_near (pos n) high low = ground arith
read_near (negsuc n) high low = ground arith

start_bounds :
    (y : ℤ) (m day : ℕ)
    → IsNear y
    → m ≤ 400
    → day ≤ 31
    → let d =
        scale (floor_div y 400) 146_097
        +ℤ pos (floor_mod y 400 * 365 + floor_mod y 400 / 4 - floor_mod y 400 / 100 + m)
        -ℤ pos 719_468
        +ℤ pos day
        -ℤ pos 1 in
      (pos_part d ≤ 10 ^ 13) × (neg_part d ≤ 10 ^ 13)
unfolding scale floor_div floor_mod ◌+ℤ◌ ◌-ℤ◌
start_bounds (pos n) m day near small few = ground arith
start_bounds (negsuc n) m day near small few = ground arith

month_small : (month : ℕ) → month ≤ 12 → days_before_month month ≤ 400
unfolding days_before_month
month_small month high = ground arith

read_civil :
    (year : ℤ) (month day : ℕ)
    → IsClose year
    → month ≤ 12
    → day ≤ 31
    → read_day (civil_date year month day) ≡ civil_date year month day
unfolding civil_date civil_start
read_civil year month day close high few =
    let within : ltb 12 month ≡ false = ground arith in
    let (up, down) =
      start_bounds (march_year year month) (days_before_month month) day
        (close_years year month close).0 (month_small month high) few in
    rw within (read_near _ up down)

-- `time.Date` of a day that the calendar has, read back by `Date`.
read_date-go_date :
    (year : ℤ) (month day : ℕ)
    → IsClose year
    → IsDay year month day
    → read_date (go_date year month day) ≡ record { year = year; month = month; day = day }
unfolding read_date
read_date-go_date year month day close (low, high, first, last) =
    ap (λ z. date_of (read_day z)) (go_date-civil year month day close (omega arith))
    ∙ ap date_of (read_civil year month day close high (ground arith))
    ∙ date_of-civil_date year month day (low, high, first, last)

-- `lastDayOfMonth` is the calendar's length of the month.
pub last_day_of_month_lem :
    (year : ℤ) (month : ℕ)
    → IsClose year
    → 1 ≤ month
    → month ≤ 12
    → last_day_of_month year month ≡ days_in_month year month
unfolding last_day_of_month read_date
last_day_of_month_lem year month close low high =
    ap (λ z. (date_of (read_day z)).day)
      (go_date-civil year (month + 1) 0 close (omega arith) ∙ day_zero year month low high)
    ∙ ap (λ z. (date_of z).day)
        (read_civil year month (days_in_month year month) close high (ground arith))
    ∙ ap (λ d. d.day)
        (date_of-civil_date year month (days_in_month year month)
          (low, high, ground arith, ground arith))

-- `addCalendarMonths` of a day that the calendar has, in a year at most ten thousand million years from
-- year 0: the month is that many months later, and the day is the same or, in a shorter month, the last
-- one. For every number of months from 0 on that leads to such a year again, which an int64 holds with
-- eleven more; further years make the counters of `time` wrap.
pub add_calendar_months_lem :
    (year : ℤ) (month day k : ℕ)
    → IsDay year month day
    → IsClose year
    → k + 11 < 2 ^ 63
    → IsClose (year +ℤ pos ((month - 1 + k) / 12))
    → let total = month - 1 + k in
      let later = year +ℤ pos (total / 12) in
      let m = total % 12 + 1 in
      read_date (add_calendar_months (go_date year month day) (pos k))
      ≡ record { year = later; month = m; day = min day (days_in_month later m) }
unfolding add_calendar_months
add_calendar_months_lem year month day k valid close fits still_close =
    let (low, high, first, last) = valid in
    let total = month - 1 + k in
    let later = year +ℤ pos (total / 12) in
    let m = total % 12 + 1 in
    rw (read_date-go_date year month day close valid) (
      rw (target_lem year month k low high fits) (
        rw (last_day_of_month_lem later m still_close (omega arith) (omega arith)) (
          read_date-go_date later m (min day (days_in_month later m)) still_close
            (omega arith, omega arith, ground arith, ground arith))))
