-- ===== src/Calendar.antt =====
-- internal/domain/series.go, `CalendarValidity.Window`: calendar arithmetic over the proleptic
-- Gregorian calendar of Go's `time` package. A time is a day number (0 is 1970-01-01, in UTC) with
-- the microseconds since its midnight. `time.Date` counts days in a uint64 from an absolute year, and a
-- time keeps its seconds in an int64: both wrap, and a day number stands for the seconds that it wraps
-- to.
pub mod Civil
pub mod Months
pub mod Adding
use cert_me.Prelude.{if◌then◌else◌, leb, ltb, min, refl, suc, ℕ, ◌%◌, ◌*◌, ◌+◌, ◌-◌, ◌/◌, ◌^◌, ◌≡◌}
use cert_me.Prelude.Int.{add64, eq_ℤ, ltb_ℤ, negsuc, pos, pos_part, sub_ℕ, wrap64, ℤ, ◌+ℤ◌, ◌-ℤ◌}
use cert_me.Values.Instant.{Instant, unset}

abbrev pub day_micros : ℕ
day_micros = 86_400_000_000

-- Division by a positive number, rounded down, and its remainder.
unfoldable pub floor_div : ℤ → ℕ → ℤ
floor_div (pos n) k = pos (n / k)
floor_div (negsuc n) k = negsuc (n / k)

unfoldable pub floor_mod : ℤ → ℕ → ℕ
floor_mod (pos n) k = n % k
floor_mod (negsuc n) k = k - 1 - n % k

-- Go's `/` and `%` on `int`, which round toward zero.
unfoldable pub quot : ℤ → ℕ → ℤ
quot (pos n) k = pos (n / k)
quot (negsuc n) k = sub_ℕ 0 (suc n / k)

unfoldable pub rem : ℤ → ℕ → ℤ
rem (pos n) k = pos (n % k)
rem (negsuc n) k = sub_ℕ 0 (suc n % k)

-- `a * k`
unfoldable pub scale : ℤ → ℕ → ℤ
scale (pos n) k = pos (n * k)
scale (negsuc n) k = sub_ℕ 0 (suc n * k)

pub record Date : Type 0 where
  pub year : ℤ
  pub month : ℕ  -- 1 to 12
  pub day : ℕ  -- 1 to 31

-- Days from 1 March of year 0 to the first day of a month, for years that start in March.
unfoldable pub days_before_month : ℕ → ℕ
days_before_month m = (153 * (if ltb 2 m then m - 3 else m + 9) + 2) / 5

-- The years before year 0 from which `time` counts, and the days from 1 March of the first one to
-- 1970-01-01.
abbrev pub absolute_years : ℕ
absolute_years = 292_277_022_400

abbrev pub absolute_days : ℕ
absolute_days = 106_751_991_073_400

-- `dateToAbsDays` of the first day of a month, the year counted from March on, in uint64.
unfoldable pub date_to_abs_days : ℤ → ℕ → ℕ
date_to_abs_days y month =
    let a = floor_mod (y +ℤ pos absolute_years) (2 ^ 64) in
    146_097 * (a / 100) % 2 ^ 64 / 4 + 1461 * (a % 100) / 4 + days_before_month month

-- The day number of the first day of a month.
unfoldable pub month_start : ℤ → ℕ → ℤ
month_start year month =
    pos (date_to_abs_days (if ltb 2 month then year else year -ℤ pos 1) month) -ℤ pos absolute_days

-- `time.Date(year, month, day, …)` with a month from 1 to 13, as a day number.
unfoldable pub go_date : ℤ → ℕ → ℕ → ℤ
go_date year month day =
    (if ltb 12 month then month_start (year +ℤ pos 1) (month - 12) else month_start year month)
    +ℤ pos day
    -ℤ pos 1

-- The day `doy` of a year that starts in March.
unfoldable pub date_in_year : ℤ → ℕ → Date
date_in_year y doy =
    let mp = (5 * doy + 2) / 153 in
    let month = if ltb mp 10 then mp + 3 else mp - 9 in
    record {
      year = if leb month 2 then y +ℤ pos 1 else y;
      month = month;
      day = doy - (153 * mp + 2) / 5 + 1;
    }

-- The date of a day.
unfoldable pub date_of : ℤ → Date
date_of days =
    let z = days +ℤ pos 719_468 in
    let doe = floor_mod z 146_097 in
    let yoe = (doe - doe / 1460 + doe / 36_524 - doe / 146_096) / 365 in
    date_in_year (scale (floor_div z 146_097) 400 +ℤ pos yoe)
      (doe - (365 * yoe + yoe / 4 - yoe / 100))

-- The day of the absolute seconds, a uint64, that a time on a day has.
unfoldable pub read_day : ℤ → ℤ
read_day days =
    pos (floor_mod (scale days 86_400 +ℤ pos (absolute_days * 86_400)) (2 ^ 64) / 86_400)
    -ℤ pos absolute_days

-- `t.Date()`
unfoldable pub read_date : ℤ → Date
read_date days = date_of (read_day days)

-- `lastDayOfMonth`: day 0 of the month after.
unfoldable pub last_day_of_month : ℤ → ℕ → ℕ
last_day_of_month year month = (read_date (go_date year (month + 1) 0)).day

-- The target of `addCalendarMonths`: its year and its month, from 0.
unfoldable pub target_month : ℤ → ℕ → ℤ → ℤ × ℤ
target_month y m months =
    let total = add64 (pos m -ℤ pos 1) months in
    let ny = y +ℤ quot total 12 in
    let nm = rem total 12 in if ltb_ℤ nm (pos 0) then (ny -ℤ pos 1, nm +ℤ pos 12) else (ny, nm)

-- `addCalendarMonths` on the day number; the time of the day stays.
unfoldable pub add_calendar_months : ℤ → ℤ → ℤ
add_calendar_months days months =
    let date = read_date days in
    let (year, month) = target_month date.year date.month months in
    let m = pos_part month + 1 in go_date year m (min date.day (last_day_of_month year m))

-- `AddDate(0, 0, n)` on the day number.
unfoldable pub add_days : ℤ → ℤ → ℤ
unfolding ◌+ℤ◌
add_days days n = days +ℤ n

-- The instant of Go's zero time, 1 January of year 1, which `NewInstant` maps to the unset one.
abbrev pub zero_time_micros : ℤ
zero_time_micros = negsuc 62_135_596_799_999_999

-- `NewInstant` of a time of the day on a day: the seconds of the time wrap, and so do its microseconds.
unfoldable pub instant_on : ℤ → ℕ → Instant
unfolding scale ◌+ℤ◌ wrap64
instant_on days time =
    let seconds = wrap64 (scale days 86_400 +ℤ pos (time / 1_000_000)) in
    let exact = scale seconds 1_000_000 +ℤ pos (time % 1_000_000) in
    if eq_ℤ exact zero_time_micros then unset else record { micros = wrap64 exact }

-- The day and the time of the day of an instant: `Time()`.
unfoldable pub day_of : Instant → ℤ
unfolding floor_div
day_of i = floor_div i.micros day_micros

unfoldable pub time_of : Instant → ℕ
unfolding floor_mod
time_of i = floor_mod i.micros day_micros

date_test : date_of (pos 19_782) ≡ record { year = pos 2024; month = 2; day = 29 }
unfolding date_of date_in_year floor_div floor_mod scale ◌+ℤ◌ ◌-ℤ◌
date_test = refl

-- 29 February 2024 and 12 months is 28 February 2025; 31 January and a month is 29 February; and
-- 31 January and 10,000,000,000,000 months wraps to a year in the past of that.
months_test :
    (read_date (add_calendar_months (pos 19_782) (pos 12))
      ≡ record { year = pos 2025; month = 2; day = 28 })
    × (add_calendar_months (pos 19_753) (pos 1) ≡ pos 19_782)
    × (read_date (negsuc 0) ≡ record { year = pos 1969; month = 12; day = 31 })
    × ((read_date (add_calendar_months (pos 19_753) (pos 10_000_000_000_000))).year
        ≡ pos 248_779_286_103)
unfolding date_of date_in_year add_calendar_months add64 wrap64 target_month last_day_of_month
    go_date month_start date_to_abs_days read_date read_day days_before_month quot rem floor_div
    floor_mod scale ◌+ℤ◌ ◌-ℤ◌
months_test = (refl, refl, refl, refl)
