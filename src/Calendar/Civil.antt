-- ===== src/Calendar/Civil.antt =====
use cert_me.Prelude.{
  Bool, Bool-cases, ap, arith, false, if◌then◌else◌, inl, inr, ltb, not, true, ℕ, ◌%◌, ◌&&◌, ◌*◌,
  ◌+◌, ◌-◌, ◌/◌, ◌<◌, ◌==◌, ◌||◌, ◌∙◌, ◌≡◌, ◌≢◌, ◌≤◌, ◌⊎◌,
}
use cert_me.Calendar.{date_in_year, date_of, days_before_month, floor_div, floor_mod, scale}
use cert_me.Prelude.Int.{negsuc, pos, ℤ, ◌+ℤ◌, ◌-ℤ◌}

-- The day number of the first day of a month in the calendar without bounds, by eras of 400 years.
unfoldable pub civil_start : ℤ → ℕ → ℤ
civil_start year month =
    let y = if ltb 2 month then year else year -ℤ pos 1 in
    let yoe = floor_mod y 400 in
    scale (floor_div y 400) 146_097
    +ℤ pos (yoe * 365 + yoe / 4 - yoe / 100 + days_before_month month)
    -ℤ pos 719_468

unfoldable pub civil_date : ℤ → ℕ → ℕ → ℤ
civil_date year month day =
    (if ltb 12 month then civil_start (year +ℤ pos 1) (month - 12) else civil_start year month)
    +ℤ pos day
    -ℤ pos 1

-- The year `z` of the Gregorian calendar, modulo 400, is a leap year.
abbrev IsLeap : ℕ → Type 0
IsLeap z = ((z % 4 ≡ 0) × (z % 100 ≢ 0)) ⊎ (z % 400 ≡ 0)

-- The day `doy` from 1 March on of the year `yoe` is there.
abbrev InYear : ℕ → ℕ → Type 0
InYear yoe doy = (doy < 365) ⊎ ((doy ≡ 365) × IsLeap (yoe + 1))

year_back :
    (yoe doy : ℕ)
    → yoe < 400
    → InYear yoe doy
    → let doe = yoe * 365 + yoe / 4 - yoe / 100 + doy in
      (doe - doe / 1460 + doe / 36_524 - doe / 146_096) / 365 ≡ yoe
year_back yoe doy small day = omega arith

doe_small :
    (yoe doy : ℕ) → yoe < 400 → InYear yoe doy → yoe * 365 + yoe / 4 - yoe / 100 + doy < 146_097
doe_small yoe doy small day = omega arith

era_back :
    (era : ℤ) (doe : ℕ) → doe < 146_097 → floor_div (scale era 146_097 +ℤ pos doe) 146_097 ≡ era
unfolding floor_div scale ◌+ℤ◌
era_back (pos n) doe h = ground arith
era_back (negsuc n) doe h = ground arith

doe_back :
    (era : ℤ) (doe : ℕ) → doe < 146_097 → floor_mod (scale era 146_097 +ℤ pos doe) 146_097 ≡ doe
unfolding floor_mod floor_div scale ◌+ℤ◌
doe_back (pos n) doe h = ground arith
doe_back (negsuc n) doe h = ground arith

-- The calendar's own table of the lengths of months.
abbrev pub is_leap_year : ℤ → Bool
is_leap_year year =
    floor_mod year 4 == 0 && (not (floor_mod year 100 == 0) || floor_mod year 400 == 0)

abbrev pub days_in_month : ℤ → ℕ → ℕ
days_in_month year month =
    if month == 2
    then (if is_leap_year year then 29 else 28)
    else if month == 4 || month == 6 || month == 9 || month == 11
    then 30
    else 31

next-IsLeap : (y : ℤ) → is_leap_year (y +ℤ pos 1) ≡ true → IsLeap (floor_mod y 400 + 1)
unfolding floor_mod ◌+ℤ◌
next-IsLeap (pos n) h = ground arith
next-IsLeap (negsuc n) h = ground arith

year_parts : (y : ℤ) → scale (floor_div y 400) 400 +ℤ pos (floor_mod y 400) ≡ y
unfolding floor_mod floor_div scale ◌+ℤ◌
year_parts (pos n) = ground arith
year_parts (negsuc n) = ground arith

in_era : (y : ℤ) → floor_mod y 400 < 400
unfolding floor_mod
in_era (pos n) = ground arith
in_era (negsuc n) = ground arith

shift :
    (a : ℤ) (p d : ℕ)
    → 1 ≤ d
    → a +ℤ pos p -ℤ pos 719_468 +ℤ pos d -ℤ pos 1 +ℤ pos 719_468 ≡ a +ℤ pos (p + (d - 1))
unfolding ◌+ℤ◌ ◌-ℤ◌
shift (pos n) p d h = ground arith
shift (negsuc n) p d h = ground arith

-- The month `mp`, from March on, and the day in it, of a day in the year.
month_back :
    (month day : ℕ)
    → 1 ≤ month
    → month ≤ 12
    → 1 ≤ day
    → day ≤ (
        if month == 2
        then 29
        else if month == 4 || month == 6 || month == 9 || month == 11
        then 30
        else 31)
    → (5 * (days_before_month month + (day - 1)) + 2) / 153
      ≡ (if ltb 2 month then month - 3 else month + 9)
unfolding days_before_month
month_back month day low high first last = ground arith

-- The year that starts in March.
abbrev pub march_year : ℤ → ℕ → ℤ
march_year year month = if ltb 2 month then year else year -ℤ pos 1

-- A day that the table has.
abbrev pub IsDay : ℤ → ℕ → ℕ → Type 0
IsDay year month day = (1 ≤ month) × (month ≤ 12) × (1 ≤ day) × (day ≤ days_in_month year month)

pub one_back : (y : ℤ) → y -ℤ pos 1 +ℤ pos 1 ≡ y
unfolding ◌+ℤ◌ ◌-ℤ◌
one_back (pos n) = ground arith
one_back (negsuc n) = ground arith

in_year :
    (year : ℤ) (month day : ℕ)
    → IsDay year month day
    → InYear (floor_mod (march_year year month) 400) (days_before_month month + (day - 1))
unfolding days_before_month
in_year year month day (low, high, first, last) = elim (Bool-cases (is_leap_year year)) [
  | inl leap ↦ elim (Bool-cases (month == 2)) [
    | inl february ↦
        let before = next-IsLeap (year -ℤ pos 1) (rw (one_back year) leap) in ground (arith, before)
    | inr other ↦ inl (ground arith)
  ]
  | inr common ↦ inl (ground arith)
]

-- The day from the start of the era.
abbrev day_of_era : ℤ → ℕ → ℕ → ℕ
day_of_era year month day =
    let yoe = floor_mod (march_year year month) 400 in
    yoe * 365 + yoe / 4 - yoe / 100 + (days_before_month month + (day - 1))

date_shift :
    (year : ℤ) (month day : ℕ)
    → IsDay year month day
    → civil_date year month day +ℤ pos 719_468
      ≡ scale (floor_div (march_year year month) 400) 146_097 +ℤ pos (day_of_era year month day)
unfolding civil_date civil_start
date_shift year month day (low, high, first, last) =
    let era = scale (floor_div (march_year year month) 400) 146_097 in
    let yoe = floor_mod (march_year year month) 400 in
    let start = yoe * 365 + yoe / 4 - yoe / 100 in
    let within : ltb 12 month ≡ false = ground arith in
    let sums : start + days_before_month month + (day - 1)
        ≡ start + (days_before_month month + (day - 1)) =
      omega arith in
    rw within (shift era (start + days_before_month month) day first ∙ ap (λ q. era +ℤ pos q) sums)

day_back :
    (year : ℤ) (month day : ℕ)
    → IsDay year month day
    → date_in_year (march_year year month) (days_before_month month + (day - 1))
      ≡ record { year = year; month = month; day = day }
unfolding date_in_year
day_back year month day (low, high, first, last) =
    rw (month_back month day low high first (ground arith))
      (unfold days_before_month in ground (arith, one_back year))

doy_back :
    (yoe doy : ℕ)
    → let doe = yoe * 365 + yoe / 4 - yoe / 100 + doy in
      doe - (365 * yoe + yoe / 4 - yoe / 100) ≡ doy
doy_back yoe doy = omega arith

-- The date of the day number of a day that the calendar has is that day: for every year, before and
-- after year 0.
pub date_of-civil_date :
    (year : ℤ) (month day : ℕ)
    → IsDay year month day
    → date_of (civil_date year month day) ≡ record { year = year; month = month; day = day }
unfolding date_of
date_of-civil_date year month day valid =
    let y = march_year year month in
    let yoe = floor_mod y 400 in
    let doy = days_before_month month + (day - 1) in
    let doe = day_of_era year month day in
    let fits = in_year year month day valid in
    let small = doe_small yoe doy (in_era y) fits in
    rw (date_shift year month day valid) (
      rw (doe_back (floor_div y 400) doe small) (
        rw (era_back (floor_div y 400) doe small) (
          rw (year_back yoe doy (in_era y) fits)
            (rw (doy_back yoe doy) (rw (year_parts y) (day_back year month day valid))))))
