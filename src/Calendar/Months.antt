-- ===== src/Calendar/Months.antt =====
-- internal/domain/series.go: `lastDayOfMonth` and `addCalendarMonths` against the calendar's table.
use cert_me.Prelude.{
  ap, arith, false, if◌then◌else◌, inl, inr, ltb, refl, subst, true, ℕ, ◌%◌, ◌*◌, ◌+◌, ◌-◌, ◌/◌,
  ◌<◌, ◌==◌, ◌^◌, ◌∙◌, ◌≡◌, ◌≤◌, ◌⊎◌,
}
use cert_me.Calendar.{days_before_month, floor_div, floor_mod, quot, rem, scale, target_month}
use cert_me.Calendar.Civil.{civil_date, civil_start, days_in_month, is_leap_year, one_back}
use cert_me.Prelude.Int.{add64, ltb_ℤ, negsuc, pos, wrap64, ℤ, ◌+ℤ◌, ◌-ℤ◌}

-- The days of the years before `yoe` in its era.
abbrev before_year : ℕ → ℕ
before_year yoe = yoe * 365 + yoe / 4 - yoe / 100

-- From one 1 March to the next.
next_march :
    (y : ℤ)
    → scale (floor_div (y +ℤ pos 1) 400) 146_097 +ℤ pos (before_year (floor_mod (y +ℤ pos 1) 400))
      ≡ scale (floor_div y 400) 146_097
        +ℤ pos (before_year (floor_mod y 400) + (if is_leap_year (y +ℤ pos 1) then 366 else 365))
unfolding scale floor_div floor_mod ◌+ℤ◌
next_march (pos n) = ground arith
next_march (negsuc n) = ground arith

-- The first day of a month of the year `y` from March on.
abbrev start_of : ℤ → ℕ → ℤ
start_of y month =
    scale (floor_div y 400) 146_097
    +ℤ pos (before_year (floor_mod y 400) + days_before_month month)
    -ℤ pos 719_468

longer :
    (a : ℤ) (p q len : ℕ)
    → q ≡ p + len
    → a +ℤ pos q -ℤ pos 719_468 ≡ a +ℤ pos p -ℤ pos 719_468 +ℤ pos len
unfolding ◌+ℤ◌ ◌-ℤ◌
longer (pos n) p q len h = ground arith
longer (negsuc n) p q len h = ground arith

regroup : (a : ℤ) (p q : ℕ) → a +ℤ pos (p + q) ≡ a +ℤ pos p +ℤ pos q
unfolding ◌+ℤ◌
regroup (pos n) p q = ground arith
regroup (negsuc n) p q = ground arith

up_and_back : (y : ℤ) → y +ℤ pos 1 -ℤ pos 1 ≡ y
unfolding ◌+ℤ◌ ◌-ℤ◌
up_and_back (pos n) = ground arith
up_and_back (negsuc n) = ground arith

february : (y : ℤ) → start_of (y +ℤ pos 1) 3 ≡ start_of y 2 +ℤ pos (days_in_month (y +ℤ pos 1) 2)
february y =
    let era = scale (floor_div y 400) 146_097 in
    let next_era = scale (floor_div (y +ℤ pos 1) 400) 146_097 in
    let b = before_year (floor_mod y 400) in
    let next_b = before_year (floor_mod (y +ℤ pos 1) 400) in
    let len : ℕ = if is_leap_year (y +ℤ pos 1) then 366 else 365 in
    let march : next_b + days_before_month 3 ≡ next_b = unfold days_before_month in omega arith in
    let sums : b + len ≡ b + days_before_month 2 + days_in_month (y +ℤ pos 1) 2 =
      unfold days_before_month in ground arith in
    ap (λ z. z -ℤ pos 719_468) (ap (λ q. next_era +ℤ pos q) march ∙ next_march y)
    ∙ longer era (b + days_before_month 2) (b + len) (days_in_month (y +ℤ pos 1) 2) sums

-- Any other month of the year from March on.
inner_month :
    (y : ℤ) (month next_month len : ℕ)
    → days_before_month next_month ≡ days_before_month month + len
    → start_of y next_month ≡ start_of y month +ℤ pos len
inner_month y month next_month len step =
    let b = before_year (floor_mod y 400) in
    longer (scale (floor_div y 400) 146_097) (b + days_before_month month)
      (b + days_before_month next_month) len (omega (arith, step))

-- The first day of the next month.
abbrev next_start : ℤ → ℕ → ℤ
next_start year month =
    if month == 12 then civil_start (year +ℤ pos 1) 1 else civil_start year (month + 1)

month_cases : (m : ℕ) → 1 ≤ m → m ≤ 12 → (m ≡ 1) ⊎ (m ≡ 2) ⊎ ((3 ≤ m) × (m ≤ 11)) ⊎ (m ≡ 12)
month_cases m low high = omega arith

-- A month whose first day is that far from the next one's.
abbrev Leads : ℤ → ℕ → Type 0
Leads year month = next_start year month ≡ civil_start year month +ℤ pos (days_in_month year month)

january : (year : ℤ) → Leads year 1
unfolding civil_start
january year = inner_month (year -ℤ pos 1) 1 2 31 (unfold days_before_month in refl)

february_of :
    (y year : ℤ) → y +ℤ pos 1 ≡ year → start_of year 3 ≡ start_of y 2 +ℤ pos (days_in_month year 2)
february_of y year e =
    subst (λ z. start_of z 3 ≡ start_of y 2 +ℤ pos (days_in_month z 2)) e (february y)

february-Leads : (year : ℤ) → Leads year 2
unfolding civil_start
february-Leads year = february_of (year -ℤ pos 1) year (one_back year)

from_march : (year : ℤ) (month : ℕ) → 3 ≤ month → month ≤ 11 → Leads year month
unfolding civil_start
from_march year month low high =
    let not_last : month == 12 ≡ false = ground arith in
    let late : ltb 2 month ≡ true = ground arith in
    let next_late : ltb 2 (month + 1) ≡ true = ground arith in
    let step : days_before_month (month + 1) ≡ days_before_month month + days_in_month year month =
      unfold days_before_month in ground arith in
    rw not_last
      (rw late (rw next_late (inner_month year month (month + 1) (days_in_month year month) step)))

december : (year : ℤ) → Leads year 12
unfolding civil_start
december year = rw (up_and_back year) (inner_month year 12 1 31 (unfold days_before_month in refl))

next_start_lem : (year : ℤ) (month : ℕ) → 1 ≤ month → month ≤ 12 → Leads year month
next_start_lem year month low high = elim (month_cases month low high) [
  | inl e ↦ rw e (january year)
  | inr (inl e) ↦ rw e (february-Leads year)
  | inr (inr (inl (l, h))) ↦ from_march year month l h
  | inr (inr (inr e)) ↦ rw e (december year)
]

start_back : (a : ℤ) (len : ℕ) → a +ℤ pos len +ℤ pos 0 -ℤ pos 1 ≡ a +ℤ pos len -ℤ pos 1
unfolding ◌+ℤ◌
start_back (pos n) len = ground arith
start_back (negsuc n) len = ground arith

december_next :
    (year : ℤ) (month : ℕ)
    → 1 ≤ month
    → month ≤ 12
    → civil_date year (month + 1) 0 ≡ next_start year month +ℤ pos 0 -ℤ pos 1
unfolding civil_date
december_next year month low high = elim (month_cases month low high) [
  | inl e ↦ rw e refl
  | inr (inl e) ↦ rw e refl
  | inr (inr (inl (l, h))) ↦
      let not_last : month == 12 ≡ false = ground arith in
      let within : ltb 12 (month + 1) ≡ false = ground arith in rw not_last (rw within refl)
  | inr (inr (inr e)) ↦ rw e refl
]

this_month :
    (year : ℤ) (month len : ℕ)
    → month ≤ 12
    → civil_start year month +ℤ pos len -ℤ pos 1 ≡ civil_date year month len
unfolding civil_date
this_month year month len high = let within : ltb 12 month ≡ false = ground arith in rw within refl

pub target_lem :
    (year : ℤ) (month k : ℕ)
    → 1 ≤ month
    → month ≤ 12
    → k + 11 < 2 ^ 63
    → target_month year month (pos k)
      ≡ (year +ℤ pos ((month - 1 + k) / 12), pos ((month - 1 + k) % 12))
unfolding target_month
target_lem year month k low high fits =
    let total = month - 1 + k in
    let sum : add64 (pos month -ℤ pos 1) (pos k) ≡ pos total =
      unfold add64 in unfold wrap64 in unfold ◌-ℤ◌ in unfold ◌+ℤ◌ in ground arith in
    let kept : ltb_ℤ (pos (total % 12)) (pos 0) ≡ false = ground arith in
    rw sum (unfold quot in unfold rem in rw kept refl)

-- Day 0 of the next month is the last day of this one.
pub day_zero :
    (year : ℤ) (month : ℕ)
    → 1 ≤ month
    → month ≤ 12
    → civil_date year (month + 1) 0 ≡ civil_date year month (days_in_month year month)
day_zero year month low high =
    december_next year month low high
    ∙ ap (λ z. z +ℤ pos 0 -ℤ pos 1) (next_start_lem year month low high)
    ∙ start_back (civil_start year month) (days_in_month year month)
    ∙ this_month year month (days_in_month year month) high
