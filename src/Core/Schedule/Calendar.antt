-- ===== src/Core/Schedule/Calendar.antt =====
-- crates/novbot-core/src/schedule.rs: the calendar of `civil_from_days`.
use novbot.Common.{
  ℕ, ◌+◌, ◌-◌, ◌*◌, ◌/◌, ◌%◌, ◌<◌, ◌≤◌, ◌≡◌, ◌≢◌, refl, sym, ◌∙◌, arith, ltb, leb, if◌then◌else◌,
  ◌^◌, ◌⊎◌, ◌&&◌, ◌||◌, not, ◌==◌, Bool, true, false, inl, inr, Bool-cases,
}
use mathlib.Core.Path.{subst}
use native.Mathlib.Nat.{le_trans}
use novbot.Core.Schedule.{civil_date, civil_from_days, utc_parts}

-- The days before a year of an era, counted from 1 March of the era's first year.
days_before_year : ℕ → ℕ
days_before_year yoe = 365 * yoe + yoe / 4 - yoe / 100

-- The estimate of the year is right: the day lies in it.
year_of_era :
    (doe yoe : ℕ)
    → doe < 146097
    → yoe ≡ (doe - doe / 1460 + doe / 36524 - doe / 146096) / 365
    → (yoe < 400) × (days_before_year yoe ≤ doe) × (doe - days_before_year yoe ≤ 365)
unfolding days_before_year
year_of_era doe yoe h e = omega arith

-- The Gregorian rule.
abbrev pub is_leap : ℕ → Bool
is_leap y = (y % 4 == 0 && not (y % 100 == 0)) || y % 400 == 0

pub days_in_month : ℕ → ℕ → ℕ
days_in_month y m =
    if m == 2
    then (if is_leap y then 29 else 28)
    else if m == 4 || m == 6 || m == 9 || m == 11
    then 30
    else 31

-- Day 365 of a year from March on is 29 February, and exists in leap years only.
last_day_leap :
    (doe yoe : ℕ)
    → doe < 146097
    → yoe ≡ (doe - doe / 1460 + doe / 36524 - doe / 146096) / 365
    → doe - days_before_year yoe ≡ 365
    → (((yoe + 1) % 4 ≡ 0) × ((yoe + 1) % 100 ≢ 0)) ⊎ ((yoe + 1) % 400 ≡ 0)
unfolding days_before_year
last_day_leap doe yoe h e k = omega arith

-- The days that `civil_from_days` counts from: 0 is 1 March of year 0.
pub days_from_civil : ℕ × ℕ × ℕ → ℕ
days_from_civil (y, m, d) =
    let y' = if leb m 2 then y - 1 else y in
    let era = y' / 400 in
    let yoe = y' % 400 in
    let mp = if ltb 2 m then m - 3 else m + 9 in
    let doy = (153 * mp + 2) / 5 + d - 1 in era * 146097 + days_before_year yoe + doy

-- The month and the day of a day of the year from March on.
month_of_year :
    (doy mp : ℕ)
    → doy ≤ 365
    → mp ≡ (5 * doy + 2) / 153
    → (mp < 12) × ((153 * mp + 2) / 5 ≤ doy) × (doy - (153 * mp + 2) / 5 < 31)
month_of_year doy mp h e = omega arith

abbrev date_of : ℕ → ℕ → ℕ → ℕ × ℕ × ℕ
date_of y mp d =
    let m = if ltb mp 10 then mp + 3 else mp - 9 in (if leb m 2 then (y + 1) % 2 ^ 32 else y, m, d)

-- Counting back from a date finds the year from March on and its month.
days_from_date :
    (y mp d : ℕ)
    → mp < 12
    → y < 2 ^ 31
    → days_from_civil (date_of y mp d)
      ≡ y / 400 * 146097 + days_before_year (y % 400) + ((153 * mp + 2) / 5 + d - 1)
unfolding days_from_civil
days_from_date y mp d h k = elim (Bool-cases (ltb mp 10)) [
  | inl early ↦ rw early (
      let not_early : leb (mp + 3) 2 ≡ false = ground arith in
      let late : ltb 2 (mp + 3) ≡ true = ground arith in
      let back : mp + 3 - 3 ≡ mp = omega arith in rw (not_early, late, back) (omega arith))
  | inr late ↦ rw late (
      let after : 10 ≤ mp = ground arith in
      let winter : leb (mp - 9) 2 ≡ true = ground arith in
      let not_after : ltb 2 (mp - 9) ≡ false = ground arith in
      let back : mp - 9 + 9 ≡ mp = omega arith in
      let year : (y + 1) % 2 ^ 32 - 1 ≡ y = omega arith in
      rw (winter, not_after, back, year) (omega arith))
]

-- The numbers that `civil_from_days` computes on the way.
record Parts (z : ℕ) : Type 0 where
  era : ℕ
  yoe : ℕ
  doy : ℕ
  day : z ≡ era * 146097 + days_before_year yoe + doy
  year : yoe < 400
  within : doy ≤ 365
  leap : doy ≡ 365 → (((yoe + 1) % 4 ≡ 0) × ((yoe + 1) % 100 ≢ 0)) ⊎ ((yoe + 1) % 400 ≡ 0)
  found : civil_from_days z ≡ civil_date ((yoe + era * 400) % 2 ^ 32) doy

parts : (z : ℕ) → Parts z
parts z =
    let era = z / 146097 in
    let doe = z - era * 146097 in
    let yoe = (doe - doe / 1460 + doe / 36524 - doe / 146096) / 365 in
    let small : doe < 146097 = omega arith in
    let bounds = year_of_era doe yoe small refl in
    record {
      era = era;
      yoe = yoe;
      doy = doe - days_before_year yoe;
      day = omega arith;
      year = bounds.0;
      within = bounds.2;
      leap = last_day_leap doe yoe small refl;
      found = unfold civil_from_days days_before_year in refl;
    }

-- 1 January of the year 2^31, the first that an i32 does not hold: 5368709 eras of 400 years, the 47
-- years up to 1 March of the year before, and the 306 days from March to the end of that year.
abbrev pub end_of_calendar : ℕ
end_of_calendar = 146097 * 5368709 + 17166 + 306

-- The year from March on of a day before that one is a year of an i32.
year_fits :
    (z era yoe doy : ℕ)
    → z < end_of_calendar
    → z ≡ era * 146097 + days_before_year yoe + doy
    → yoe < 400
    → yoe + era * 400 < 2 ^ 31
unfolding days_before_year
year_fits z era yoe doy h day year = omega arith

-- From 1 March of year 0 to 31 December of the last year that an i32 holds, counting the days
-- back from the date of a day gives the day.
pub days_from_civil-civil_from_days :
    (z : ℕ) → z < end_of_calendar → days_from_civil (civil_from_days z) ≡ z
days_from_civil-civil_from_days z h =
    let p = parts z in
    let y = p.yoe + p.era * 400 in
    let fits = year_fits z p.era p.yoe p.doy h p.day p.year in
    let mp = (5 * p.doy + 2) / 153 in
    let month = month_of_year p.doy mp p.within refl in
    let d = p.doy - (153 * mp + 2) / 5 + 1 in
    let small : y % 2 ^ 32 ≡ y = omega (arith, fits) in
    let found : civil_from_days z ≡ date_of y mp d = unfold civil_date in rw small at p.found in
    let era_back : y / 400 ≡ p.era = omega (arith, p.year) in
    let year_back : y % 400 ≡ p.yoe = omega (arith, p.year) in
    rw (found, days_from_date y mp d month.0 fits, era_back, year_back) (omega (arith, p.day))

-- A month of the year, and a day of that month under the Gregorian rule.
abbrev pub IsDate : ℕ × ℕ × ℕ → Type 0
IsDate (y, m, d) = (1 ≤ m) × (m ≤ 12) × (1 ≤ d) × (d ≤ days_in_month y m)

early_month :
    (y doy mp : ℕ)
    → doy ≤ 365
    → mp ≡ (5 * doy + 2) / 153
    → mp < 10
    → IsDate (y, mp + 3, doy - (153 * mp + 2) / 5 + 1)
unfolding days_in_month
early_month y doy mp h e k = ground arith

january : (y doy : ℕ) → 10 ≡ (5 * doy + 2) / 153 → IsDate (y, 1, doy - (153 * 10 + 2) / 5 + 1)
unfolding days_in_month
january y doy e = omega arith

february :
    (y doy : ℕ)
    → doy ≤ 365
    → 11 ≡ (5 * doy + 2) / 153
    → (doy ≡ 365 → is_leap y ≡ true)
    → IsDate (y, 2, doy - (153 * 11 + 2) / 5 + 1)
unfolding days_in_month
february y doy h e leap = ground arith

is_leap_of :
    (era yoe : ℕ)
    → (((yoe + 1) % 4 ≡ 0) × ((yoe + 1) % 100 ≢ 0)) ⊎ ((yoe + 1) % 400 ≡ 0)
    → is_leap (yoe + era * 400 + 1) ≡ true
is_leap_of era yoe h = ground arith

month_cases : (mp : ℕ) → mp < 12 → (mp < 10) ⊎ ((mp ≡ 10) ⊎ (mp ≡ 11))
month_cases mp h = ground arith

date_of_early : (y mp d : ℕ) → mp < 10 → date_of y mp d ≡ (y, mp + 3, d)
date_of_early y mp d h = ground arith

date_of-IsDate :
    (era yoe doy mp : ℕ)
    → yoe + era * 400 < 2 ^ 31
    → doy ≤ 365
    → mp ≡ (5 * doy + 2) / 153
    → (doy ≡ 365 → (((yoe + 1) % 4 ≡ 0) × ((yoe + 1) % 100 ≢ 0)) ⊎ ((yoe + 1) % 400 ≡ 0))
    → IsDate (date_of (yoe + era * 400) mp (doy - (153 * mp + 2) / 5 + 1))
date_of-IsDate era yoe doy mp small h e leap =
    let year : (yoe + era * 400 + 1) % 2 ^ 32 ≡ yoe + era * 400 + 1 = omega arith in
    elim (month_cases mp (month_of_year doy mp h e).0) [
      | inl early ↦
          subst IsDate
            (sym (date_of_early (yoe + era * 400) mp (doy - (153 * mp + 2) / 5 + 1) early))
            (early_month (yoe + era * 400) doy mp h e early)
      | inr (inl ten) ↦ rw (ten, year) (january (yoe + era * 400 + 1) doy (sym ten ∙ e))
      | inr (inr eleven) ↦
          rw (eleven, year)
            (february (yoe + era * 400 + 1) doy h (sym eleven ∙ e)
              (λ last. is_leap_of era yoe (leap last)))
    ]

-- The date of a day is one of the Gregorian calendar, leap years included, up to the last year
-- that the type of years holds.
pub civil_from_days-IsDate : (z : ℕ) → z < end_of_calendar → IsDate (civil_from_days z)
civil_from_days-IsDate z h =
    let p = parts z in
    let y = p.yoe + p.era * 400 in
    let fits = year_fits z p.era p.yoe p.doy h p.day p.year in
    let mp = (5 * p.doy + 2) / 153 in
    let d = p.doy - (153 * mp + 2) / 5 + 1 in
    let small : y % 2 ^ 32 ≡ y = omega (arith, fits) in
    let found : civil_from_days z ≡ date_of y mp d = unfold civil_date in rw small at p.found in
    rw found (date_of-IsDate p.era p.yoe p.doy mp fits p.within refl p.leap)

month_length : (y m : ℕ) → days_in_month y m ≤ 31
unfolding days_in_month
month_length y m = ground arith

-- Minute, hour, day, month and weekday of a second lie in the ranges with which field_match is
-- called, up to the last year that the type of years holds.
pub utc_parts_ranges :
    (secs : ℕ)
    → secs / 86400 + 719468 < end_of_calendar
    → let (minute, hour, day, month, weekday) = utc_parts secs in
      (minute < 60)
      × (hour < 24)
      × (1 ≤ day)
      × (day ≤ 31)
      × (1 ≤ month)
      × (month ≤ 12)
      × (weekday < 7)
utc_parts_ranges secs h =
    let (m1, m12, d1, dm) = civil_from_days-IsDate (secs / 86400 + 719468) h in
    let short =
      month_length (civil_from_days (secs / 86400 + 719468)).0
        (civil_from_days (secs / 86400 + 719468)).1 in
    unfold utc_parts in (omega arith, omega arith, d1, le_trans dm short, m1, m12, omega arith)
