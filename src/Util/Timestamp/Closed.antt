-- ===== src/Util/Timestamp/Closed.antt =====
-- timestamp_calc against the closed form of the Gregorian calendar.
use sdx.Prelude.{
  ℕ, zero, suc, refl, arith, ltb, ◌+◌, ◌-◌, ◌*◌, ◌/◌, ◌%◌, ◌^◌, ◌≤◌, ◌<◌, ◌≡◌, if◌then◌else◌,
}
use sdx.Util.Timestamp.{
  u64_mod, is_leap, year_secs, secs_per_day, days_in_month, add_years, add_months, timestamp_calc,
}

-- The leap days before the first of January of year `y`, from year 1 on.
abbrev pub leaps_before : ℕ → ℕ
leaps_before y = (y - 1) / 4 + (y - 1) / 400 - (y - 1) / 100

leaps_step : (y : ℕ) → 0 < y → leaps_before (y + 1) ≡ leaps_before y + (if is_leap y then 1 else 0)
unfolding is_leap
leaps_step y h = ground arith

year_secs-le : (i : ℕ) → year_secs i ≤ 366 * secs_per_day
unfolding year_secs
year_secs-le i = ground arith

year_secs-leaps :
    (i : ℕ)
    → 0 < i
    → year_secs i + secs_per_day * leaps_before i
      ≡ 365 * secs_per_day + secs_per_day * leaps_before (i + 1)
unfolding year_secs is_leap
year_secs-leaps i h = ground (arith, leaps_step i h)

add_years-closed :
    (count i res : ℕ)
    → 0 < i
    → res + count * (366 * secs_per_day) < u64_mod
    → add_years count i res + secs_per_day * leaps_before i
      ≡ res + secs_per_day * (365 * count + leaps_before (i + count))
unfolding add_years
add_years-closed zero i res p h = let e : i + 0 ≡ i = omega arith in rw e (omega arith)
add_years-closed (suc count) i res p h =
    let e : i + 1 + count ≡ i + suc count = omega arith in
    let exact : (res + year_secs i) % u64_mod ≡ res + year_secs i = omega (arith, year_secs-le i) in
    rw exact (
      omega (
        arith,
        year_secs-leaps i p,
        rw e at (
            add_years-closed count (i + 1) (res + year_secs i) (omega arith)
              (omega (arith, year_secs-le i))),
      ))

-- The days before the first of a month, by the usual formula that counts from March.
abbrev pub days_before : ℕ → ℕ → ℕ
days_before month year =
    if ltb month 3
    then 31 * (month - 1)
    else (153 * (month - 3) + 2) / 5 + 59 + (if is_leap year then 1 else 0)

month_table :
    (month year : ℕ)
    → 1 ≤ month
    → month ≤ 11
    → days_before (month + 1) year ≡ days_before month year + days_in_month month year
unfolding days_in_month
month_table month year p h = ground arith

days_in_month-le : (month year : ℕ) → days_in_month month year ≤ 31
unfolding days_in_month
days_in_month-le month year = ground arith

days_before_one : (year : ℕ) → days_before 1 year ≡ 0
days_before_one year = refl

add_months-closed :
    (year count i res : ℕ)
    → 1 ≤ i
    → i + count ≤ 12
    → res + count * (31 * secs_per_day) < u64_mod
    → add_months year count i res + secs_per_day * days_before i year
      ≡ res + secs_per_day * days_before (i + count) year
unfolding add_months
add_months-closed year zero i res p q h = let e : i + 0 ≡ i = omega arith in rw e (omega arith)
add_months-closed year (suc count) i res p q h =
    let e : i + 1 + count ≡ i + suc count = omega arith in
    let exact : (res + days_in_month i year * secs_per_day) % u64_mod
        ≡ res + days_in_month i year * secs_per_day =
      omega (arith, days_in_month-le i year) in
    rw exact (
      omega (
        arith,
        month_table i year p (omega arith),
        rw e at (
            add_months-closed year count (i + 1) (res + days_in_month i year * secs_per_day)
              (omega arith) (omega arith) (omega (arith, days_in_month-le i year))),
      ))

-- The days from 1970-01-01 to a date, in closed form.
abbrev pub day_number : ℕ → ℕ → ℕ → ℕ
day_number year month day =
    365 * (year - 1970) + leaps_before year - leaps_before 1970 + days_before month year + (day - 1)

days_before-le : (month year : ℕ) → month ≤ 12 → days_before month year ≤ 366
days_before-le month year h = ground arith

years_closed :
    (year : ℕ)
    → 1970 ≤ year
    → year < 2 ^ 16
    → add_years (year - 1970) 1970 0 + secs_per_day * leaps_before 1970
      ≡ secs_per_day * (365 * (year - 1970) + leaps_before year)
years_closed year p h =
    let e : 1970 + (year - 1970) ≡ year = omega arith in
    let closed = add_years-closed (year - 1970) 1970 0 (omega arith) (omega arith) in
    omega (arith, rw e at closed)

months_closed :
    (year month res : ℕ)
    → 1 ≤ month
    → month ≤ 12
    → res < 2 ^ 48
    → add_months year (month - 1) 1 res ≡ res + secs_per_day * days_before month year
months_closed year month res p h small =
    let e : 1 + (month - 1) ≡ month = omega arith in
    let closed =
      add_months-closed year (month - 1) 1 res (omega arith) (omega arith) (omega arith) in
    omega (arith, rw e at closed)

-- For a date from 1970 on in the range of the argument types, with a month from 1 to 12 and a day
-- from 1, timestamp_calc is the number of days by the closed Gregorian formula, in seconds, plus
-- the seconds of the day; nothing wraps.
pub timestamp_calc-closed :
    (year month day hour minute second : ℕ)
    → 1970 ≤ year
    → year < 2 ^ 16
    → 1 ≤ month
    → month ≤ 12
    → 1 ≤ day
    → day < 2 ^ 8
    → hour < 2 ^ 8
    → minute < 2 ^ 8
    → second < 2 ^ 8
    → timestamp_calc year month day hour minute second
      ≡ secs_per_day * day_number year month day + 3600 * hour + 60 * minute + second
unfolding timestamp_calc
timestamp_calc-closed year month day hour minute second py hy pm hm pd hd hh hmin hs =
    let y = years_closed year py hy in
    let m = months_closed year month (add_years (year - 1970) 1970 0) pm hm (omega arith) in
    rw m (omega (arith, days_before-le month year hm))
