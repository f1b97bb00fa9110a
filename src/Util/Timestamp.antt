-- ===== src/Util/Timestamp.antt =====
-- kernel/util/timestamp.c: seconds since 1970 of a calendar date, and the spec by day numbers.
pub mod Closed
use sdx.Prelude.{ℕ, zero, suc, Bool, not, ◌+◌, ◌-◌, ◌*◌, ◌%◌, ◌^◌, ◌&&◌, ◌||◌, ◌==◌, if◌then◌else◌}

abbrev pub u64_mod : ℕ
u64_mod = 2 ^ 64

unfoldable pub is_leap : ℕ → Bool
is_leap y = (y % 4 == 0 && not (y % 100 == 0)) || y % 400 == 0

abbrev pub secs_per_day : ℕ
secs_per_day = 24 * (60 * 60)

-- The `switch` of __days_in_month.
unfoldable pub days_in_month : ℕ → ℕ → ℕ
days_in_month month year =
    if month == 1
      || month == 3
      || month == 5
      || month == 7
      || month == 8
      || month == 10
      || month == 12
    then 31
    else if month == 4 || month == 6 || month == 9 || month == 11
    then 30
    else if month == 2
    then (if is_leap year then 29 else 28)
    else 0

-- `IS_LEAP(i) ? SECS_PER_LEAP : SECS_PER_YEAR`.
unfoldable pub year_secs : ℕ → ℕ
unfolding is_leap
year_secs i = if is_leap i then 366 * secs_per_day else 365 * secs_per_day

-- The year loop: `count` years from `i` on.
unfoldable pub add_years : ℕ → ℕ → ℕ → ℕ
add_years zero i res = res
add_years (suc count) i res = add_years count (i + 1) ((res + year_secs i) % u64_mod)

-- The month loop: `count` months from `i` on.
unfoldable pub add_months : ℕ → ℕ → ℕ → ℕ → ℕ
add_months year zero i res = res
add_months year (suc count) i res =
    add_months year count (i + 1) ((res + days_in_month i year * secs_per_day) % u64_mod)

-- `(day - 1) * SECS_PER_DAY` is an int, negative for day 0, and is converted to 64 bits.
unfoldable pub timestamp_calc : (year month day hour minute second : ℕ) → ℕ
unfolding add_years add_months
timestamp_calc year month day hour minute second =
    let years = add_years (year - 1970) 1970 0 in
    let months = add_months year (month - 1) 1 years in
    let days = (months + u64_mod + day * secs_per_day - secs_per_day) % u64_mod in
    (days + hour * (60 * 60) + minute * 60 + second) % u64_mod
