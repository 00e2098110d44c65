-- ===== src/Times.antt =====
-- Times and dates of Python's `datetime`: a date is its proleptic Gregorian ordinal, a time of day the
-- microseconds since midnight, and a date with a time the microseconds since the midnight of day 0.
use trading_ai_framework.Prelude.{
  ℕ, zero, suc, ◌+◌, ◌-◌, ◌*◌, ◌/◌, ◌%◌, Bool, not, ◌&&◌, ◌||◌, leb, ◌==◌, if◌then◌else◌,
}

abbrev pub minute : ℕ
minute = 60000000

abbrev pub day : ℕ
day = 86400000000

-- `time(hour, minute)`
abbrev pub time : ℕ → ℕ → ℕ
time h m = (h * 60 + m) * minute

-- `datetime.combine`, `datetime.date` and `datetime.time`
abbrev pub combine : ℕ → ℕ → ℕ
combine date t = date * day + t

abbrev pub date_of : ℕ → ℕ
date_of t = t / day

abbrev pub time_of : ℕ → ℕ
time_of t = t % day

-- `date.weekday`: Monday is 0.
abbrev pub weekday : ℕ → ℕ
weekday date = (date + 6) % 7

unfoldable pub is_leap : ℕ → Bool
is_leap y = (y % 4 == 0) && (not (y % 100 == 0) || (y % 400 == 0))

abbrev pub days_before_year : ℕ → ℕ
days_before_year y = let p = y - 1 in p * 365 + p / 4 - p / 100 + p / 400

-- The days of the months before.
abbrev pub days_before_month : ℕ → ℕ
days_before_month m =
    if m == 1
    then 0
    else if m == 2
    then 31
    else if m == 3
    then 59
    else if m == 4
    then 90
    else if m == 5
    then 120
    else if m == 6
    then 151
    else if m == 7
    then 181
    else if m == 8
    then 212
    else if m == 9
    then 243
    else if m == 10
    then 273
    else if m == 11
    then 304
    else 334

-- `date(year, month, day)`
unfoldable pub date : ℕ → ℕ → ℕ → ℕ
unfolding is_leap
date y m d = days_before_year y + days_before_month m + (if leb 3 m && is_leap y then 1 else 0) + d

-- The year, counted up from one that is not later.
year_from : ℕ → ℕ → ℕ → ℕ
year_from zero y n = y
year_from (suc fuel) y n =
    let later = year_from fuel (y + 1) n in if leb n (days_before_year (y + 1)) then y else later

-- `date.year`, for the years up to 9999
unfoldable pub year_of : ℕ → ℕ
unfolding year_from
year_of n = year_from 40 (n / 366 + 1) n
