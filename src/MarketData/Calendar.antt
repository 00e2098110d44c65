-- ===== src/MarketData/Calendar.antt =====
-- The trading sessions of US equities: backend/app/modules/market_data/trading_calendar.py.
pub mod Sessions
pub mod Weekdays
use trading_ai_framework.Prelude.{
  ℕ, zero, suc, ◌+◌, ◌-◌, ◌*◌, ◌/◌, ◌%◌, Bool, true, false, not, ◌&&◌, ◌||◌, List, [], ◌∷◌, ◌++◌,
  leb, ltb, ◌==◌, if◌then◌else◌,
}
use trading_ai_framework.Times.{minute, time, combine, weekday, date, year_of}

-- `REGULAR_OPEN_TIME`, `REGULAR_CLOSE_TIME`, `EARLY_CLOSE_TIME` and `BAR_INTERVAL`
abbrev pub regular_open_time : ℕ
regular_open_time = time 9 30

abbrev pub regular_close_time : ℕ
regular_close_time = time 16 0

abbrev pub early_close_time : ℕ
early_close_time = time 13 0

abbrev pub bar_interval : ℕ
bar_interval = 5 * minute

-- `TradingSession`
pub record TradingSession : Type 0 where
  pub session_date : ℕ
  pub open_time : ℕ
  pub close_time : ℕ
  pub expected_bar_start_times : List ℕ
  pub is_early_close : Bool

-- The loop of `expected_bar_start_times`.
unfoldable pub starts_from : ℕ → ℕ → ℕ → List ℕ
starts_from zero current close = []
starts_from (suc fuel) current close =
    let later = current ∷ starts_from fuel (current + bar_interval) close in
    if ltb current close then later else []

-- `expected_bar_start_times`; a day has 288 intervals.
unfoldable pub expected_bar_start_times : ℕ → ℕ → ℕ → List ℕ
unfolding starts_from
expected_bar_start_times session_date open_time close_time =
    starts_from 288 (combine session_date open_time) (combine session_date close_time)

-- `_observed_fixed_holiday`
unfoldable pub observed_fixed_holiday : ℕ → ℕ → ℕ → ℕ
unfolding date
observed_fixed_holiday year month d =
    let holiday = date year month d in
    if weekday holiday == 5
    then holiday - 1
    else if weekday holiday == 6
    then holiday + 1
    else holiday

-- `while current.weekday() != weekday: current += timedelta(days=1)`, and the same backwards
pub seek_forward : ℕ → ℕ → ℕ → ℕ
seek_forward zero w current = current
seek_forward (suc fuel) w current =
    let later = seek_forward fuel w (current + 1) in if weekday current == w then current else later

pub seek_back : ℕ → ℕ → ℕ → ℕ
seek_back zero w current = current
seek_back (suc fuel) w current =
    let sooner = seek_back fuel w (current - 1) in if weekday current == w then current else sooner

-- `_nth_weekday`
unfoldable pub nth_weekday : ℕ → ℕ → ℕ → ℕ → ℕ
unfolding seek_forward date
nth_weekday year month w occurrence = seek_forward 7 w (date year month 1) + 7 * (occurrence - 1)

-- `_last_weekday`
unfoldable pub last_weekday : ℕ → ℕ → ℕ → ℕ
unfolding seek_back date
last_weekday year month w =
    seek_back 7 w (if month == 12 then date year 12 31 else date year (month + 1) 1 - 1)

-- `_good_friday`; the differences are in an order in which none is negative.
unfoldable pub good_friday : ℕ → ℕ
unfolding date
good_friday year =
    let a = year % 19 in
    let b = year / 100 in
    let c = year % 100 in
    let d = b / 4 in
    let e = b % 4 in
    let f = (b + 8) / 25 in
    let g = (b - f + 1) / 3 in
    let h = (19 * a + b + 15 - d - g) % 30 in
    let i = c / 4 in
    let k = c % 4 in
    let correction = (32 + 2 * e + 2 * i - h - k) % 7 in
    let m = (a + 11 * h + 22 * correction) / 451 in
    let n = h + correction + 114 - 7 * m in date year (n / 31) (n % 31 + 1) - 2

-- The holidays of one year.
unfoldable pub holidays_of : ℕ → List ℕ
unfolding observed_fixed_holiday nth_weekday last_weekday good_friday
holidays_of year =
    observed_fixed_holiday year 1 1
    ∷ nth_weekday year 1 0 3
    ∷ nth_weekday year 2 0 3
    ∷ good_friday year
    ∷ last_weekday year 5 0
    ∷ observed_fixed_holiday year 7 4
    ∷ nth_weekday year 9 0 1
    ∷ nth_weekday year 11 3 4
    ∷ observed_fixed_holiday year 12 25
    ∷ (if leb 2022 year then observed_fixed_holiday year 6 19 ∷ [] else [])

-- The holidays of so many years.
holidays_from : ℕ → ℕ → List ℕ
unfolding holidays_of
holidays_from zero year = []
holidays_from (suc n) year = holidays_of year ++ holidays_from n (year + 1)

-- `_holidays`: from the year before to the year after
unfoldable pub holidays : ℕ → ℕ → List ℕ
unfolding holidays_from
holidays start_year end_year = holidays_from (end_year + 3 - start_year) (start_year - 1)

unfoldable pub is_among : ℕ → List ℕ → Bool
is_among x [] = false
is_among x (y ∷ ys) = (x == y) || is_among x ys

-- `candidate.weekday() < 5 and candidate not in holidays`
abbrev pub is_open : List ℕ → ℕ → Bool
is_open closed d = ltb (weekday d) 5 && not (is_among d closed)

keep_open : List ℕ → List ℕ → List ℕ
unfolding is_among
keep_open closed [] = []
keep_open closed (d ∷ ds) =
    if is_open closed d then d ∷ keep_open closed ds else keep_open closed ds

early_closes_from : List ℕ → ℕ → ℕ → List ℕ
unfolding keep_open nth_weekday date
early_closes_from closed zero year = []
early_closes_from closed (suc n) year =
    keep_open closed (date year 7 3 ∷ date year 12 24 ∷ (nth_weekday year 11 3 4 + 1) ∷ [])
    ++ early_closes_from closed n (year + 1)

-- `_early_closes`
unfoldable pub early_closes : ℕ → ℕ → List ℕ
unfolding early_closes_from holidays
early_closes start_year end_year =
    early_closes_from (holidays start_year end_year) (end_year + 3 - start_year) (start_year - 1)

-- The session of an open day.
unfoldable pub session_on : List ℕ → ℕ → TradingSession
unfolding expected_bar_start_times is_among
session_on early current =
    let close_time = if is_among current early then early_close_time else regular_close_time in
    record {
      session_date = current;
      open_time = regular_open_time;
      close_time = close_time;
      expected_bar_start_times = expected_bar_start_times current regular_open_time close_time;
      is_early_close = not (close_time == regular_close_time);
    }

-- The loop of `sessions_between`, with so many days to go.
unfoldable pub sessions_from : List ℕ → List ℕ → ℕ → ℕ → List TradingSession
unfolding session_on is_among
sessions_from closed early zero current = []
sessions_from closed early (suc left) current =
    let later = sessions_from closed early left (current + 1) in
    if is_open closed current then session_on early current ∷ later else later

-- `UsEquitiesTradingCalendar.sessions_between`
unfoldable pub sessions_between : ℕ → ℕ → List TradingSession
unfolding sessions_from holidays early_closes year_of
sessions_between start_date end_date =
    if ltb end_date start_date
    then []
    else sessions_from (holidays (year_of start_date) (year_of end_date))
        (early_closes (year_of start_date) (year_of end_date)) (end_date + 1 - start_date)
        start_date
