-- ===== src/Tests/MarketTests.antt =====
-- Sessions of the calendar of backend/app/modules/market_data/trading_calendar.py: from Wednesday 3 to
-- Friday 5 July 2024.
use trading_ai_framework.Prelude.{
  ℕ, Bool, ◌≡◌, refl, List, [], ◌∷◌, map, ◌-◌, arith, leb, ◌&&◌, All, true, false,
}
use trading_ai_framework.MarketData.Calendar.{
  TradingSession, sessions_between, session_on, expected_bar_start_times, holidays, is_open,
  is_among,
}
use trading_ai_framework.Times.{year_of, combine, time, date}
use trading_ai_framework.Decimal
use trading_ai_framework.Execution.Errors.{ok}
use trading_ai_framework.MarketData.Intraday.{IntradayBar}
use trading_ai_framework.MarketData.Calendar.{nth_weekday, last_weekday}
use trading_ai_framework.MarketData.Calendar.Weekdays.{
  IsWeekday, month_end, nth_weekday-IsWeekday, last_weekday-IsWeekday,
}
use trading_ai_framework.MarketData.Calendar.Sessions.{starts}
use trading_ai_framework.MarketData.Hourly.{hourly_windows_for_session}
use trading_ai_framework.MarketData.Hourly.Windows.{hours, hourly_windows_for_session-hours}
use trading_ai_framework.MarketData.Validation.{
  timestamps, expected_of, filtered, has_duplicate, has_missing, sort_by_timestamp, check_bars,
  validate_intraday_bars, validate_intraday_bars_until, starts_through,
}
use trading_ai_framework.MarketData.Validation.Complete.{validate_intraday_bars-IsComplete}
use trading_ai_framework.MarketData.Validation.Again.{validate_intraday_bars_until-IsComplete}
use trading_ai_framework.MarketData.Calendar.Sessions.{
  IsSession, sessions_between-IsSession, sessions_between-days,
}

abbrev days : List TradingSession → List ℕ
days sessions = map (λ (s : TradingSession). s.session_date) sessions

abbrev early : List TradingSession → List Bool
early sessions = map (λ (s : TradingSession). s.is_early_close) sessions

-- The fourth is a holiday, and the third an early close.
july_days : days (sessions_between 739070 739072) ≡ 739070 ∷ 739072 ∷ []
unfolding sessions_between
july_days = refl

july_early : early (sessions_between 739070 739072) ≡ true ∷ false ∷ []
unfolding sessions_between
july_early = refl

sessions_between-IsSession_example :
    All
      (IsSession (holidays (year_of 739070) (year_of 739072)) 739070 739072)
      (sessions_between 739070 739072)
sessions_between-IsSession_example = sessions_between-IsSession 739070 739072

sessions_between-days_example : is_among 739071 (days (sessions_between 739070 739072)) ≡ (
    leb 739070 739071
    && (leb 739071 739072 && is_open (holidays (year_of 739070) (year_of 739072)) 739071))
sessions_between-days_example = sessions_between-days 739070 739072 739071

-- Bars at the start times of the early close, with one before the opening that is dropped.
abbrev bar_at : ℕ → IntradayBar
bar_at t = record {
  timestamp = t;
  session_date = 739070;
  open_price = Decimal.of_ℕ 3;
  high = Decimal.of_ℕ 4;
  low = Decimal.of_ℕ 2;
  close = Decimal.of_ℕ 3;
  volume = Decimal.of_ℕ 9;
}

abbrev early_bars : List IntradayBar
early_bars = map bar_at (starts 42 (combine 739070 (time 9 30)))

abbrev all_bars : List IntradayBar
all_bars = bar_at (combine 739070 (time 9 25)) ∷ early_bars

accepted : validate_intraday_bars (sessions_between 739070 739070) all_bars ≡ ok early_bars
unfolding validate_intraday_bars sessions_between expected_of filtered check_bars has_duplicate
    has_missing sort_by_timestamp is_among
accepted = refl

validate_intraday_bars-IsComplete_example :
    timestamps early_bars ≡ expected_of (sessions_between 739070 739070)
validate_intraday_bars-IsComplete_example =
    validate_intraday_bars-IsComplete 739070 739070 all_bars early_bars accepted

abbrev early_session : TradingSession
early_session = session_on (739070 ∷ []) 739070

early_session-IsSession : IsSession [] 739070 739070 early_session
unfolding session_on expected_bar_start_times is_among
early_session-IsSession = record {
  begun = omega arith;
  not_after = omega arith;
  open_day = refl;
  opens = refl;
  closes = refl;
  bars = refl;
}

abbrev first_bars : List IntradayBar
first_bars = map bar_at (starts 3 (combine 739070 (time 9 30)))

accepted_until :
    validate_intraday_bars_until early_session (combine 739070 (time 9 40)) all_bars ≡ ok first_bars
unfolding validate_intraday_bars_until session_on expected_bar_start_times filtered check_bars
    has_duplicate has_missing sort_by_timestamp is_among
accepted_until = refl

validate_intraday_bars_until-IsComplete_example :
    timestamps first_bars
    ≡ starts_through (combine 739070 (time 9 40)) early_session.expected_bar_start_times
validate_intraday_bars_until-IsComplete_example =
    validate_intraday_bars_until-IsComplete [] 739070 739070 early_session
      (combine 739070 (time 9 40)) all_bars first_bars early_session-IsSession accepted_until

hourly_windows_for_session-hours_example :
    hourly_windows_for_session early_session ≡ hours 3 (combine 739070 (time 9 30))
unfolding session_on is_among
hourly_windows_for_session-hours_example =
    hourly_windows_for_session-hours [] 739070 739070 early_session early_session-IsSession

-- Thanksgiving and Memorial Day of 2024.
nth_weekday-IsWeekday_example :
    IsWeekday 3 (date 2024 11 22) (date 2024 11 28) (nth_weekday 2024 11 3 4)
nth_weekday-IsWeekday_example = nth_weekday-IsWeekday 2024 11 3 4 (omega arith) (omega arith)

last_weekday-IsWeekday_example :
    IsWeekday 0 (month_end 2024 5 - 6) (month_end 2024 5) (last_weekday 2024 5 0)
last_weekday-IsWeekday_example = last_weekday-IsWeekday 2024 5 0 (omega arith) (omega arith)
