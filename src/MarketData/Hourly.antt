-- ===== src/MarketData/Hourly.antt =====
-- Hours of a session, and the bar of an hour: backend/app/modules/market_data/hourly_bars.py. Times are
-- naive, as those of the calendar are.
pub mod Windows
use mathlib.Core.List.{foldl}
use trading_ai_framework.Prelude.{
  ℕ, zero, suc, ◌+◌, ◌*◌, ◌&&◌, Option, none, some, List, [], ◌∷◌, length, drop, leb, ltb, ◌==◌,
  if◌then◌else◌,
}
use trading_ai_framework.Times.{minute}
use trading_ai_framework.Decimal
use trading_ai_framework.Decimal.{Decimal}
use trading_ai_framework.Models.{DailyBar}
use trading_ai_framework.Execution.Errors.{Result, ok, err, market_data_missing}
use trading_ai_framework.MarketData.Calendar.{TradingSession}
use trading_ai_framework.MarketData.Intraday.{IntradayBar}

-- `HourlyWindow`
pub record HourlyWindow : Type 0 where
  pub start : ℕ
  pub end : ℕ

-- `INTRADAY_BAR_COUNT_PER_HOUR`
abbrev pub intraday_bar_count_per_hour : ℕ
intraday_bar_count_per_hour = 12

-- The window of a chunk, from its first to its last start.
abbrev pub last_of {ℓ} : {A : Type ℓ} → A → List A → A
last_of x [] = x
last_of x (y ∷ ys) = last_of y ys

abbrev pub take {ℓ} : {A : Type ℓ} → ℕ → List A → List A
take zero xs = []
take (suc n) [] = []
take (suc n) (x ∷ xs) = x ∷ take n xs

abbrev pub window_of_chunk : List ℕ → List HourlyWindow → List HourlyWindow
window_of_chunk [] windows = []
window_of_chunk (t ∷ ts) windows =
    if ltb (length (t ∷ ts)) intraday_bar_count_per_hour
    then []
    else record { start = t; end = last_of t ts } ∷ windows

-- The loop of `hourly_windows_for_session` over the starts that are left; each round takes twelve.
unfoldable pub windows_from : ℕ → List ℕ → List HourlyWindow
windows_from zero expected = []
windows_from (suc fuel) expected =
    let later = windows_from fuel (drop intraday_bar_count_per_hour expected) in
    window_of_chunk (take intraday_bar_count_per_hour expected) later

-- `hourly_windows_for_session`
unfoldable pub hourly_windows_for_session : TradingSession → List HourlyWindow
unfolding windows_from
hourly_windows_for_session session =
    windows_from (length session.expected_bar_start_times) session.expected_bar_start_times

completed_windows : ℕ → List HourlyWindow → List HourlyWindow
completed_windows now [] = []
completed_windows now (w ∷ ws) =
    let rest = completed_windows now ws in if leb (w.end + 5 * minute) now then w ∷ rest else rest

abbrev last_window : List HourlyWindow → Option HourlyWindow
last_window [] = none
last_window (w ∷ ws) = some (last_of w ws)

-- `latest_completed_hourly_window`
unfoldable pub latest_completed_hourly_window : ℕ → TradingSession → Option HourlyWindow
unfolding completed_windows
latest_completed_hourly_window local_now session =
    last_window (completed_windows local_now (hourly_windows_for_session session))

window_at : ℕ → List HourlyWindow → Option HourlyWindow
window_at start [] = none
window_at start (w ∷ ws) =
    let rest = window_at start ws in if w.start == start then some w else rest

bars_within : HourlyWindow → List IntradayBar → List IntradayBar
bars_within w [] = []
bars_within w (b ∷ bars) =
    let rest = bars_within w bars in
    if leb w.start b.timestamp && leb b.timestamp w.end then b ∷ rest else rest

abbrev add_volume : Decimal → IntradayBar → Decimal
add_volume sum b = Decimal.add sum b.volume

abbrev pub raise_high : Decimal → IntradayBar → Decimal
raise_high high b = Decimal.max_of high b.high

abbrev pub lower_low : Decimal → IntradayBar → Decimal
lower_low low b = Decimal.min low b.low

-- The bar of a window, from its first bar and the others.
unfoldable pub aggregate : HourlyWindow → IntradayBar → List IntradayBar → DailyBar
aggregate w b bars = record {
  date = b.session_date;
  open_price = b.open_price;
  high = foldl raise_high b.high bars;
  low = foldl lower_low b.low bars;
  close = (last_of b bars).close;
  adjusted_close = (last_of b bars).close;
  volume = foldl add_volume Decimal.nought (b ∷ bars);
  timestamp = some w.start;
}

abbrev aggregate_bars : HourlyWindow → List IntradayBar → Result DailyBar
aggregate_bars w [] = err market_data_missing
aggregate_bars w (b ∷ bars) =
    if length (b ∷ bars) == intraday_bar_count_per_hour
    then ok (aggregate w b bars)
    else err market_data_missing

abbrev aggregate_window : List IntradayBar → Option HourlyWindow → Result DailyBar
aggregate_window bars none = err market_data_missing
aggregate_window bars (some w) = aggregate_bars w (bars_within w bars)

-- `aggregate_hourly_bar`
unfoldable pub aggregate_hourly_bar : TradingSession → List IntradayBar → ℕ → Result DailyBar
unfolding window_at bars_within
aggregate_hourly_bar session bars window_start =
    aggregate_window bars (window_at window_start (hourly_windows_for_session session))
