-- ===== src/MarketData/Intraday.antt =====
-- Bars of five minutes: backend/app/modules/market_data/intraday_provider.py.
use trading_ai_framework.Prelude.{
  ℕ, zero, suc, ◌+◌, ◌-◌, ◌*◌, ◌/◌, ◌%◌, Bool, false, not, List, [], ◌∷◌, leb, ltb, ◌==◌,
  if◌then◌else◌,
}
use trading_ai_framework.Times.{minute, time, combine, time_of}
use trading_ai_framework.Decimal.{Decimal}
use trading_ai_framework.MarketData.Calendar.{bar_interval}

-- `IntradayBar`, less its raw payload
pub record IntradayBar : Type 0 where
  pub timestamp : ℕ
  pub session_date : ℕ
  pub open_price : Decimal
  pub high : Decimal
  pub low : Decimal
  pub close : Decimal
  pub volume : Decimal

abbrev pub regular_session_start : ℕ
regular_session_start = time 9 30

abbrev pub regular_session_final_bar : ℕ
regular_session_final_bar = time 15 55

abbrev pub opening_range_end : ℕ
opening_range_end = time 9 55

-- The loop of `expected_session_timestamps`.
unfoldable pub timestamps_from : ℕ → ℕ → ℕ → List ℕ
timestamps_from zero current final = []
timestamps_from (suc fuel) current final =
    let later = current ∷ timestamps_from fuel (current + bar_interval) final in
    if leb current final then later else []

-- `expected_session_timestamps`; a day has 288 intervals.
unfoldable pub expected_session_timestamps : ℕ → List ℕ
unfolding timestamps_from
expected_session_timestamps session_date =
    timestamps_from 288 (combine session_date regular_session_start)
      (combine session_date regular_session_final_bar)

-- `is_regular_session_bar`
unfoldable pub is_regular_session_bar : ℕ → Bool
is_regular_session_bar timestamp =
    if not (time_of timestamp % minute == 0)
    then false
    else if ltb (time_of timestamp) regular_session_start
    then false
    else if ltb regular_session_final_bar (time_of timestamp)
    then false
    else (time_of timestamp / minute - (9 * 60 + 30)) % 5 == 0
