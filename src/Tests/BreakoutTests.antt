-- ===== src/Tests/BreakoutTests.antt =====
-- Opening Range Breakout runs of backend/app/modules/execution/orchestrator.py over one session.
use trading_ai_framework.Prelude.{ℕ, ◌*◌, ◌+◌, refl, Option, some, List, [], ◌∷◌}
use trading_ai_framework.Times.{minute, time, combine}
use trading_ai_framework.Decimal.{decimal}
use trading_ai_framework.MarketData.Intraday.{IntradayBar}
use trading_ai_framework.Execution.Historical.Ending.{Ends}
use trading_ai_framework.Execution.Breakout.{run_opening_range_breakout, run_session, finished}
use trading_ai_framework.Execution.Breakout.Ending.{store_of, run_opening_range_breakout-Ends}
use trading_ai_framework.Execution.Breakout.OneRound.{TradesOnce, run_session-TradesOnce}
use trading_ai_framework.Tests.RunTests.{start, experiment, clock}

-- The bar so many minutes after 9:30, with its price in cents.
abbrev bar_after : ℕ → ℕ → IntradayBar
bar_after minutes cents = record {
  timestamp = combine 739070 (time 9 30) + minutes * minute;
  session_date = 739070;
  open_price = decimal cents 2;
  high = decimal cents 2;
  low = decimal cents 2;
  close = decimal cents 2;
  volume = decimal 100 2;
}

-- Up through the range and down through it again, then up once more.
abbrev session : List IntradayBar
session =
    bar_after 0 30000
    ∷ bar_after 5 30100
    ∷ bar_after 30 30200
    ∷ bar_after 35 29900
    ∷ bar_after 40 30300
    ∷ bar_after 45 30200
    ∷ []

abbrev load_session : ℕ → ℕ → Option (List IntradayBar)
load_session from to = some session

run_opening_range_breakout-Ends_example : Ends (run_opening_range_breakout clock load_session start)
run_opening_range_breakout-Ends_example =
    run_opening_range_breakout-Ends clock load_session start experiment refl

run_session-TradesOnce_example : TradesOnce start (
    store_of (
      run_session clock
        (some (decimal 30100 2))
        (some (decimal 30000 2))
        0
        session
        start
        (λ m t. finished t)))
run_session-TradesOnce_example =
    run_session-TradesOnce clock (some (decimal 30100 2)) (some (decimal 30000 2)) 0 session start
