-- ===== src/Tests/StrategyTests.antt =====
-- The Opening Range Breakout on a breakout upward (backend/app/modules/strategies).
use trading_ai_framework.Prelude.{◌≡◌, ◌&&◌, true, false, none, some}
use trading_ai_framework.Decimal.{decimal}
use trading_ai_framework.Strategies.{OpeningRangeBreakoutState, opening_range_breakout}
use trading_ai_framework.Strategies.Laws.{
  is_buy, is_sell, enters, leaves, opening_range_breakout-Trades,
}

abbrev state : OpeningRangeBreakoutState
state = record {
  session_date = 7;
  opening_range_high = some (decimal 50120 2);
  opening_range_low = some (decimal 49900 2);
  opening_range_complete = true;
  final_bar = false;
  round_trip_completed = false;
}

opening_range_breakout-Trades_example :
    (is_buy (opening_range_breakout "SPY" (decimal 50200 2) none state).action
      ≡ (state.opening_range_complete && enters (decimal 50200 2) none state))
    × (is_sell (opening_range_breakout "SPY" (decimal 50200 2) none state).action
        ≡ (state.opening_range_complete && leaves (decimal 50200 2) none state))
opening_range_breakout-Trades_example =
    opening_range_breakout-Trades "SPY" (decimal 50200 2) none state
