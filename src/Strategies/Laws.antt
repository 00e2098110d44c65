-- ===== src/Strategies/Laws.antt =====
-- When the strategies of backend/app/modules/strategies trade.
use trading_ai_framework.Prelude.{◌≡◌, Bool, true, false, not, ◌&&◌, ◌||◌, Option, arith}
use trading_ai_framework.Prelude.Text.{String}
use trading_ai_framework.Domain.{TradeAction}
use trading_ai_framework.Decimal.{Decimal}
use trading_ai_framework.Strategies.{
  OpeningRangeBreakoutState, opening_range_breakout, on_breakout, has_position, above, below,
}

abbrev pub is_buy : TradeAction → Bool
is_buy TradeAction.buy = true
is_buy _ = false

abbrev pub is_sell : TradeAction → Bool
is_sell TradeAction.sell = true
is_sell _ = false

-- A breakout upward, while there is no position and was no round trip.
abbrev pub enters : Decimal → Option Decimal → OpeningRangeBreakoutState → Bool
enters close position_quantity state =
    not (has_position position_quantity)
    && (not state.round_trip_completed && above state.opening_range_high close)

-- The last bar of the session, or a breakout downward before the round trip is over.
abbrev pub leaves : Decimal → Option Decimal → OpeningRangeBreakoutState → Bool
leaves close position_quantity state =
    has_position position_quantity
    && (state.final_bar
        || (not state.round_trip_completed
            && (not (above state.opening_range_high close) && below state.opening_range_low close)))

-- Once the opening range is complete, the Opening Range Breakout buys exactly on a breakout upward
-- with no position and no round trip behind it, and sells exactly a position at the session's last
-- bar or on a breakout downward before the round trip is over; before, it does neither.
pub opening_range_breakout-Trades :
    (symbol : String) (close : Decimal) (position_quantity : Option Decimal)
    (state : OpeningRangeBreakoutState)
    → (is_buy (opening_range_breakout symbol close position_quantity state).action
        ≡ (state.opening_range_complete && enters close position_quantity state))
      × (is_sell (opening_range_breakout symbol close position_quantity state).action
          ≡ (state.opening_range_complete && leaves close position_quantity state))
unfolding opening_range_breakout on_breakout
opening_range_breakout-Trades symbol close position_quantity state = (ground arith, ground arith)
