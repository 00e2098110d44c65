-- ===== src/Strategies.antt =====
-- The rule-based strategies of backend/app/modules/strategies. Of the JSON audit of the breakout
-- strategy only the keys are kept that differ between its branches.
pub mod Laws
use trading_ai_framework.Prelude.{
  ℕ, Bool, true, false, not, ◌&&◌, Option, none, some, if◌then◌else◌,
}
use trading_ai_framework.Prelude.Text.{String, ◌<>◌, str}
use trading_ai_framework.Domain.{TradeAction}
use trading_ai_framework.Decimal
use trading_ai_framework.Decimal.{Decimal}

-- `StrategyDecision`, `MovingAverageDecision` and `PaperTradingSmokeTestDecision`
pub record StrategyDecision : Type 0 where
  pub action : TradeAction
  pub symbol : String
  pub reason : String

abbrev decision : TradeAction → String → String → StrategyDecision
decision a s r = record { action = a; symbol = s; reason = r }

-- `position_quantity is None or position_quantity == 0`
abbrev pub is_flat : Option Decimal → Bool
is_flat none = true
is_flat (some q) = Decimal.is_zero q

-- `position_quantity is not None and position_quantity > 0`
abbrev pub has_position : Option Decimal → Bool
has_position none = false
has_position (some q) = Decimal.lt Decimal.nought q

-- `BuyAndHoldStrategy.decide`
unfoldable pub buy_and_hold : String → Option Decimal → StrategyDecision
buy_and_hold symbol position_quantity =
    if is_flat position_quantity
    then decision TradeAction.buy symbol
        ("No current " <> symbol <> " position exists; buy and hold enters once.")
    else decision TradeAction.hold symbol ("Existing " <> symbol <> " position is already held.")

abbrev pub default_moving_average_window : ℕ
default_moving_average_window = 200

-- The decision against a known average, by the position.
against_average : String → Decimal → Decimal → Bool → StrategyDecision
against_average symbol price average holds =
    if Decimal.lt average price && not holds
    then decision TradeAction.buy symbol
        (symbol <> " price is above moving average and no position exists.")
    else if Decimal.lt average price && holds
    then decision TradeAction.hold symbol
        (symbol <> " price is above moving average and position already exists.")
    else if Decimal.lt price average && holds
    then decision TradeAction.sell symbol
        (symbol <> " price is below moving average and position exists.")
    else if Decimal.lt price average
    then decision TradeAction.hold symbol
        (symbol <> " price is below moving average and no position exists.")
    else decision TradeAction.hold symbol (symbol <> " price is equal to moving average.")

-- `MovingAverageStrategy.decide`
unfoldable pub moving_average :
    String → Decimal → Option Decimal → Option Decimal → ℕ → StrategyDecision
unfolding against_average
moving_average symbol price none position_quantity window =
    decision TradeAction.hold symbol
      ("Moving average unavailable until " <> str window <> " bars are available.")
moving_average symbol price (some average) position_quantity window =
    against_average symbol price average (has_position position_quantity)

-- `OpeningRangeBreakoutState`
pub record OpeningRangeBreakoutState : Type 0 where
  pub session_date : ℕ
  pub opening_range_high : Option Decimal
  pub opening_range_low : Option Decimal
  pub opening_range_complete : Bool
  pub final_bar : Bool
  pub round_trip_completed : Bool

pub data BreakoutDirection : Type 0 where
  up down : BreakoutDirection

-- `OpeningRangeBreakoutDecision`, with the keys of its raw JSON that differ between branches.
pub record OpeningRangeBreakoutDecision : Type 0 where
  pub action : TradeAction
  pub symbol : String
  pub reason : String
  pub eod_exit : Bool
  pub breakout_direction : Option BreakoutDirection

abbrev breakout :
    TradeAction → String → String → Bool → Option BreakoutDirection → OpeningRangeBreakoutDecision
breakout a s r e d = record {
  action = a;
  symbol = s;
  reason = r;
  eod_exit = e;
  breakout_direction = d;
}

-- `bound is not None and close > bound`, and the mirror image
abbrev pub above : Option Decimal → Decimal → Bool
above none close = false
above (some high) close = Decimal.lt high close

abbrev pub below : Option Decimal → Decimal → Bool
below none close = false
below (some low) close = Decimal.lt close low

-- The branches on a breakout, by the position.
on_breakout : String → Decimal → Bool → OpeningRangeBreakoutState → OpeningRangeBreakoutDecision
on_breakout symbol close holds state =
    if above state.opening_range_high close
    then (if not holds
        then breakout TradeAction.buy symbol
            "Close broke above the opening range high with no position." false
            (some BreakoutDirection.up)
        else breakout TradeAction.hold symbol
            "Close is above the opening range high and position is already held." false none)
    else if below state.opening_range_low close
    then (if holds
        then breakout TradeAction.sell symbol
            "Close broke below the opening range low with an open position." false
            (some BreakoutDirection.down)
        else breakout TradeAction.hold symbol
            "Close is below the opening range low with no position." false none)
    else breakout TradeAction.hold symbol "No opening range breakout signal is present." false none

-- `OpeningRangeBreakoutStrategy.decide`
unfoldable pub opening_range_breakout :
    String → Decimal → Option Decimal → OpeningRangeBreakoutState → OpeningRangeBreakoutDecision
unfolding on_breakout
opening_range_breakout symbol close position_quantity state =
    let holds = has_position position_quantity in
    if not state.opening_range_complete
    then breakout TradeAction.hold symbol "Opening range is not complete yet." false none
    else if state.final_bar && holds
    then breakout TradeAction.sell symbol "Final regular-session bar exits the open long position."
        true none
    else if state.round_trip_completed
    then breakout TradeAction.hold symbol
        "Session already completed one round trip; re-entry is disabled." false none
    else on_breakout symbol close holds state

-- `PaperTradingSmokeTestStrategy.decide`
unfoldable pub paper_trading_smoke_test : String → Option Decimal → StrategyDecision
paper_trading_smoke_test symbol position_quantity =
    if has_position position_quantity
    then decision TradeAction.sell symbol
        "Smoke-test position exists; sell the current local SPY position."
    else decision TradeAction.buy symbol "No smoke-test SPY position exists; buy exactly one share."
