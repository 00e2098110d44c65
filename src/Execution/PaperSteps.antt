-- ===== src/Execution/PaperSteps.antt =====
-- The artifacts of a paper step, by strategy: `_run_step_artifacts` of
-- backend/app/modules/execution/paper_step_runner.py and what it calls. The market data providers, the
-- agent, the broker and the time zone are parameters.
use mathlib.Core.List.{foldl}
use trading_ai_framework.Prelude.{
  ℕ, ◌-◌, Bool, true, false, ◌&&◌, ◌||◌, Option, none, some, List, [], ◌∷◌, ◌++◌, length, drop, leb,
  ltb, ◌==◌, if◌then◌else◌,
}
use trading_ai_framework.Prelude.Text.{String}
use trading_ai_framework.Times.{date_of, time_of}
use trading_ai_framework.Domain.{StrategyType, TradeAction, FinalAction, OrderSide}
use trading_ai_framework.Decimal
use trading_ai_framework.Decimal.{Decimal}
use trading_ai_framework.Models.{Portfolio, Trade, Experiment, DailyBar, TradingDecision}
use trading_ai_framework.Strategies.{
  StrategyDecision, OpeningRangeBreakoutState, buy_and_hold, moving_average,
  paper_trading_smoke_test,
}
use trading_ai_framework.MarketData.Calendar.{TradingSession, sessions_between}
use trading_ai_framework.MarketData.Intraday.{IntradayBar, opening_range_end}
use trading_ai_framework.MarketData.Hourly.{last_of, raise_high, lower_low}
use trading_ai_framework.Agents.Types.{AgentContext, AgentRunResult}
use trading_ai_framework.Execution.Risk.{RiskResult, RuleReason, held, trade, rule, evaluate}
use trading_ai_framework.Execution.Store.{Store, next_id, update_step}
use trading_ai_framework.Execution.Errors.{Error, Result, ok, err}
use trading_ai_framework.Execution.Orchestrator.{Quote, new_market_data, complete_step}
use trading_ai_framework.Execution.Historical.{total}
use trading_ai_framework.Execution.BrokerSync.{BrokerOrderResult}
use trading_ai_framework.Execution.PaperProvider.{PlaceOrder}
use trading_ai_framework.Execution.PaperExecution.{
  PaperStepFailure, requires_broker_submission, persist_snapshot_and_metrics, run_broker_execution,
  ◌>>=◌,
}

-- What the step calls outside the program.
pub record Outside : Type 0 where
  pub broker : PlaceOrder → Result BrokerOrderResult
  pub get_latest_bar : String → Result DailyBar
  pub load_range : ℕ → ℕ → String → Result (List DailyBar)
  pub load_session_until : ℕ → ℕ → String → Result (List IntradayBar)
  pub agent : Option ℕ → AgentContext → Result AgentRunResult
  pub default_model : String
  pub to_new_york : ℕ → ℕ

-- How the artifacts end: with a failure of the order or none, or by an exception. The store is what
-- has been committed.
pub data ArtifactsEnd : Type 0 where
  ended : Option PaperStepFailure → Store → ArtifactsEnd
  broke : Error → Store → ArtifactsEnd

-- A transaction that raises leaves the rows that were committed before it.
abbrev pub committed : Store → Result (Option PaperStepFailure × Store) → ArtifactsEnd
committed s (ok (failure, s')) = ended failure s'
committed s (err e) = broke e s

-- The rows of the decision: what the market showed, the decision and its check.
abbrev pub decided_rows : String → Quote → ℕ → ℕ → TradingDecision → RiskResult → Store → Store
decided_rows symbol q step_id now decision risk s = record s {
  market_data = s.market_data ++ (new_market_data symbol q step_id now ∷ []);
  decisions = s.decisions ++ (decision ∷ []);
  risk_checks = s.risk_checks ++ (risk ∷ []);
}

-- The figures of a step that places no order.
abbrev pub record_step :
    Quote → ℕ → ℕ → Experiment → Portfolio → ℕ → Store → Result (Option PaperStepFailure × Store)
record_step q step_id now e p timestamp s = do
  s' ← persist_snapshot_and_metrics step_id e p q.price timestamp s
  ok (none, record s' { steps = update_step step_id (complete_step now) s'.steps })

-- A step from its check on: the rows are committed before an order is placed, or else with the figures.
unfoldable pub finish_decided :
    (PlaceOrder → Result BrokerOrderResult)
    → String
    → Quote
    → ℕ
    → ℕ
    → ℕ
    → ℕ
    → Experiment
    → Portfolio
    → TradingDecision
    → RiskResult
    → Store
    → Store
    → ArtifactsEnd
finish_decided broker symbol q timestamp step_id now later e p decision risk before s =
    let rows = decided_rows symbol q step_id now decision risk s in
    if requires_broker_submission risk
    then committed rows
        (run_broker_execution broker risk (next_id s.risk_checks) q.price symbol step_id later rows)
    else committed before (record_step q step_id now e p timestamp rows)

-- `_decide`
unfoldable pub decide_daily :
    StrategyType → Option Decimal → String → Decimal → Option Decimal → ℕ → StrategyDecision
decide_daily StrategyType.paper_trading_smoke_test position_quantity symbol price average window =
    paper_trading_smoke_test "SPY" position_quantity
decide_daily StrategyType.moving_average position_quantity symbol price average window =
    moving_average symbol price average position_quantity window
decide_daily _ position_quantity symbol price average window = buy_and_hold symbol position_quantity

-- `_source_name`
abbrev pub source_name_of : StrategyType → String
source_name_of StrategyType.paper_trading_smoke_test = "PaperTradingSmokeTestStrategy"
source_name_of StrategyType.moving_average = "MovingAverageStrategy"
source_name_of StrategyType.opening_range_breakout = "OpeningRangeBreakoutStrategy"
source_name_of _ = "BuyAndHoldStrategy"

-- `_smoke_test_risk_result`
unfoldable pub smoke_test_risk_result : TradeAction → Portfolio → Decimal → RiskResult
smoke_test_risk_result TradeAction.sell p price =
    let position_quantity = Decimal.or_zero p.position_quantity in
    if Decimal.le position_quantity Decimal.nought
    then held (some "No SPY position exists to sell.") (rule RuleReason.no_position_to_sell)
    else trade FinalAction.sell position_quantity price (rule RuleReason.sell_full_position)
smoke_test_risk_result TradeAction.buy p price =
    if Decimal.le price p.cash
    then record (trade FinalAction.buy (Decimal.of_ℕ 1) price
        (rule RuleReason.smoke_test_fixed_one_share)) {
          final_notional = some (Decimal.quantize 4 price);
        }
    else held (some "Insufficient cash to buy one SPY share.")
        (rule RuleReason.insufficient_cash_for_one_share)
smoke_test_risk_result TradeAction.hold p price =
    held (some "Insufficient cash to buy one SPY share.")
      (rule RuleReason.insufficient_cash_for_one_share)

abbrev pub daily_risk : StrategyType → StrategyDecision → Portfolio → Decimal → RiskResult
daily_risk StrategyType.paper_trading_smoke_test d p price = smoke_test_risk_result d.action p price
daily_risk _ d p price = evaluate d.action d.symbol p price

-- The bars up to a date, in the order of their dates.
insert_by_date : DailyBar → List DailyBar → List DailyBar
insert_by_date b [] = b ∷ []
insert_by_date b (c ∷ bars) =
    let later = c ∷ insert_by_date b bars in if leb b.date c.date then b ∷ c ∷ bars else later

unfoldable pub eligible_bars : ℕ → List DailyBar → List DailyBar
unfolding insert_by_date
eligible_bars date [] = []
eligible_bars date (b ∷ bars) =
    let rest = eligible_bars date bars in if leb b.date date then insert_by_date b rest else rest

-- The mean of the last prices, to four places.
unfoldable pub mean_of_last : ℕ → List Decimal → Option Decimal
mean_of_last window prices =
    if ltb (length prices) window
    then none
    else some (
        Decimal.quantized_div 4 (total (drop (length prices - window) prices))
          (Decimal.of_ℕ window))

-- `_orb_round_trip_completed`
unfoldable pub orb_round_trip_completed : ℕ → List Trade → Bool
orb_round_trip_completed session_date [] = false
orb_round_trip_completed session_date (t ∷ trades) =
    (is_sell t.side && (date_of t.timestamp == session_date))
    || orb_round_trip_completed session_date trades
  where
    is_sell : OrderSide → Bool
    is_sell OrderSide.sell = true
    is_sell OrderSide.buy = false

-- The bars of the opening range.
unfoldable pub opening_range_bars : List IntradayBar → List IntradayBar
opening_range_bars [] = []
opening_range_bars (b ∷ bars) =
    let rest = opening_range_bars bars in
    if leb (time_of b.timestamp) opening_range_end then b ∷ rest else rest

abbrev pub range_high : Bool → List IntradayBar → Option Decimal
range_high true (b ∷ bars) = some (foldl raise_high b.high bars)
range_high _ _ = none

abbrev pub range_low : Bool → List IntradayBar → Option Decimal
range_low true (b ∷ bars) = some (foldl lower_low b.low bars)
range_low _ _ = none

-- `bool(sessions and bar.timestamp == sessions[0].expected_bar_start_times[-1])`
abbrev pub is_last_start : ℕ → List ℕ → Bool
is_last_start timestamp [] = false
is_last_start timestamp (t ∷ ts) = timestamp == last_of t ts

abbrev pub is_final_start : ℕ → List TradingSession → Bool
is_final_start timestamp [] = false
is_final_start timestamp (s ∷ sessions) = is_last_start timestamp s.expected_bar_start_times

-- `_orb_state`
unfoldable pub orb_state : List IntradayBar → IntradayBar → List Trade → OpeningRangeBreakoutState
orb_state bars bar trades =
    let opening_range_complete = ltb opening_range_end (time_of bar.timestamp) in
    let range = opening_range_bars bars in
    record {
      session_date = bar.session_date;
      opening_range_high = range_high opening_range_complete range;
      opening_range_low = range_low opening_range_complete range;
      opening_range_complete = opening_range_complete;
      final_bar = is_final_start bar.timestamp (sessions_between bar.session_date bar.session_date);
      round_trip_completed = orb_round_trip_completed bar.session_date trades;
    }
