-- ===== src/Execution/Orchestrator.antt =====
-- One bar of a historical simulation, and the bookkeeping of a run
-- (backend/app/modules/execution/orchestrator.py): `_create_running_step` and `_run_step`,
-- which the orchestrators share.
pub mod Success
use trading_ai_framework.Prelude.{ℕ, ◌+◌, Option, none, some, List, [], ◌∷◌, ◌++◌, length}
use trading_ai_framework.Prelude.Text.{String}
use trading_ai_framework.Times.{combine}
use trading_ai_framework.Decimal
use trading_ai_framework.Decimal.{Decimal}
use trading_ai_framework.Domain.{ExecutionStepStatus, TriggerType, DecisionSourceType}
use trading_ai_framework.Models.{
  Portfolio, Order, Trade, Experiment, StrategyConfig, ExecutionStep, DailyBar, MarketDataSnapshot,
  TradingDecision, PortfolioSnapshot, MetricSnapshot,
}
use trading_ai_framework.Strategies.{StrategyDecision}
use trading_ai_framework.Execution.Risk.{RiskResult, evaluate}
use trading_ai_framework.Execution.Simulation.{
  SimulationResult, Call, execute_if_applicable, value_of,
}
use trading_ai_framework.Execution.Metrics.{MetricResult, calculate}
use trading_ai_framework.Execution.Store.{
  Store, next_id, max_sequence_number, get_step, update_step, list_by_experiment, total_values,
}
use trading_ai_framework.Execution.Errors.{
  Result, ok, err, missing_state, step_not_found, division_by_zero,
}

-- `_bar_timestamp`
abbrev pub bar_timestamp : DailyBar → ℕ
bar_timestamp bar = elim bar.timestamp [ some t ↦ t | none ↦ combine bar.date 0 ]

-- What a step shows of the market.
pub record Quote : Type 0 where
  pub timestamp : ℕ
  pub price : Decimal
  pub moving_average : Option Decimal

-- What `_run_step` is given about the bar, and what the strategy decides from the position.
pub record Observation : Type 0 where
  pub quote : Quote
  pub source_name : String
  pub decide : Option Decimal → StrategyDecision

-- `_create_running_step`: the new row, whose identity is returned.
unfoldable pub create_running_step : TriggerType → ℕ → ℕ → Store → ℕ × Store
create_running_step trigger timestamp now s =
    let id = next_id s.steps in
    let step : ExecutionStep = record {
      id = id;
      scheduled_for = some timestamp;
      started_at = some now;
      completed_at = none;
      status = ExecutionStepStatus.running;
      trigger_type = trigger;
      sequence_number = max_sequence_number s.steps + 1;
      error_message = none;
      created_at = now;
    } in
    (id, record s { steps = s.steps ++ (step ∷ []) })

-- The portfolio revalued at a price, after the execution.
unfoldable pub revalue : Portfolio → Decimal → ℕ → Portfolio
revalue p price now =
    let position_value = value_of (Decimal.or_zero p.position_quantity) price in
    record p {
      current_price = some price;
      current_position_value = some position_value;
      current_portfolio_value = some (Decimal.quantize 4 (Decimal.add p.cash position_value));
      updated_at = now;
    }

-- The value that a revalued portfolio shows.
abbrev pub shown_value : Portfolio → Decimal → Decimal
shown_value p price =
    Decimal.quantize 4 (Decimal.add p.cash (value_of (Decimal.or_zero p.position_quantity) price))

-- The order and the trade that an execution leaves, with the identities that the database sets.
abbrev pub add_order : Option Order → List Order → List Order
add_order none orders = orders
add_order (some o) orders = orders ++ (record o { id = next_id orders } ∷ [])

abbrev pub add_trade : Option Trade → ℕ → Decimal → List Trade → List Trade
add_trade none order_id value trades = trades
add_trade (some t) order_id value trades =
    trades ++ (record t { order_id = order_id; portfolio_value_after_trade = some value } ∷ [])

abbrev pub complete_step : ℕ → ExecutionStep → ExecutionStep
complete_step now step = record step {
  status = ExecutionStepStatus.completed;
  completed_at = some now;
}

abbrev pub new_market_data : String → Quote → ℕ → ℕ → MarketDataSnapshot
new_market_data symbol q step_id now = record {
  execution_step_id = step_id;
  timestamp = q.timestamp;
  symbol = symbol;
  price = q.price;
  moving_average = q.moving_average;
  created_at = now;
}

-- The row of a rule-based strategy's decision.
abbrev pub new_decision : String → StrategyDecision → ℕ → ℕ → TradingDecision
new_decision source_name decision step_id now = record {
  execution_step_id = step_id;
  source_type = DecisionSourceType.strategy;
  source_name = source_name;
  action = decision.action;
  symbol = decision.symbol;
  confidence = Decimal.decimal 10000 4;
  trade_intent = none;
  target_exposure_pct = none;
  primary_driver = none;
  new_information = none;
  reason = decision.reason;
  created_at = now;
}

abbrev pub new_snapshot : Portfolio → Decimal → ℕ → ℕ → ℕ → PortfolioSnapshot
new_snapshot portfolio price step_id timestamp now = record {
  execution_step_id = step_id;
  timestamp = timestamp;
  cash = portfolio.cash;
  position_symbol = portfolio.position_symbol;
  position_quantity = portfolio.position_quantity;
  position_market_value = portfolio.current_position_value;
  total_portfolio_value = portfolio.current_portfolio_value;
  current_price = some price;
  created_at = now;
}

abbrev pub new_metrics : MetricResult → ℕ → ℕ → ℕ → MetricSnapshot
new_metrics metrics step_id timestamp now = record {
  execution_step_id = step_id;
  timestamp = timestamp;
  total_return = metrics.total_return;
  profit_loss = metrics.profit_loss;
  number_of_trades = metrics.number_of_trades;
  max_drawdown = metrics.max_drawdown;
  buy_and_hold_return = metrics.buy_and_hold_return;
  difference_to_buy_and_hold = metrics.difference_to_buy_and_hold;
  created_at = now;
}

-- The rows of `_run_step`, once the state that it needs is found and the figures are computed.
unfoldable pub write_step :
    Quote
    → ℕ
    → ℕ
    → Portfolio
    → TradingDecision
    → RiskResult
    → SimulationResult
    → MetricResult
    → Store
    → Store
write_step q step_id now portfolio decision risk execution metrics s = record s {
  portfolio = some portfolio;
  steps = update_step step_id (complete_step now) s.steps;
  market_data = s.market_data ++ (new_market_data "SPY" q step_id now ∷ []);
  decisions = s.decisions ++ (decision ∷ []);
  risk_checks = s.risk_checks ++ (risk ∷ []);
  orders = add_order execution.order s.orders;
  trades =
      add_trade execution.trade (next_id s.orders) (shown_value execution.portfolio q.price)
        s.trades;
  snapshots = s.snapshots ++ (new_snapshot portfolio q.price step_id q.timestamp now ∷ []);
  metrics = s.metrics ++ (new_metrics metrics step_id q.timestamp now ∷ []);
}

abbrev pub or_division : Option MetricResult → (MetricResult → Store) → Result Store
or_division none write = err division_by_zero
or_division (some metrics) write = ok (write metrics)

-- A step from the decision on: the check has its result.
unfoldable pub run_decided :
    Quote → ℕ → ℕ → Experiment → Portfolio → TradingDecision → RiskResult → Store → Result Store
run_decided q step_id now experiment portfolio decision risk s =
    let call : Call = record {
      execution_step_id = step_id;
      risk_check_id = next_id s.risk_checks;
      timestamp = q.timestamp;
      price = q.price;
      now = now;
    } in
    let execution = execute_if_applicable risk portfolio call in
    let value = shown_value execution.portfolio q.price in
    let trades = add_trade execution.trade (next_id s.orders) value s.trades in
    or_division
      (calculate experiment.initial_capital value (total_values (list_by_experiment s.snapshots))
        (length trades))
      (λ metrics.
        write_step q step_id now (revalue execution.portfolio q.price now) decision risk execution
          metrics s)

-- `_run_step` with the experiment, the portfolio and the step at hand. An exception leaves the
-- session uncommitted, so the store is as it was.
unfoldable pub run_found : Observation → ℕ → ℕ → Experiment → Portfolio → Store → Result Store
unfolding run_decided
run_found o step_id now experiment portfolio s =
    let decision = o.decide portfolio.position_quantity in
    run_decided o.quote step_id now experiment portfolio
      (new_decision o.source_name decision step_id now)
      (evaluate decision.action decision.symbol portfolio o.quote.price) s

-- `experiment is None or portfolio is None or strategy_config is None`
abbrev pub with_state :
    Option Experiment
    → Option Portfolio
    → Option StrategyConfig
    → (Experiment → Portfolio → Result Store)
    → Result Store
with_state (some e) (some p) (some c) run = run e p
with_state _ _ _ run = err missing_state

abbrev pub with_step : Option ExecutionStep → Result Store → Result Store
with_step none result = err step_not_found
with_step (some step) result = result

-- `_run_step`
unfoldable pub run_step : Observation → ℕ → ℕ → Store → Result Store
run_step o step_id now s =
    with_state s.experiment s.portfolio s.strategy_config λ experiment portfolio.
      with_step (get_step step_id s.steps) (run_found o step_id now experiment portfolio s)
