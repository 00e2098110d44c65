-- ===== src/Tests/RunTests.antt =====
-- Historical runs of backend/app/modules/execution/orchestrator.py over two bars.
use trading_ai_framework.Prelude.{ℕ, refl, Option, some, none, List, [], ◌∷◌}
use trading_ai_framework.Domain.{
  ExperimentMode, StrategyType, ExperimentStatus, TradingFrequency, FeeModelType,
}
use trading_ai_framework.Decimal
use trading_ai_framework.Decimal.{Decimal, decimal}
use trading_ai_framework.Models.{Portfolio, Experiment, StrategyConfig, DailyBar}
use trading_ai_framework.Execution.Store.{Store}
use trading_ai_framework.Execution.Historical.{run_buy_and_hold, run_moving_average}
use trading_ai_framework.Execution.Historical.Bar.{IsReady}
use trading_ai_framework.Execution.Historical.Ending.{
  Ends, run_buy_and_hold-Ends, run_moving_average-Ends,
}
use trading_ai_framework.Execution.Historical.Completion.{
  Completes, run_buy_and_hold-Completes, run_moving_average-Completes,
}

abbrev capital : Decimal
capital = decimal 10000000 4

abbrev pub experiment : Experiment
experiment = record {
  id = 1;
  name = "Two bars";
  mode = ExperimentMode.historical_simulation;
  strategy_type = StrategyType.buy_and_hold;
  asset_symbol = "SPY";
  status = ExperimentStatus.running;
  initial_capital = capital;
  start_date = 1;
  end_date = 9;
  trading_frequency = TradingFrequency.daily;
  fee_model_type = FeeModelType.none;
  fee_value = Decimal.nought;
  created_at = 0;
  updated_at = 0;
}

abbrev pub portfolio : Portfolio
portfolio = record {
  cash = capital;
  position_symbol = none;
  position_quantity = some Decimal.nought;
  current_price = none;
  current_position_value = some (decimal 0 4);
  current_portfolio_value = some capital;
  updated_at = 0;
}

abbrev pub config : StrategyConfig
config = record {
  strategy_type = StrategyType.buy_and_hold;
  moving_average_window = some 2;
  agent_mode = none;
  model_name = none;
  confidence_threshold = none;
  created_at = 0;
  updated_at = 0;
}

abbrev pub start : Store
start = record {
  experiment = some experiment;
  portfolio = some portfolio;
  strategy_config = some config;
  steps = [];
  market_data = [];
  decisions = [];
  risk_checks = [];
  orders = [];
  trades = [];
  snapshots = [];
  metrics = [];
  events = [];
  sync_logs = [];
  agent_logs = [];
  event_decisions = [];
}

abbrev pub bar : ℕ → Decimal → DailyBar
bar d p = record {
  date = d;
  open_price = p;
  high = p;
  low = p;
  close = p;
  adjusted_close = p;
  volume = p;
  timestamp = none;
}

abbrev pub bars : List DailyBar
bars = bar 3 (decimal 30000 2) ∷ bar 4 (decimal 31050 2) ∷ []

abbrev pub clock : ℕ → ℕ
clock n = n

abbrev pub load : ℕ → ℕ → Option (List DailyBar)
load from to = some bars

abbrev pub start-IsReady : IsReady start
start-IsReady = record {
  experiment = experiment;
  portfolio = portfolio;
  config = config;
  has_experiment = refl;
  has_portfolio = refl;
  has_config = refl;
  capital = refl;
  solvent = record { money = (10000000, refl); long = (0, 0, refl) };
  steps_finished = tt;
}

run_buy_and_hold-Completes_example : Completes 2 start (run_buy_and_hold clock load start)
run_buy_and_hold-Completes_example =
    run_buy_and_hold-Completes clock load bars start start-IsReady refl

run_moving_average-Completes_example : Completes 2 start (run_moving_average clock load start)
run_moving_average-Completes_example =
    run_moving_average-Completes clock load bars start start-IsReady refl

-- A run of which no bars can be loaded.
abbrev pub no_load : ℕ → ℕ → Option (List DailyBar)
no_load from to = none

run_buy_and_hold-Ends_example : Ends (run_buy_and_hold clock no_load start)
run_buy_and_hold-Ends_example = run_buy_and_hold-Ends clock no_load start experiment refl

run_moving_average-Ends_example :
    Ends (run_moving_average clock load (record start { strategy_config = none }))
run_moving_average-Ends_example =
    run_moving_average-Ends clock load (record start { strategy_config = none }) experiment refl
