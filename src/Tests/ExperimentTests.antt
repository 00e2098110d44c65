-- ===== src/Tests/ExperimentTests.antt =====
-- A Buy-and-Hold request through backend/app/modules/experiments/service.py, to the end of its run.
use trading_ai_framework.Prelude.{ℕ, ◌≡◌, refl, ◌⊎◌, true, false, Option, some, none, List, [], ◌∷◌}
use trading_ai_framework.Prelude.Text.{String, upper, strip}
use trading_ai_framework.Domain.{
  ExperimentMode, StrategyType, ExperimentStatus, TradingFrequency, FeeModelType,
}
use trading_ai_framework.Decimal
use trading_ai_framework.Decimal.{Decimal, decimal}
use trading_ai_framework.Models.{DailyBar}
use trading_ai_framework.Execution.Store.{Store}
use trading_ai_framework.Execution.Historical.{run_buy_and_hold, run_moving_average}
use trading_ai_framework.Execution.Historical.Completion.{Completes}
use trading_ai_framework.Experiments.{AppError, done, refused}
use trading_ai_framework.Experiments.StatusMachine.{Action, validate_transition}
use trading_ai_framework.Experiments.StatusMachine.Graph.{Transition, validate_transition-decides}
use trading_ai_framework.Experiments.Validators.{
  CreateExperimentRequest, Settings, validate_create_experiment_request, check_amounts,
  check_frequency, check_paper, check_config, normalize_symbol, is_supported_equity_symbol,
}
use trading_ai_framework.Experiments.Validators.Supported.{
  IsAdmissible, validate_create_experiment_request-IsAdmissible,
}
use trading_ai_framework.Experiments.Service.{
  ExperimentActionResponse, Task, create_experiment, start_experiment, apply_lifecycle_action,
  new_store, start_refusal,
}
use trading_ai_framework.Experiments.Service.Log.{status_of}
use trading_ai_framework.Experiments.Service.Start.{
  create_experiment-start_experiment, is_slow_average, started_store,
}
use trading_ai_framework.Experiments.Service.Simulation.{
  create-start-run_buy_and_hold, create-start-run_moving_average,
}
use trading_ai_framework.Experiments.History.{Reachable, creates, continues, acts}
use trading_ai_framework.Experiments.History.Invariant.{IsConsistent, Reachable-IsConsistent}

abbrev settings : Settings
settings = record {
  paper_trading_test_mode_enabled = false;
  scadsai_default_model = "model";
  scadsai_allowed_model_list = "model" ∷ [];
}

abbrev request : StrategyType → CreateExperimentRequest
request strategy = record {
  name = "Two bars";
  mode = ExperimentMode.historical_simulation;
  strategy_type = strategy;
  asset_symbol = " spy";
  initial_capital = decimal 1000 0;
  start_date = 1;
  end_date = 9;
  trading_frequency = TradingFrequency.daily;
  fee_model_type = FeeModelType.none;
  fee_value = Decimal.nought;
  strategy_config = record {
    moving_average_window = none;
    agent_mode = none;
    model_name = none;
    confidence_threshold = none;
    fallback_action = some "HOLD";
  };
}

abbrev hold_request : CreateExperimentRequest
hold_request = request StrategyType.buy_and_hold

abbrev average_request : CreateExperimentRequest
average_request = request StrategyType.moving_average

abbrev bar : ℕ → Decimal → DailyBar
bar d p = record {
  date = d;
  open_price = p;
  high = p;
  low = p;
  close = p;
  adjusted_close = p;
  volume = p;
  timestamp = none;
}

abbrev bars : List DailyBar
bars = bar 3 (decimal 30000 2) ∷ bar 4 (decimal 31050 2) ∷ []

abbrev clock : ℕ → ℕ
clock n = n

abbrev load : ℕ → ℕ → Option (List DailyBar)
load from to = some bars

module _ (strategy : StrategyType) where
  abbrev created_store : Store
  created_store = new_store (request strategy) 1 0

  abbrev started : ExperimentActionResponse
  started = record {
    experiment_id = 1;
    status = ExperimentStatus.running;
    message = some "Experiment start accepted.";
    store = started_store (request strategy) 1 0 true 1;
  }

created_hold :
    create_experiment settings hold_request 1 0 ≡ done (created_store StrategyType.buy_and_hold)
unfolding create_experiment validate_create_experiment_request check_amounts check_frequency
    check_paper check_config normalize_symbol is_supported_equity_symbol upper strip
created_hold = refl

created_average :
    create_experiment settings average_request 1 0
    ≡ done (created_store StrategyType.moving_average)
unfolding create_experiment validate_create_experiment_request check_amounts check_frequency
    check_paper check_config normalize_symbol is_supported_equity_symbol upper strip
created_average = refl

passes : validate_create_experiment_request settings hold_request ≡ none
unfolding validate_create_experiment_request check_amounts check_frequency check_paper check_config
    normalize_symbol is_supported_equity_symbol upper strip
passes = refl

started_hold :
    start_experiment true 1 (created_store StrategyType.buy_and_hold)
    ≡ done (started StrategyType.buy_and_hold, some Task.run_buy_and_hold_historical_simulation)
unfolding start_experiment apply_lifecycle_action validate_transition start_refusal new_store
    started_store normalize_symbol upper strip
started_hold = refl

started_average :
    start_experiment true 1 (created_store StrategyType.moving_average)
    ≡ done (started StrategyType.moving_average, some Task.run_moving_average_historical_simulation)
unfolding start_experiment apply_lifecycle_action validate_transition start_refusal new_store
    started_store normalize_symbol upper strip
started_average = refl

validate_create_experiment_request-IsAdmissible_example : IsAdmissible hold_request
validate_create_experiment_request-IsAdmissible_example =
    validate_create_experiment_request-IsAdmissible settings hold_request passes

create_experiment-start_experiment_example :
    ((started : ExperimentActionResponse × Option Task) × (start_experiment true 1
          (created_store StrategyType.buy_and_hold)
        ≡ done started)
      × (status_of started.0.store.experiment ≡ some ExperimentStatus.running)
      × (is_slow_average hold_request ≡ false))
    ⊎ ((start_experiment true 1 (created_store StrategyType.buy_and_hold)
          ≡ refused (
              AppError.invalid_experiment_configuration
                "Moving Average historical simulation supports DAILY frequency only."))
        × (is_slow_average hold_request ≡ true))
create_experiment-start_experiment_example =
    create_experiment-start_experiment settings hold_request 1 0
      (created_store StrategyType.buy_and_hold) created_hold true 1

create-start-run_buy_and_hold_example :
    Completes 2
      (started StrategyType.buy_and_hold).store
      (run_buy_and_hold clock load (started StrategyType.buy_and_hold).store)
unfolding Decimal.stored
create-start-run_buy_and_hold_example =
    create-start-run_buy_and_hold settings hold_request 1 0
      (created_store StrategyType.buy_and_hold) refl created_hold true 1
      (started StrategyType.buy_and_hold) (some Task.run_buy_and_hold_historical_simulation)
      started_hold clock load bars refl

create-start-run_moving_average_example :
    Completes 2
      (started StrategyType.moving_average).store
      (run_moving_average clock load (started StrategyType.moving_average).store)
unfolding Decimal.stored
create-start-run_moving_average_example =
    create-start-run_moving_average settings average_request 1 0
      (created_store StrategyType.moving_average) refl created_average true 1
      (started StrategyType.moving_average) (some Task.run_moving_average_historical_simulation)
      started_average clock load bars refl

applied_hold :
    apply_lifecycle_action Action.start 1 (created_store StrategyType.buy_and_hold)
    ≡ done (started StrategyType.buy_and_hold)
unfolding apply_lifecycle_action validate_transition new_store started_store
applied_hold = refl

history : Reachable (started StrategyType.buy_and_hold).store
history =
    continues (creates settings hold_request 1 0 refl created_hold)
      (acts Action.start 1 (started StrategyType.buy_and_hold) applied_hold)

Reachable-IsConsistent_example : IsConsistent (started StrategyType.buy_and_hold).store
Reachable-IsConsistent_example = Reachable-IsConsistent history

validate_transition-decides_example :
    ((t : ExperimentStatus) × Transition Action.stop ExperimentStatus.paused t
      × (validate_transition Action.stop ExperimentStatus.paused ≡ done t))
    ⊎ (((t : ExperimentStatus) → Transition Action.stop ExperimentStatus.paused t → ⊥)
        × ((message : String) × (validate_transition Action.stop ExperimentStatus.paused
              ≡ refused (AppError.invalid_status message))))
validate_transition-decides_example =
    validate_transition-decides Action.stop ExperimentStatus.paused
