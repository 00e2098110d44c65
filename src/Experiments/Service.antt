-- ===== src/Experiments/Service.antt =====
-- Creating, starting, pausing, resuming and stopping an experiment: `ExperimentService` of
-- backend/app/modules/experiments/service.py, over the rows of the experiment. A call that raises
-- commits nothing.
pub mod Log
pub mod Start
pub mod Simulation
use trading_ai_framework.Prelude.{
  ℕ, Bool, true, false, not, ◌&&◌, ◌||◌, Option, none, some, List, [], ◌∷◌, ◌++◌, if◌then◌else◌,
}
use trading_ai_framework.Prelude.Int.{ℤ, pos, negsuc}
use trading_ai_framework.Prelude.Text.{String, str_eq}
use trading_ai_framework.Domain.{
  ExperimentMode, StrategyType, ExperimentStatus, TradingFrequency, EventLevel, SystemEventType,
}
use trading_ai_framework.Decimal
use trading_ai_framework.Decimal.{Decimal}
use trading_ai_framework.Models.{Portfolio, Experiment, StrategyConfig}
use trading_ai_framework.Execution.Store.{Store}
use trading_ai_framework.Execution.RunEnd.{new_event, with_status}
use trading_ai_framework.Experiments.{AppError, Outcome, done, refused}
use trading_ai_framework.Experiments.StatusMachine.{Action, validate_transition}
use trading_ai_framework.Experiments.Validators.{
  CreateExperimentRequest, StrategyConfigInput, Settings, normalize_symbol, is_historical,
  is_agentic, is_intraday_5_min, validate_create_experiment_request,
}

abbrev new_experiment : CreateExperimentRequest → ℕ → ℕ → Experiment
new_experiment r id now = record {
  id = id;
  name = r.name;
  mode = r.mode;
  strategy_type = r.strategy_type;
  asset_symbol = normalize_symbol r.asset_symbol;
  status = ExperimentStatus.created;
  initial_capital = Decimal.stored 4 r.initial_capital;
  start_date = r.start_date;
  end_date = r.end_date;
  trading_frequency = r.trading_frequency;
  fee_model_type = r.fee_model_type;
  fee_value = Decimal.stored 8 r.fee_value;
  created_at = now;
  updated_at = now;
}

-- A window that is stored is positive: the check of the request refuses any other.
abbrev stored_window : Option ℤ → Option ℕ
stored_window none = none
stored_window (some (pos n)) = some n
stored_window (some (negsuc n)) = some 0

-- The threshold as its column of type `Numeric(5, 4)` keeps it.
abbrev stored_threshold : Option Decimal → Option Decimal
stored_threshold none = none
stored_threshold (some t) = some (Decimal.stored 4 t)

abbrev new_config : CreateExperimentRequest → ℕ → StrategyConfig
new_config r now = record {
  strategy_type = r.strategy_type;
  moving_average_window = stored_window r.strategy_config.moving_average_window;
  agent_mode = r.strategy_config.agent_mode;
  model_name = r.strategy_config.model_name;
  confidence_threshold = stored_threshold r.strategy_config.confidence_threshold;
  created_at = now;
  updated_at = now;
}

abbrev new_portfolio : CreateExperimentRequest → ℕ → Portfolio
new_portfolio r now =
    let initial_capital = Decimal.quantize 4 r.initial_capital in
    record {
      cash = initial_capital;
      position_symbol = none;
      position_quantity = some Decimal.nought;
      current_price = none;
      current_position_value = some (Decimal.decimal 0 4);
      current_portfolio_value = some initial_capital;
      updated_at = now;
    }

-- The rows that `create_experiment` adds.
unfoldable pub new_store : CreateExperimentRequest → ℕ → ℕ → Store
new_store r id now = record {
  experiment = some (new_experiment r id now);
  portfolio = some (new_portfolio r now);
  strategy_config = some (new_config r now);
  steps = [];
  market_data = [];
  decisions = [];
  risk_checks = [];
  orders = [];
  trades = [];
  snapshots = [];
  metrics = [];
  events =
      new_event none now EventLevel.info SystemEventType.experiment_created "Experiment created."
      ∷ [];
  sync_logs = [];
  agent_logs = [];
  event_decisions = [];
}

abbrev unless_refused {ℓ} :
    {A : Type ℓ} → (String → AppError) → Option String → Outcome A → Outcome A
unless_refused raise none outcome = outcome
unless_refused raise (some message) outcome = refused (raise message)

-- `create_experiment`; the database chooses the identity.
unfoldable pub create_experiment : Settings → CreateExperimentRequest → ℕ → ℕ → Outcome Store
create_experiment settings r id now =
    unless_refused AppError.validation (validate_create_experiment_request settings r)
      (done (new_store r id now))

-- `event_map` and `message_map`
abbrev pub event_of : Action → SystemEventType
event_of Action.start = SystemEventType.experiment_started
event_of Action.pause = SystemEventType.experiment_paused
event_of Action.resume = SystemEventType.experiment_resumed
event_of Action.stop = SystemEventType.experiment_stopped

abbrev pub message_of : Action → String
message_of Action.start = "Experiment started."
message_of Action.pause = "Experiment paused."
message_of Action.resume = "Experiment resumed."
message_of Action.stop = "Experiment stopped."

-- `response_message`
abbrev pub response_of : Action → Option String
response_of Action.start = some "Experiment start accepted."
response_of Action.resume = some "Experiment resumed."
response_of other = none

-- `ExperimentActionResponse`, with the rows after the call.
pub record ExperimentActionResponse : Type 0 where
  pub experiment_id : ℕ
  pub status : ExperimentStatus
  pub message : Option String
  pub store : Store

-- The rows with the next status and the event of an action.
abbrev pub acted : Action → ExperimentStatus → ℕ → Experiment → Store → Store
acted action next now e s = record s {
  experiment = some (with_status next now e);
  events =
      s.events ++ (new_event none now EventLevel.info (event_of action) (message_of action) ∷ []);
}

abbrev pub commit :
    Action → ℕ → Experiment → Store → Outcome ExperimentStatus → Outcome ExperimentActionResponse
commit action now e s (refused error) = refused error
commit action now e s (done next) = done (record {
  experiment_id = e.id;
  status = next;
  message = response_of action;
  store = acted action next now e s;
})

abbrev pub with_experiment {ℓ} :
    {A : Type ℓ} → Option Experiment → (Experiment → Outcome A) → Outcome A
with_experiment none run = refused (AppError.not_found "Experiment was not found.")
with_experiment (some e) run = run e

-- `apply_lifecycle_action`
unfoldable pub apply_lifecycle_action : Action → ℕ → Store → Outcome ExperimentActionResponse
apply_lifecycle_action action now s =
    with_experiment s.experiment λ e. commit action now e s (validate_transition action e.status)

abbrev is_moving_average : StrategyType → Bool
is_moving_average StrategyType.moving_average = true
is_moving_average _ = false

abbrev is_opening_range_breakout : StrategyType → Bool
is_opening_range_breakout StrategyType.opening_range_breakout = true
is_opening_range_breakout _ = false

abbrev pub is_daily : TradingFrequency → Bool
is_daily TradingFrequency.daily = true
is_daily _ = false

-- The three tests of the configuration in `start_experiment`. The modes in the last test are all
-- the modes that there are.
abbrev pub refusal_of : ExperimentMode → StrategyType → TradingFrequency → Bool → Option String
refusal_of mode strategy frequency is_spy =
    if is_historical mode && is_agentic strategy
    then some "Agentic AI is supported for PAPER_TRADING mode only."
    else if is_historical mode && (is_moving_average strategy && not (is_daily frequency))
    then some "Moving Average historical simulation supports DAILY frequency only."
    else if is_opening_range_breakout strategy
        && (not (is_intraday_5_min frequency) || (is_historical mode && not is_spy))
    then some
        "Opening Range Breakout supports HISTORICAL_SIMULATION or PAPER_TRADING with INTRADAY_5_MIN; historical ORB is SPY-only."
    else none

unfoldable pub start_refusal : Experiment → Option String
start_refusal e =
    refusal_of e.mode e.strategy_type e.trading_frequency (str_eq e.asset_symbol "SPY")

-- The simulations that are run in the background.
pub data Task : Type 0 where
  run_buy_and_hold_historical_simulation run_moving_average_historical_simulation : Task
  run_opening_range_breakout_historical_simulation : Task

-- The simulation that is added to the background tasks, if there are any tasks to add it to.
abbrev task_in : ExperimentMode → StrategyType → TradingFrequency → Option Task
task_in ExperimentMode.historical_simulation StrategyType.buy_and_hold f =
    some run_buy_and_hold_historical_simulation
task_in ExperimentMode.historical_simulation StrategyType.moving_average f =
    some run_moving_average_historical_simulation
task_in ExperimentMode.historical_simulation StrategyType.opening_range_breakout
      TradingFrequency.intraday_5_min =
    some run_opening_range_breakout_historical_simulation
task_in _ _ _ = none

abbrev task_of : Bool → Experiment → Option Task
task_of background e =
    if background then task_in e.mode e.strategy_type e.trading_frequency else none

abbrev with_task :
    Option Task
    → Outcome ExperimentActionResponse
    → Outcome (ExperimentActionResponse × Option Task)
with_task task (done response) = done (response, task)
with_task task (refused error) = refused error

-- `start_experiment`, with or without background tasks
unfoldable pub start_experiment :
    Bool → ℕ → Store → Outcome (ExperimentActionResponse × Option Task)
start_experiment background now s = with_experiment s.experiment λ e.
    unless_refused AppError.invalid_experiment_configuration (start_refusal e)
      (with_task (task_of background e) (apply_lifecycle_action Action.start now s))
